-- ===== src/Scrub/Replace/Change.antt =====
-- What a rule does to a text: it puts its mask in the place of stretches that its tail accepts, and
-- keeps the rest.
use libre_mail_bug_report_in.Prelude.{
  ℕ, zero, suc, ◌-◌, ◌≡◌, refl, sym, ap, ◌∙◌, Option, some, [], ◌∷◌, ◌++◌, Bool, true, false, ◌&&◌,
  ◌||◌, ◌==◌, ◌≤◌, length, take, drop, append_assoc, length-append, arith, take-length-append,
  drop-length-append, Option-cases, inl, inr,
}
use libre_mail_bug_report_in.Prelude.Text.{Text}
use libre_mail_bug_report_in.Scrub.Regex.{Regex, nothing, boundary, one, many, seq, alt}
use libre_mail_bug_report_in.Scrub.Regex.Sound.{Accepts, run-Consumed}
use libre_mail_bug_report_in.Scrub.Replace.{Rule, first_match, replace_from}

pub data Masked (r : Regex) (m : Text) : Text → Text → Type 0 where
  done : Masked r m [] []
  keep : (c : ℕ) {s t : Text} → Masked r m s t → Masked r m (c ∷ s) (c ∷ t)
  put :
      (c : Text) {s s' t : Text}
      → Accepts r c
      → s' ≡ c ++ s
      → Masked r m s t
      → Masked r m s' (m ++ t)

-- A match is a text of the group and one of the tail.
pub first_match-some :
    (rule : Rule) (before : Option ℕ) (s : Text) (after_group after : ℕ)
    → first_match rule before s ≡ some (after_group, after)
    → (v : Text) × (u : Text) × (rest : Text) × (s ≡ v ++ (u ++ rest))
      × Accepts rule.group v
      × Accepts rule.tail u
      × (after_group ≡ length (u ++ rest))
      × (after ≡ length rest)
unfolding first_match
first_match-some rule before s after_group after h =
    let (v, t, b, e, accepted, h') = run-Consumed rule.group before s _ (after_group, after) h in
    let (u, rest, b', e', accepted', h'') = run-Consumed rule.tail b t _ (after_group, after) h' in
    (v, u, rest, e ∙ ap (◌++◌ v) e', accepted, accepted', rw e' at (pair h'').0, (pair h'').1)
  where
    pair : {a b c d : ℕ} → Path (Option (ℕ × ℕ)) (some (a, b)) (some (c, d)) → (c ≡ a) × (d ≡ b)
    pair e = (cc, cc)

-- whether the empty text is accepted; \b is counted as accepting it
unfoldable pub nullable : Regex → Bool
nullable nothing = true
nullable boundary = true
nullable (one f) = false
nullable (many f lo hi) = lo == 0
nullable (seq a b) = nullable a && nullable b
nullable (alt a b) = nullable a || nullable b

pub append-empty : (v w : Text) → [] ≡ v ++ w → (v ≡ []) × (w ≡ [])
append-empty [] w e = (refl, sym e)
append-empty (x ∷ v) w e = cc

pub Accepts-nullable : (r : Regex) → Accepts r [] → nullable r ≡ true
unfolding nullable
Accepts-nullable nothing e = refl
Accepts-nullable boundary e = refl
Accepts-nullable (one f) (c, e, h) = cc
Accepts-nullable (many f lo hi) (all, low, high) = ground arith
Accepts-nullable (seq a b) (v, w, e, accepted, accepted') =
    let (ev, ew) = append-empty v w e in
    let ha = Accepts-nullable a (rw ev at accepted) in
    let hb = Accepts-nullable b (rw ew at accepted') in ground arith
Accepts-nullable (alt a b) (inl accepted) = let h = Accepts-nullable a accepted in ground arith
Accepts-nullable (alt a b) (inr accepted) = let h = Accepts-nullable b accepted in ground arith

pub Accepts-length : (r : Regex) (u : Text) → nullable r ≡ false → Accepts r u → 1 ≤ length u
Accepts-length r [] h accepted = let h' = Accepts-nullable r accepted in cc
Accepts-length r (x ∷ u) h accepted = omega arith

-- what is left of the text behind its first rune, where a match has taken some runes
pub drop-behind :
    (c : ℕ) (s w rest : Text)
    → c ∷ s ≡ w ++ rest
    → 1 ≤ length w
    → drop (length s - length rest) s ≡ rest
drop-behind c s [] rest e h = absurd (omega arith)
drop-behind c s (x ∷ w) rest e h =
    let e' : s ≡ w ++ rest = cc in
    rw e' (
      drop-length-append (length (w ++ rest) - length rest) w rest
        (omega (arith, length-append w rest)))

pub take-before : (s v t : Text) → s ≡ v ++ t → take (length s - length t) s ≡ v
take-before s v t e =
    rw e (take-length-append (length (v ++ t) - length t) v t (omega (arith, length-append v t)))

keep_all :
    {r : Regex} {m : Text} (v : Text) {s t : Text} → Masked r m s t → Masked r m (v ++ s) (v ++ t)
keep_all [] h = h
keep_all (x ∷ v) h = keep x (keep_all v h)

pub replace_from-Masked :
    (rule : Rule) (before : Option ℕ) (skip : ℕ) (s : Text)
    → nullable rule.tail ≡ false
    → Masked rule.tail rule.mask (drop skip s) (replace_from rule before skip s)
unfolding replace_from
replace_from-Masked rule before zero [] h = done
replace_from-Masked rule before (suc skip) [] h = done
replace_from-Masked rule before (suc skip) (c ∷ s) h = replace_from-Masked rule (some c) skip s h
replace_from-Masked rule before zero (c ∷ s) h =
    elim (Option-cases (first_match rule before (c ∷ s))) [
      | inl e ↦ rw (e, replace_from) (keep c (replace_from-Masked rule (some c) zero s h))
      | inr ((after_group, after), e) ↦
          let (v, u, rest, split, in_group, in_tail, eg, ea) =
            first_match-some rule before (c ∷ s) after_group after e in
          let behind =
            drop-behind c s (v ++ u) rest (split ∙ sym (append_assoc v u rest))
              (let l = Accepts-length rule.tail u h in omega (arith, length-append v u)) in
          let kept = take-before (c ∷ s) v (u ++ rest) split in
          let ih : Masked rule.tail rule.mask rest
              (replace_from rule (some c) (length s - length rest) s) =
            rw behind at (replace_from-Masked rule (some c) (length s - length rest) s h) in
          rw (e, replace_from, eg, ea, kept, split) (keep_all v (put u in_tail refl ih))
    ]
