-- ===== src/Scrub/Replace/Free.antt =====
-- A rule without a group leaves no stretch that its own expression accepts, and no later rule brings
-- one back whose mask is a barrier for the expression.
use libre_mail_bug_report_in.Prelude.{
  ℕ, zero, suc, ◌-◌, ◌≡◌, refl, ap, ◌∙◌, Option, none, some, List, [], ◌∷◌, ◌++◌, Bool, true, false,
  not, ◌&&◌, length, arith, Option-cases, inl, inr, All,
}
use libre_mail_bug_report_in.Prelude.Text.{Text}
use libre_mail_bug_report_in.Scrub.Regex.{Regex, run}
use libre_mail_bug_report_in.Scrub.Regex.Complete.{is_literal, Found, run-Found}
use libre_mail_bug_report_in.Scrub.Regex.Clean.{
  uses, Uses, Accepts-Uses, Starts, Clean, is_barrier, is_barrier-Clean,
}
use libre_mail_bug_report_in.Scrub.Replace.{
  Rule, whole, first_match, replace_from, replace_all, apply,
}
use libre_mail_bug_report_in.Scrub.Replace.Change.{
  Masked, done, keep, put, nullable, Accepts-nullable, append-empty, first_match-some,
  replace_from-Masked, take-before,
}

-- a mask that begins with a rune not in use, and is a barrier
unfoldable pub is_shield : Regex → Text → Bool
unfolding uses is_barrier
is_shield r [] = false
is_shield r (x ∷ m) = not (uses r x) && is_barrier r (x ∷ m)

is_shield-head :
    (r : Regex) (m t c rest : Text) (y : ℕ) → is_shield r m ≡ true → m ++ t ≡ y ∷ c → ¬ Uses r y
unfolding is_shield
is_shield-head r [] t c rest y h e u = cc
is_shield-head r (x ∷ m) t c rest y h e u =
    let ex : x ≡ y = cc in let hx : uses r x ≡ false = ground arith in cc

is_shield-is_barrier : (r : Regex) (m : Text) → is_shield r m ≡ true → is_barrier r m ≡ true
unfolding is_shield
is_shield-is_barrier r [] h = cc
is_shield-is_barrier r (x ∷ m) h = ground arith

-- A prefix of runes in use stands in the text before the masks too.
prefix_kept :
    (r q : Regex) (m s t c rest : Text)
    → is_shield r m ≡ true
    → Masked q m s t
    → t ≡ c ++ rest
    → All (Uses r) c
    → (rest' : Text) × (s ≡ c ++ rest')
prefix_kept r q m s t [] rest h masked e all = (s, refl)
prefix_kept r q m _ _ (y ∷ c) rest h done e all = cc
prefix_kept r q m _ _ (y ∷ c) rest h (keep x {s} {t} masked) e (uy, all) =
    let ex : x ≡ y = cc in
    let et : t ≡ c ++ rest = cc in
    let (rest', e') = prefix_kept r q m s t c rest h masked et all in (rest', rw ex (ap (◌∷◌ y) e'))
prefix_kept r q m _ _ (y ∷ c) rest h (put v {s} {s'} {t} in_q split masked) e (uy, all) =
    absurd (is_shield-head r m t (c ++ rest) rest y h e uy)

Starts-kept :
    (r q : Regex) (m s t : Text) → is_shield r m ≡ true → Masked q m s t → Starts r t → Starts r s
Starts-kept r q m s t h masked (c, rest, e, accepted) =
    let (rest', e') = prefix_kept r q m s t c rest h masked e (Accepts-Uses r c accepted) in
    (c, rest', e', accepted)

Clean-behind : (r : Regex) (v s : Text) → Clean r (v ++ s) → Clean r s
Clean-behind r [] s h = h
Clean-behind r (x ∷ v) s h = Clean-behind r v s h.1

Clean-Masked :
    (r q : Regex) (m s t : Text)
    → is_literal r ≡ true
    → is_shield r m ≡ true
    → Clean r s
    → Masked q m s t
    → Clean r t
Clean-Masked r q m _ _ literal h clean done = clean
Clean-Masked r q m _ _ literal h clean (keep x {s} {t} masked) = (
  λ starts. clean.0 (Starts-kept r q m (x ∷ s) (x ∷ t) h (keep x masked) starts),
  Clean-Masked r q m s t literal h clean.1 masked,
)
Clean-Masked r q m _ _ literal h clean (put v {s} {s'} {t} in_q split masked) =
    is_barrier-Clean r m t literal (is_shield-is_barrier r m h)
      (Clean-Masked r q m s t literal h (Clean-behind r v s (rw split at clean)) masked)

Starts-match :
    (r : Regex) (m : Text) (before : Option ℕ) (s : Text)
    → is_literal r ≡ true
    → Starts r s
    → Found (first_match (whole r m) before s)
unfolding first_match run
Starts-match r m before s literal (c, rest, e, accepted) =
    rw e (run-Found r before c rest _ literal accepted (λ b. (_, refl)))

replace_from-Clean :
    (r : Regex) (m : Text) (before : Option ℕ) (skip : ℕ) (s : Text)
    → is_literal r ≡ true
    → nullable r ≡ false
    → is_shield r m ≡ true
    → Clean r (replace_from (whole r m) before skip s)
unfolding replace_from
replace_from-Clean r m before skip [] literal solid h = λ starts.
    let (c, rest, e, accepted) = starts in
    let (ec, er) = append-empty c rest e in let yes = Accepts-nullable r (rw ec at accepted) in cc
replace_from-Clean r m before (suc skip) (c ∷ s) literal solid h =
    replace_from-Clean r m (some c) skip s literal solid h
replace_from-Clean r m before zero (c ∷ s) literal solid h =
    elim (Option-cases (first_match (whole r m) before (c ∷ s))) [
      | inl e ↦
          rw (e, replace_from)
            (
              (λ starts.
                  let masked = replace_from-Masked (whole r m) (some c) zero s solid in
                  let starts' = Starts-kept r r m (c ∷ s) _ h (keep c masked) starts in
                  let (a, e') = Starts-match r m before (c ∷ s) literal starts' in cc),
              replace_from-Clean r m (some c) zero s literal solid h,
            )
      | inr ((after_group, after), e) ↦
          let (v, u, rest, split, in_group, in_tail, eg, ea) =
            first_match-some (whole r m) before (c ∷ s) after_group after e in
          let kept = take-before (c ∷ s) v (u ++ rest) split in
          rw (e, replace_from, eg, kept, in_group)
            (is_barrier-Clean r m _ literal (is_shield-is_barrier r m h)
              (replace_from-Clean r m (some c) (length s - after) s literal solid h))
    ]

-- whether each rule's mask keeps the texts of an expression away
unfoldable pub are_shields : Regex → List Rule → Bool
unfolding is_shield nullable
are_shields r [] = true
are_shields r (rule ∷ rules) =
    not (nullable rule.tail) && (is_shield r rule.mask && are_shields r rules)

replace_all-Clean :
    (r : Regex) (m s : Text)
    → is_literal r ≡ true
    → nullable r ≡ false
    → is_shield r m ≡ true
    → Clean r (replace_all (whole r m) s)
unfolding replace_all
replace_all-Clean r m s literal solid h = replace_from-Clean r m none zero s literal solid h

pub apply-Clean :
    (r : Regex) (rules : List Rule) (s : Text)
    → is_literal r ≡ true
    → are_shields r rules ≡ true
    → Clean r s
    → Clean r (apply rules s)
unfolding apply are_shields replace_all
apply-Clean r [] s literal h clean = clean
apply-Clean r (rule ∷ rules) s literal h clean =
    let solid : nullable rule.tail ≡ false = ground arith in
    let shield : is_shield r rule.mask ≡ true = ground arith in
    let h' : are_shields r rules ≡ true = ground arith in
    apply-Clean r rules (replace_all rule s) literal h' (
      Clean-Masked r rule.tail rule.mask s (replace_all rule s) literal shield clean
        (replace_from-Masked rule none zero s solid))

-- whether a rule without a group removes an expression's texts, and the rules behind it bring none back
unfoldable pub is_final : Regex → Text → List Rule → Bool
unfolding are_shields
is_final r m rules = is_literal r && (not (nullable r) && (is_shield r m && are_shields r rules))

pub apply-removes :
    (r : Regex) (m : Text) (rules : List Rule) (s : Text)
    → is_final r m rules ≡ true
    → Clean r (apply (whole r m ∷ rules) s)
unfolding apply is_final
apply-removes r m rules s h =
    let literal : is_literal r ≡ true = ground arith in
    let solid : nullable r ≡ false = ground arith in
    let shield : is_shield r m ≡ true = ground arith in
    let h' : are_shields r rules ≡ true = ground arith in
    apply-Clean r rules (replace_all (whole r m) s) literal h'
      (replace_all-Clean r m s literal solid shield)

-- A text that is free of a rule's expressions stays as it is.
replace_from-unchanged :
    (r : Regex) (m : Text) (before : Option ℕ) (s : Text)
    → Clean r s
    → replace_from (whole r m) before zero s ≡ s
unfolding replace_from
replace_from-unchanged r m before [] clean = refl
replace_from-unchanged r m before (c ∷ s) clean =
    elim (Option-cases (first_match (whole r m) before (c ∷ s))) [
      | inl e ↦ rw (e, replace_from) (ap (◌∷◌ c) (replace_from-unchanged r m (some c) s clean.1))
      | inr ((after_group, after), e) ↦
          let (v, u, rest, split, in_group, in_tail, eg, ea) =
            first_match-some (whole r m) before (c ∷ s) after_group after e in
          absurd (clean.0 (u, rest, split ∙ ap (λ x. x ++ (u ++ rest)) in_group, in_tail))
    ]

pub replace_all-unchanged : (r : Regex) (m s : Text) → Clean r s → replace_all (whole r m) s ≡ s
unfolding replace_all
replace_all-unchanged r m s clean = replace_from-unchanged r m none s clean
