-- ===== src/Scrub/Replace/Leftmost.antt =====
-- What ReplaceAllString does to a text, apart from any search: from the left, each place where the rule
-- has a match begins a stretch that gives way to its group and the mask, and every other rune is kept.
use libre_mail_bug_report_in.Prelude.{
  ℕ, zero, suc, ◌-◌, ◌≡◌, ◌≤◌, refl, sym, ◌∙◌, Option, some, [], ◌∷◌, ◌++◌, false, length, take,
  drop, append_assoc, length-append, arith, Option-cases, inl, inr,
}
use libre_mail_bug_report_in.Prelude.Text.{Text}
use libre_mail_bug_report_in.Scrub.Regex.{seq, run}
use libre_mail_bug_report_in.Scrub.Regex.Sound.{Accepts}
use libre_mail_bug_report_in.Scrub.Regex.Complete.{Found}
use libre_mail_bug_report_in.Scrub.Regex.Matches.{last_of, Matches, run-Found-at}
use libre_mail_bug_report_in.Scrub.Replace.{Rule, first_match, replace_from}
use libre_mail_bug_report_in.Scrub.Replace.Change.{
  nullable, Accepts-length, first_match-some, drop-behind, take-before,
}

-- The rule matches a prefix of the text behind that rune.
abbrev pub MatchesHere : Rule → Option ℕ → Text → Type 0
MatchesHere rule before s =
    (u : Text) × (rest : Text) × (s ≡ u ++ rest) × Matches (seq rule.group rule.tail) before u rest

-- The rune before the place, the text from there on, and what becomes of it.
pub data Replaced (rule : Rule) : Option ℕ → Text → Text → Type 0 where
  done : (before : Option ℕ) → Replaced rule before [] []
  keep :
      (before : Option ℕ) (c : ℕ) {s t : Text}
      → ¬ (MatchesHere rule before (c ∷ s))
      → Replaced rule (some c) s t
      → Replaced rule before (c ∷ s) (c ∷ t)
  put :
      (before : Option ℕ) (v u : Text) {s s' t : Text}
      → Accepts rule.group v
      → Accepts rule.tail u
      → s' ≡ v ++ (u ++ s)
      → Replaced rule (last_of before (v ++ u)) s t
      → Replaced rule before s' (v ++ (rule.mask ++ t))

first_match-Found :
    (rule : Rule) (before : Option ℕ) (s : Text)
    → MatchesHere rule before s
    → Found (first_match rule before s)
unfolding first_match
first_match-Found rule before s (u, rest, e, (v, w, split, in_group, in_tail)) =
    rw (e, split, append_assoc v w rest)
      (run-Found-at rule.group before v (w ++ rest)
        (λ b t. run rule.tail b t (λ b' t'. some (length t, length t'))) in_group
        (run-Found-at rule.tail (last_of before v) w rest
          (λ b' t'. some (length (w ++ rest), length t')) in_tail (_, refl)))

-- the rune before what is left of the text, where a match has taken some runes
last_of-behind :
    (before : Option ℕ) (c : ℕ) (s w rest : Text)
    → c ∷ s ≡ w ++ rest
    → 1 ≤ length w
    → last_of (some c) (take (length s - length rest) s) ≡ last_of before w
last_of-behind before c s [] rest e h = absurd (omega arith)
last_of-behind before c s (x ∷ w) rest e h =
    let ex : c ≡ x = cc in let es : s ≡ w ++ rest = cc in rw (take-before s w rest es) (rw ex refl)

pub replace_from-Replaced :
    (rule : Rule) (before : Option ℕ) (skip : ℕ) (s : Text)
    → nullable rule.tail ≡ false
    → Replaced rule (last_of before (take skip s)) (drop skip s) (replace_from rule before skip s)
unfolding replace_from
replace_from-Replaced rule before zero [] h = done before
replace_from-Replaced rule before (suc skip) [] h = done before
replace_from-Replaced rule before (suc skip) (c ∷ s) h =
    replace_from-Replaced rule (some c) skip s h
replace_from-Replaced rule before zero (c ∷ s) h =
    elim (Option-cases (first_match rule before (c ∷ s))) [
      | inl e ↦
          let no_match : ¬ (MatchesHere rule before (c ∷ s)) =
            λ match. let (a, e') = first_match-Found rule before (c ∷ s) match in cc in
          rw (e, replace_from)
            (keep before c no_match (replace_from-Replaced rule (some c) zero s h))
      | inr ((after_group, after), e) ↦
          let (v, u, rest, split, in_group, in_tail, eg, ea) =
            first_match-some rule before (c ∷ s) after_group after e in
          let split' = split ∙ sym (append_assoc v u rest) in
          let long : 1 ≤ length (v ++ u) =
            (let l = Accepts-length rule.tail u h in omega (arith, length-append v u)) in
          let behind = drop-behind c s (v ++ u) rest split' long in
          let last = last_of-behind before c s (v ++ u) rest split' long in
          let kept = take-before (c ∷ s) v (u ++ rest) split in
          let ih : Replaced rule (last_of before (v ++ u)) rest
              (replace_from rule (some c) (length s - length rest) s) =
            rw (behind, last) at
              (replace_from-Replaced rule (some c) (length s - length rest) s h) in
          rw (e, replace_from, eg, ea, kept) (put before v u in_group in_tail split ih)
    ]
