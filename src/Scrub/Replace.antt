-- ===== src/Scrub/Replace.antt =====
-- The rules of internal/scrub/scrub.go (redactor, apply), with `regexp`'s ReplaceAllString as they
-- use it: the template is the rule's group, if it has one, and a literal mask. A rule is its group
-- and what follows the group in the match; a rule without one has the empty group. No rule matches
-- the empty text (`Rules.matches_nothing`), so the treatment of empty matches is left out.
pub mod Change
pub mod Free
pub mod Leftmost
use libre_mail_bug_report_in.Prelude.{
  ℕ, zero, suc, ◌-◌, Option, none, some, List, [], ◌∷◌, ◌++◌, Bool, true, false, length, take,
}
use libre_mail_bug_report_in.Prelude.Text.{Text}
use libre_mail_bug_report_in.Scrub.Regex.{Regex, nothing, Next, run}

pub record Rule : Type 0 where
  -- `${1}`
  pub group : Regex
  pub tail : Regex
  pub mask : Text

abbrev pub whole : Regex → Text → Rule
whole r m = record { group = nothing; tail = r; mask = m }

-- the lengths of what is left behind the group, and behind the match
unfoldable pub first_match : Rule → Option ℕ → Text → Option (ℕ × ℕ)
unfolding run
first_match rule before s =
    run rule.group before s (λ b t. run rule.tail b t (λ b' t'. some (length t, length t')))

-- the text behind the first `skip` runes, which a match has taken
unfoldable pub replace_from : Rule → Option ℕ → ℕ → Text → Text
unfolding first_match
replace_from rule before skip [] = []
replace_from rule before (suc skip) (c ∷ s) = replace_from rule (some c) skip s
replace_from rule before zero (c ∷ s) = elim (first_match rule before (c ∷ s)) [
  | none ↦ c ∷ replace_from rule (some c) zero s
  | some (after_group, after) ↦
      take (length (c ∷ s) - after_group) (c ∷ s)
      ++ (rule.mask ++ replace_from rule (some c) (length s - after) s)
]

unfoldable pub replace_all : Rule → Text → Text
unfolding replace_from
replace_all rule s = replace_from rule none zero s

-- The loop runs over the rules in order.
unfoldable pub apply : List Rule → Text → Text
unfolding replace_all
apply [] s = s
apply (r ∷ rules) s = apply rules (replace_all r s)
