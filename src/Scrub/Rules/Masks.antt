-- ===== src/Scrub/Rules/Masks.antt =====
-- What the pass may change at all.
use libre_mail_bug_report_in.Prelude.{none, List, [], ◌∷◌, ◌++◌, Bool, true, not, ◌&&◌}
use libre_mail_bug_report_in.Prelude.Text.{Text}
use libre_mail_bug_report_in.Scrub.Replace.{Rule}
use libre_mail_bug_report_in.Scrub.Replace.Change.{nullable}
use libre_mail_bug_report_in.Scrub.Replace.Leftmost.{Replaced}
use libre_mail_bug_report_in.Scrub.Rules.Emails.{email_redactors}
use libre_mail_bug_report_in.Scrub.Rules.Addresses.{ip_redactors}
use libre_mail_bug_report_in.Scrub.Rules.Tokens.{token_redactors}
use libre_mail_bug_report_in.Scrub.Rules.Names.{name_redactors}

abbrev pub all_redactors : List Rule
all_redactors = token_redactors ++ (email_redactors ++ (ip_redactors ++ name_redactors))

-- A text that is got from another by applying a list of rules in order, each of which puts its mask
-- behind its group in the place of stretches of its own form, and keeps a rune only where it has no
-- match that begins there.
pub data Scrubbed : List Rule → Text → Text → Type 0 where
  scrubbed : (s : Text) → Scrubbed [] s s
  via :
      {rule : Rule} {rules : List Rule} {s t u : Text}
      → Replaced rule none s t
      → Scrubbed rules t u
      → Scrubbed (rule ∷ rules) s u

unfoldable are_solid : List Rule → Bool
unfolding nullable
are_solid [] = true
are_solid (rule ∷ rules) = not (nullable rule.tail) && are_solid rules
