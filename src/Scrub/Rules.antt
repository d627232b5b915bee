-- ===== src/Scrub/Rules.antt =====
-- The pass over a payload: Scrub, ScrubString, RedactTokens, RedactEmails, RedactIPs, RedactNames.
pub mod Emails
pub mod Addresses
pub mod Tokens
pub mod Names
pub mod Removed
pub mod Masks
mod Tests
use libre_mail_bug_report_in.Prelude.{List, [], ◌∷◌}
use libre_mail_bug_report_in.Prelude.Text.{Text}
use libre_mail_bug_report_in.Scrub.Replace.{apply}
use libre_mail_bug_report_in.Scrub.Rules.Emails.{email_redactors}
use libre_mail_bug_report_in.Scrub.Rules.Addresses.{ip_redactors}
use libre_mail_bug_report_in.Scrub.Rules.Tokens.{token_redactors}
use libre_mail_bug_report_in.Scrub.Rules.Names.{name_redactors}

unfoldable pub redact_emails : Text → Text
redact_emails s = apply email_redactors s

unfoldable pub redact_tokens : Text → Text
redact_tokens s = apply token_redactors s

unfoldable pub redact_ips : Text → Text
redact_ips s = apply ip_redactors s

unfoldable pub redact_names : Text → Text
redact_names s = apply name_redactors s

unfoldable pub scrub_string : Text → Text
unfolding redact_emails redact_tokens redact_ips redact_names
scrub_string s = redact_names (redact_ips (redact_emails (redact_tokens s)))

unfoldable pub scrub : Text → Text
unfolding scrub_string
scrub [] = []
scrub (c ∷ payload) = scrub_string (c ∷ payload)
