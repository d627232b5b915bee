-- ===== src/Scrub/Rules/Tests.antt =====
-- Runs of the pass, most of them cases of internal/scrub/scrub_test.go.
use libre_mail_bug_report_in.Prelude.{◌≡◌, ◌↔◌, refl}
use libre_mail_bug_report_in.Prelude.Text.{codes}
use libre_mail_bug_report_in.Scrub.Regex.{times, between}
use libre_mail_bug_report_in.Scrub.Regex.Sound.{Accepts}
use libre_mail_bug_report_in.Scrub.Replace.{apply}
use libre_mail_bug_report_in.Scrub.Classes.{
  literal, alnum_or, alts, is_in, is_alnum, is_space, is_digit, any_case, fold,
}
use libre_mail_bug_report_in.Scrub.Rules.{
  redact_emails, redact_tokens, redact_ips, redact_names, scrub_string, scrub,
}
use libre_mail_bug_report_in.Scrub.Rules.Emails.{email}
use libre_mail_bug_report_in.Scrub.Rules.Addresses.{ipv6, is_hex}
use libre_mail_bug_report_in.Scrub.Rules.Tokens.{jwt}
use libre_mail_bug_report_in.Scrub.Rules.Removed.{scrub-IsFree, redact_emails-unchanged_iff}
use libre_mail_bug_report_in.Scrub.Regex.Clean.{Clean}

addresses :
    redact_emails (codes "mail jo.doe+x@mail.example.org. or @jo")
    ≡ codes "mail [REDACTED_EMAIL]. or @jo"
unfolding redact_emails apply alnum_or literal
addresses = refl

hosts :
    redact_ips (codes "v1.2.3 12:34:56 fe80::1 10.0.0.255, 999.1.1.1")
    ≡ codes "v1.2.3 12:34:56 [REDACTED_IP] [REDACTED_IP], 999.1.1.1"
unfolding redact_ips apply alts literal is_in times between is_hex is_digit
hosts = refl

auth_header :
    redact_tokens (codes "\"authorization\": \"Bearer abc\", Password=hunter2 ")
    ≡ codes "\"authorization\": \"[REDACTED_AUTH]\", Password=[REDACTED_TOKEN] "
unfolding redact_tokens apply alts literal is_in any_case fold alnum_or is_space is_alnum is_digit
auth_header = refl

names :
    redact_names (codes "{\"user_name\": \"Jo D\", hostname: x, name: Jo}")
    ≡ codes "{\"user_name\": \"[REDACTED_NAME]\", hostname: x, name: [REDACTED_NAME]}"
unfolding redact_names apply alts literal is_in any_case fold is_space
names = refl

-- A second pass may find more: behind a masked address there is a word boundary that was not there
-- before.
once : scrub_string (codes "::1token=abc") ≡ codes "[REDACTED_IP]token=abc"
unfolding scrub_string redact_tokens redact_emails redact_ips redact_names apply alts literal is_in
    any_case fold alnum_or is_space is_alnum is_digit is_hex times between
once = refl

twice : scrub_string (codes "[REDACTED_IP]token=abc") ≡ codes "[REDACTED_IP]token=[REDACTED_TOKEN]"
unfolding scrub_string redact_tokens redact_emails redact_ips redact_names apply alts literal is_in
    any_case fold alnum_or is_space is_alnum is_digit is_hex times between
twice = refl

scrub-IsFree_example :
    (¬ Accepts email (codes "[REDACTED_EMAIL]"))
    × ((¬ Accepts jwt (codes "[REDACTED_EMAIL]")) × (¬ Accepts ipv6 (codes "[REDACTED_EMAIL]")))
unfolding scrub scrub_string redact_tokens redact_emails redact_ips redact_names apply alts literal
    is_in any_case fold alnum_or is_space is_alnum is_digit is_hex times between
scrub-IsFree_example =
    scrub-IsFree (codes "to jo@x.org, me") (codes "to ") (codes "[REDACTED_EMAIL]") (codes ", me")
      refl

redact_emails-unchanged_iff_example :
    (redact_emails (codes "@jo, hi") ≡ codes "@jo, hi") ↔ Clean email (codes "@jo, hi")
redact_emails-unchanged_iff_example = redact_emails-unchanged_iff (codes "@jo, hi")
