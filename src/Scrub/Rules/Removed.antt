-- ===== src/Scrub/Rules/Removed.antt =====
-- What is certain to be gone from a scrubbed payload.
use libre_mail_bug_report_in.Prelude.{◌≡◌, ◌↔◌, refl, sym, ◌∙◌, [], ◌∷◌, ◌++◌}
use libre_mail_bug_report_in.Prelude.Text.{Text}
use libre_mail_bug_report_in.Scrub.Regex.{times, between}
use libre_mail_bug_report_in.Scrub.Regex.Sound.{Accepts}
use libre_mail_bug_report_in.Scrub.Regex.Complete.{is_literal}
use libre_mail_bug_report_in.Scrub.Regex.Clean.{Clean, Clean-stretch}
use libre_mail_bug_report_in.Scrub.Replace.{whole, replace_from, replace_all, apply}
use libre_mail_bug_report_in.Scrub.Replace.Change.{nullable}
use libre_mail_bug_report_in.Scrub.Replace.Free.{
  is_shield, are_shields, is_final, apply-Clean, apply-removes, replace_all-unchanged,
}
use libre_mail_bug_report_in.Scrub.Classes.{literal, alnum_or, alts, is_in}
use libre_mail_bug_report_in.Scrub.Rules.{
  redact_emails, redact_tokens, redact_ips, redact_names, scrub_string, scrub,
}
use libre_mail_bug_report_in.Scrub.Rules.Emails.{email, email_redactors, placeholder_email}
use libre_mail_bug_report_in.Scrub.Rules.Addresses.{
  is_hex, ipv6, ipv4, ip_redactors, placeholder_ip,
}
use libre_mail_bug_report_in.Scrub.Rules.Tokens.{
  authorization, bearer, jwt, late_token_redactors, placeholder_token,
}
use libre_mail_bug_report_in.Scrub.Rules.Names.{name_redactors}

emails_removed : (s : Text) → Clean email (redact_emails s)
unfolding redact_emails is_final is_literal literal nullable is_shield alnum_or are_shields
emails_removed s = apply-removes email placeholder_email [] s refl

emails_kept_out : (s : Text) → Clean email s → Clean email (redact_names (redact_ips s))
unfolding redact_ips redact_names is_literal literal nullable is_shield alnum_or are_shields alts
    times between
emails_kept_out s clean =
    apply-Clean email name_redactors (apply ip_redactors s) refl refl
      (apply-Clean email ip_redactors s refl refl clean)

jwts_removed : (s : Text) → Clean jwt (redact_tokens s)
unfolding redact_tokens apply is_final is_literal literal nullable is_shield alnum_or are_shields
    alts
jwts_removed s =
    apply-removes jwt placeholder_token late_token_redactors
      (replace_all (whole bearer placeholder_token) (replace_all authorization s)) refl

jwts_kept_out : (s : Text) → Clean jwt s → Clean jwt (redact_names (redact_ips (redact_emails s)))
unfolding redact_emails redact_ips redact_names is_literal literal nullable is_shield alnum_or
    are_shields alts times between
jwts_kept_out s clean =
    apply-Clean jwt name_redactors (apply ip_redactors (apply email_redactors s)) refl refl (
      apply-Clean jwt ip_redactors (apply email_redactors s) refl refl
        (apply-Clean jwt email_redactors s refl refl clean))

ipv6_removed : (s : Text) → Clean ipv6 (redact_names (redact_ips s))
unfolding redact_ips redact_names is_final is_literal literal nullable is_shield are_shields alts
    times between is_hex is_in
ipv6_removed s =
    apply-Clean ipv6 name_redactors (apply ip_redactors s) refl refl
      (apply-removes ipv6 placeholder_ip (whole ipv4 placeholder_ip ∷ []) s refl)

scrub_lem : (payload : Text) → scrub payload ≡ scrub_string payload
unfolding scrub scrub_string redact_tokens redact_emails redact_ips redact_names apply replace_all
    replace_from
scrub_lem [] = refl
scrub_lem (c ∷ payload) = refl

-- Whatever the payload is, no stretch of the scrubbed payload is of the form of the address rule, the
-- JWT rule or the IPv6 rule: each of these rules leaves none, and no rule behind it makes one.
pub scrub-IsFree :
    (payload before c rest : Text)
    → scrub payload ≡ before ++ (c ++ rest)
    → (¬ Accepts email c) × ((¬ Accepts jwt c) × (¬ Accepts ipv6 c))
unfolding scrub_string
scrub-IsFree payload before c rest e =
    let tokens = redact_tokens payload in
    let emails = redact_emails tokens in
    let e' = sym (scrub_lem payload) ∙ e in
    (
      Clean-stretch email _ before c rest (emails_kept_out emails (emails_removed tokens)) e',
      (
        Clean-stretch jwt _ before c rest (jwts_kept_out tokens (jwts_removed payload)) e',
        Clean-stretch ipv6 _ before c rest (ipv6_removed emails) e',
      ),
    )

-- The address pass changes a text exactly if some stretch of it is of the form of an address.
pub redact_emails-unchanged_iff : (s : Text) → (redact_emails s ≡ s) ↔ Clean email s
unfolding redact_emails apply
redact_emails-unchanged_iff s =
    (λ e. rw e at (emails_removed s), replace_all-unchanged email placeholder_email s)

-- The address pass is idempotent.
pub redact_emails-redact_emails : (s : Text) → redact_emails (redact_emails s) ≡ redact_emails s
unfolding redact_emails apply
redact_emails-redact_emails s =
    replace_all-unchanged email placeholder_email (redact_emails s) (emails_removed s)
