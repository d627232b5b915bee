-- ===== src/Scrub/Rules/Emails.antt =====
-- emailRedactors
use libre_mail_bug_report_in.Prelude.{List, [], ◌∷◌}
use libre_mail_bug_report_in.Prelude.Text.{Text, codes}
use libre_mail_bug_report_in.Scrub.Regex.{Regex}
use libre_mail_bug_report_in.Scrub.Replace.{Rule, whole}
use libre_mail_bug_report_in.Scrub.Classes.{◌then◌, plus, at_least, is_letter, alnum_or, literal}

abbrev pub placeholder_email : Text
placeholder_email = codes "[REDACTED_EMAIL]"

-- [A-Za-z0-9._%+\-]+@[A-Za-z0-9.\-]+\.[A-Za-z]{2,}
abbrev pub email : Regex
email =
    plus (alnum_or (codes "._%+-"))
    then (literal (codes "@")
        then (plus (alnum_or (codes ".-")) then (literal (codes ".") then at_least 2 is_letter)))

abbrev pub email_redactors : List Rule
email_redactors = whole email placeholder_email ∷ []
