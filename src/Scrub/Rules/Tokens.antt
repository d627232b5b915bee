-- ===== src/Scrub/Rules/Tokens.antt =====
-- tokenRedactors. A \b before a captured group stands in the group here: it takes no text.
use libre_mail_bug_report_in.Prelude.{List, [], ◌∷◌, not, ◌||◌}
use libre_mail_bug_report_in.Prelude.Text.{Text, codes}
use libre_mail_bug_report_in.Scrub.Regex.{Regex, boundary, one, alt}
use libre_mail_bug_report_in.Scrub.Replace.{Rule, whole}
use libre_mail_bug_report_in.Scrub.Classes.{
  ◌then◌, opt, star, plus, at_least, exactly, is_in, is_upper, is_digit, is_alnum, alnum_or,
  is_space, fold, literal, any_case, alts,
}

abbrev pub placeholder_token : Text
placeholder_token = codes "[REDACTED_TOKEN]"

abbrev pub placeholder_auth : Text
placeholder_auth = codes "[REDACTED_AUTH]"

-- words under (?i), with a rune of a class in the gap of a two-word key
abbrev pub words : List Text → Regex
words texts = alts (each texts)
  where
    each : List Text → List Regex
    each [] = []
    each (t ∷ ts) = any_case t ∷ each ts

abbrev pub two_words : Text → Text → Regex
two_words a b = any_case a then (opt (one (is_in (codes "_-"))) then any_case b)

abbrev pub plural : Regex → Regex
plural r = r then opt (any_case (codes "s"))

-- "?\s*[:=]\s*"?
abbrev pub quote : Regex
quote = literal (codes "\"")

abbrev pub assignment : Regex
assignment = star is_space then (one (is_in (codes ":=")) then star is_space)

abbrev pub authorization : Rule
authorization = record {
  group =
      opt (any_case (codes "proxy-"))
      then (any_case (codes "authorization")
          then (star is_space then (opt quote then (assignment then opt quote))));
  tail =
      opt (
        words
          (codes "bearer" ∷ codes "basic" ∷ codes "digest" ∷ codes "token" ∷ codes "negotiate" ∷ [])
        then plus is_space)
      then plus (fold (alnum_or (codes "._~+/=-")));
  mask = placeholder_auth;
}

abbrev pub bearer : Regex
bearer =
    boundary
    then (any_case (codes "bearer")
        then (plus is_space then at_least 16 (fold (alnum_or (codes "._~+/=-")))))

abbrev pub segment : Regex
segment = at_least 5 (alnum_or (codes "_-"))

abbrev pub jwt : Regex
jwt =
    literal (codes "eyJ")
    then (segment then (literal (codes ".") then (segment then (literal (codes ".") then segment))))

abbrev pub github_token : Regex
github_token =
    boundary
    then (literal (codes "gh")
        then (one (is_in (codes "pousr")) then (literal (codes "_") then at_least 20 is_alnum)))

abbrev pub github_pat : Regex
github_pat = boundary then (literal (codes "github_pat_") then at_least 20 (alnum_or (codes "_")))

abbrev pub gitlab_pat : Regex
gitlab_pat = boundary then (literal (codes "glpat-") then at_least 16 (alnum_or (codes "_-")))

abbrev pub slack_token : Regex
slack_token =
    boundary
    then (literal (codes "xox")
        then (one (is_in (codes "baprs"))
            then (literal (codes "-") then at_least 10 (alnum_or (codes "-")))))

abbrev pub stripe_key : Regex
stripe_key =
    boundary
    then (alts (literal (codes "sk") ∷ literal (codes "pk") ∷ literal (codes "rk") ∷ [])
        then (literal (codes "_")
            then (alt (literal (codes "live")) (literal (codes "test"))
                then (literal (codes "_") then at_least 10 is_alnum))))

abbrev pub openai_key : Regex
openai_key =
    boundary
    then (literal (codes "sk-") then (opt (literal (codes "proj-")) then at_least 20 is_alnum))

abbrev pub google_key : Regex
google_key = boundary then (literal (codes "AIza") then exactly 35 (alnum_or (codes "_-")))

abbrev pub aws_key : Regex
aws_key =
    boundary
    then (alts (
          literal (codes "AKIA")
          ∷ literal (codes "ASIA")
          ∷ literal (codes "AGPA")
          ∷ literal (codes "AIDA")
          ∷ literal (codes "AROA")
          ∷ literal (codes "AIPA")
          ∷ literal (codes "ANPA")
          ∷ literal (codes "ANVA")
          ∷ literal (codes "APKA")
          ∷ [])
        then exactly 16 (λ c. is_digit c || is_upper c))

abbrev pub secret_key : Regex
secret_key = alts (
    plural (any_case (codes "password"))
    ∷ any_case (codes "passwd")
    ∷ any_case (codes "pwd")
    ∷ two_words (codes "secret") (codes "key")
    ∷ two_words (codes "client") (codes "secret")
    ∷ plural (two_words (codes "api") (codes "key"))
    ∷ plural (any_case (codes "apikey"))
    ∷ plural (two_words (codes "access") (codes "token"))
    ∷ plural (two_words (codes "refresh") (codes "token"))
    ∷ plural (two_words (codes "auth") (codes "token"))
    ∷ plural (two_words (codes "private") (codes "key"))
    ∷ plural (any_case (codes "secret"))
    ∷ plural (any_case (codes "token"))
    ∷ [])

abbrev pub assigned_secret : Rule
assigned_secret = record {
  group = boundary then (secret_key then (opt quote then (assignment then opt quote)));
  tail = plus (λ c. not (is_in (codes "\",}") c || is_space c));
  mask = placeholder_token;
}

-- The rules before and behind the one for JWTs, which has no \b.
abbrev pub late_token_redactors : List Rule
late_token_redactors =
    whole github_token placeholder_token
    ∷ whole github_pat placeholder_token
    ∷ whole gitlab_pat placeholder_token
    ∷ whole slack_token placeholder_token
    ∷ whole stripe_key placeholder_token
    ∷ whole openai_key placeholder_token
    ∷ whole google_key placeholder_token
    ∷ whole aws_key placeholder_token
    ∷ assigned_secret
    ∷ []

abbrev pub token_redactors : List Rule
token_redactors =
    authorization
    ∷ whole bearer placeholder_token
    ∷ whole jwt placeholder_token
    ∷ late_token_redactors
