-- ===== src/Scrub/Rules/Addresses.antt =====
-- ipRedactors and ipv6Pattern
use libre_mail_bug_report_in.Prelude.{ℕ, List, [], ◌∷◌, Bool, ◌||◌, ◌&&◌, leb}
use libre_mail_bug_report_in.Prelude.Text.{Text, codes}
use libre_mail_bug_report_in.Scrub.Regex.{Regex, boundary, one, alt, times, between}
use libre_mail_bug_report_in.Scrub.Replace.{Rule, whole}
use libre_mail_bug_report_in.Scrub.Classes.{◌then◌, opt, is_in, is_digit, literal, alts}

abbrev pub placeholder_ip : Text
placeholder_ip = codes "[REDACTED_IP]"

unfoldable pub is_hex : ℕ → Bool
unfolding is_digit
is_hex c = is_digit c || ((leb b'A' c && leb c b'F') || (leb b'a' c && leb c b'f'))

-- 25[0-5]|2[0-4][0-9]|1[0-9][0-9]|[1-9]?[0-9]
abbrev pub octet : Regex
octet = alts (
    literal (codes "25") then one (λ c. leb b'0' c && leb c b'5')
    ∷ literal (codes "2") then (one (λ c. leb b'0' c && leb c b'4') then one is_digit)
    ∷ literal (codes "1") then (one is_digit then one is_digit)
    ∷ opt (one (λ c. leb b'1' c && leb c b'9')) then one is_digit
    ∷ [])

-- (?:(?:…)\.){3}(?:…)
abbrev pub dotted : Regex
dotted = times 3 (octet then literal (codes ".")) then octet

-- [0-9A-Fa-f]{1,4}, the same with a colon behind it, and with one before it
abbrev pub hextet : Regex
hextet = between 1 4 (one is_hex)

abbrev pub hextet_colon : Regex
hextet_colon = hextet then literal (codes ":")

abbrev pub colon_hextet : Regex
colon_hextet = literal (codes ":") then hextet

abbrev pub ipv6 : Regex
ipv6 = alts (
    times 7 hextet_colon then hextet
    ∷ between 1 4 hextet_colon then (literal (codes ":") then dotted)
    ∷ literal (codes "::")
      then (opt (
            times 4 (one (is_in (codes "Ff")))
            then (opt (literal (codes ":") then between 1 4 (literal (codes "0")))
                then literal (codes ":")))
          then dotted)
    ∷ between 1 2 hextet_colon then between 1 5 colon_hextet
    ∷ between 1 3 hextet_colon then between 1 4 colon_hextet
    ∷ between 1 4 hextet_colon then between 1 3 colon_hextet
    ∷ between 1 5 hextet_colon then between 1 2 colon_hextet
    ∷ between 1 6 hextet_colon then colon_hextet
    ∷ hextet_colon then between 1 6 colon_hextet
    ∷ between 1 7 hextet_colon then literal (codes ":")
    ∷ literal (codes ":") then alt (between 1 7 colon_hextet) (literal (codes ":"))
    ∷ [])

abbrev pub ipv4 : Regex
ipv4 = boundary then (dotted then boundary)

abbrev pub ip_redactors : List Rule
ip_redactors = whole ipv6 placeholder_ip ∷ whole ipv4 placeholder_ip ∷ []
