-- ===== src/Scrub/Rules/Names.antt =====
-- nameRedactors. The \b before the captured group stands in the group here: it takes no text.
use libre_mail_bug_report_in.Prelude.{some, List, [], ◌∷◌, ◌++◌, not, ◌||◌, ◌==◌}
use libre_mail_bug_report_in.Prelude.Text.{Text, codes}
use libre_mail_bug_report_in.Scrub.Regex.{Regex, boundary, one, many}
use libre_mail_bug_report_in.Scrub.Replace.{Rule}
use libre_mail_bug_report_in.Scrub.Classes.{◌then◌, opt, star, is_in, is_space, any_case, alts}
use libre_mail_bug_report_in.Scrub.Rules.Tokens.{quote, assignment}

abbrev pub placeholder_name : Text
placeholder_name = codes "[REDACTED_NAME]"

-- first[_ ]?name
abbrev pub name_of : Text → Regex
name_of kind = any_case kind then (opt (one (is_in (codes "_ "))) then any_case (codes "name"))

abbrev pub name_key : Regex
name_key = alts (
    name_of (codes "first")
    ∷ name_of (codes "last")
    ∷ name_of (codes "full")
    ∷ name_of (codes "display")
    ∷ name_of (codes "user")
    ∷ name_of (codes "nick")
    ∷ name_of (codes "sur")
    ∷ any_case (codes "username")
    ∷ any_case (codes "name")
    ∷ any_case (codes "user")
    ∷ [])

-- The mask closes the quote again.
abbrev pub quoted_name : Rule
quoted_name = record {
  group = boundary then (name_key then (opt quote then (assignment then quote)));
  tail =
      one (λ c. not (c == b'"' || (c == 10 || c == b'[')))
      then (many (λ c. not (c == b'"' || c == 10)) 0 (some 119) then quote);
  mask = placeholder_name ++ codes "\"";
}

abbrev pub unquoted_name : Rule
unquoted_name = record {
  group = boundary then (name_key then assignment);
  tail =
      one (λ c. not (is_in (codes "\"[',}{") c || is_space c))
      then star (λ c. not (is_in (codes ",}") c || (c == 10 || c == 13)));
  mask = placeholder_name;
}

abbrev pub name_redactors : List Rule
name_redactors = quoted_name ∷ unquoted_name ∷ []
