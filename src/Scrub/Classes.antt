-- ===== src/Scrub/Classes.antt =====
-- The rune classes, literals and repetitions that the expressions of internal/scrub/scrub.go share,
-- in the syntax of Go's `regexp`. A byte that is no part of a rune counts as a rune of its own that
-- no class lists.
use libre_mail_bug_report_in.Prelude.{
  ℕ, none, some, List, [], ◌∷◌, Bool, false, ◌&&◌, ◌||◌, leb, ◌==◌, ◌+◌, if◌then◌else◌,
}
use libre_mail_bug_report_in.Prelude.Text.{Text}
use libre_mail_bug_report_in.Scrub.Regex.{Regex, nothing, one, many, seq, alt}

infixr 70 ◌then◌
-- one expression behind another
abbrev pub ◌then◌ : Regex → Regex → Regex
a then b = seq a b

-- r?
abbrev pub opt : Regex → Regex
opt r = alt r nothing

-- c*, c+, c{n,} of a class
abbrev pub star : (ℕ → Bool) → Regex
star f = many f 0 none

abbrev pub plus : (ℕ → Bool) → Regex
plus f = many f 1 none

abbrev pub at_least : ℕ → (ℕ → Bool) → Regex
at_least n f = many f n none

abbrev pub exactly : ℕ → (ℕ → Bool) → Regex
exactly n f = many f n (some n)

unfoldable pub is_in : Text → ℕ → Bool
is_in [] c = false
is_in (x ∷ s) c = c == x || is_in s c

-- [A-Z], [a-z], [A-Za-z], [0-9], [A-Za-z0-9]
unfoldable pub is_upper : ℕ → Bool
is_upper c = leb b'A' c && leb c b'Z'

unfoldable pub is_lower : ℕ → Bool
is_lower c = leb b'a' c && leb c b'z'

unfoldable pub is_digit : ℕ → Bool
is_digit c = leb b'0' c && leb c b'9'

unfoldable pub is_letter : ℕ → Bool
unfolding is_upper is_lower
is_letter c = is_upper c || is_lower c

unfoldable pub is_alnum : ℕ → Bool
unfolding is_letter is_digit
is_alnum c = is_letter c || is_digit c

-- [A-Za-z0-9…], with further runes
unfoldable pub alnum_or : Text → ℕ → Bool
unfolding is_alnum is_in
alnum_or others c = is_alnum c || is_in others c

-- \s
unfoldable pub is_space : ℕ → Bool
is_space c = c == b' ' || ((leb 9 c && leb c 10) || (leb 12 c && leb c 13))

-- The simple case folding of (?i), down to lower-case ASCII; U+017F folds to s and U+212A to k.
unfoldable pub fold_case : ℕ → ℕ
unfolding is_upper
fold_case c =
    if is_upper c then c + 32 else if c == 383 then b's' else if c == 8490 then b'k' else c

-- a class of runes under (?i)
unfoldable pub fold : (ℕ → Bool) → ℕ → Bool
unfolding fold_case
fold f c = f c || f (fold_case c)

-- a literal, and a lower-case one under (?i)
unfoldable pub literal : Text → Regex
literal [] = nothing
literal (x ∷ s) = seq (one (λ c. c == x)) (literal s)

unfoldable pub any_case : Text → Regex
unfolding fold
any_case [] = nothing
any_case (x ∷ s) = seq (one (fold (λ c. c == x))) (any_case s)

-- a|b|…
unfoldable pub alts : List Regex → Regex
alts [] = one (λ c. false)
alts (r ∷ []) = r
alts (r ∷ r' ∷ rs) = alt r (alts (r' ∷ rs))
