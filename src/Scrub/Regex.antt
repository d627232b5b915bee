-- ===== src/Scrub/Regex.antt =====
-- The regular expressions that the rules of internal/scrub/scrub.go are written in, and the search of
-- Go's `regexp` for the preferred match at one place: leftmost-first, as Perl's, with greedy
-- repetition. The text before the place is seen by its last rune only, for \b.
pub mod Sound
pub mod Complete
pub mod Matches
pub mod Clean
use libre_mail_bug_report_in.Prelude.{
  ℕ, zero, suc, ◌-◌, ◌+◌, Option, none, some, List, [], ◌∷◌, Bool, true, false, not, ◌&&◌, ◌||◌,
  ltb, leb, ◌==◌, if◌then◌else◌,
}
use libre_mail_bug_report_in.Prelude.Text.{Text}

pub data Regex : Type 0 where
  nothing : Regex
  -- \b
  boundary : Regex
  -- one rune of a class
  one : (ℕ → Bool) → Regex
  -- a class repeated, greedily: at least so often, and at most so often if there is a bound
  many : (ℕ → Bool) → ℕ → Option ℕ → Regex
  seq alt : Regex → Regex → Regex

-- r{n}
unfoldable pub times : ℕ → Regex → Regex
times zero r = nothing
times (suc n) r = seq r (times n r)

-- r{0,n}: r(r(r)?)?, as `regexp` simplifies it
unfoldable pub up_to : ℕ → Regex → Regex
up_to zero r = nothing
up_to (suc n) r = alt (seq r (up_to n r)) nothing

-- r{lo,hi}
unfoldable pub between : ℕ → ℕ → Regex → Regex
unfolding times up_to
between lo hi r = seq (times lo r) (up_to (hi - lo) r)

-- [0-9A-Za-z_]
unfoldable pub is_word : ℕ → Bool
is_word c =
    (leb b'0' c && leb c b'9')
    || ((leb b'A' c && leb c b'Z') || ((leb b'a' c && leb c b'z') || c == b'_'))

unfoldable pub is_word_at : Option ℕ → Bool
unfolding is_word
is_word_at none = false
is_word_at (some c) = is_word c

abbrev pub head : Text → Option ℕ
head [] = none
head (c ∷ s) = some c

unfoldable pub is_boundary : Option ℕ → Text → Bool
unfolding is_word_at
is_boundary before s = if is_word_at before then not (is_word_at (head s)) else is_word_at (head s)

-- one less of a bound, and whether it leaves room
abbrev pub less : Option ℕ → Option ℕ
less none = none
less (some n) = some (n - 1)

abbrev pub has_room : Option ℕ → Bool
has_room none = true
has_room (some n) = ltb 0 n

-- The search goes on behind a match by a continuation, which sees the rune before it and the rest.
abbrev pub Next : Type 0 → Type 0
Next A = Option ℕ → Text → Option A

module _ {A : Type 0} where
  abbrev pub or_else : Option A → Option A → Option A
  or_else (some a) other = some a
  or_else none other = other

  abbrev pub stop : ℕ → Option ℕ → Text → Next A → Option A
  stop lo before s k = if lo == 0 then k before s else none

  unfoldable pub run_many : (ℕ → Bool) → ℕ → Option ℕ → Option ℕ → Text → Next A → Option A
  run_many f lo hi before [] k = stop lo before [] k
  run_many f lo hi before (c ∷ s) k = elim (f c && has_room hi) [
    | true ↦ or_else (run_many f (lo - 1) (less hi) (some c) s k) (stop lo before (c ∷ s) k)
    | false ↦ stop lo before (c ∷ s) k
  ]

  unfoldable pub run_one : (ℕ → Bool) → Text → Next A → Option A
  run_one f [] k = none
  run_one f (c ∷ s) k = if f c then k (some c) s else none

  unfoldable pub run : Regex → Option ℕ → Text → Next A → Option A
  unfolding run_many run_one is_boundary
  run nothing before s k = k before s
  run boundary before s k = if is_boundary before s then k before s else none
  run (one f) before s k = run_one f s k
  run (many f lo hi) before s k = run_many f lo hi before s k
  run (seq a b) before s k = run a before s (λ before' s'. run b before' s' k)
  run (alt a b) before s k = or_else (run a before s k) (run b before s k)
