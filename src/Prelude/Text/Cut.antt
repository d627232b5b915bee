-- ===== src/Prelude/Text/Cut.antt =====
-- strings.Cut at a separator of one character, and strings.EqualFold for ASCII text.
use libre_mail_bug_report_in.Prelude.Tests.{leb, ◌==◌, if◌then◌else◌}
use libre_mail_bug_report_in.Prelude.Text.{Text, text_eq}
use Prim.Native.Nat.{ℕ, ◌+◌}
use mathlib.Core.Bool.{Bool, ◌&&◌}
use mathlib.Core.List.{[], ◌∷◌, ◌++◌, map}
use mathlib.Core.Option.{Option, none, some}
use mathlib.Core.Path.{◌≡◌, refl}
use native.Mathlib.Omega.{arith}

-- what stands before the separator grows by one character
unfoldable pub cons_before : ℕ → Option (Text × Text) → Option (Text × Text)
cons_before c none = none
cons_before c (some (before, after)) = some (c ∷ before, after)

-- strings.Cut(s, sep): the parts around the first separator, or none if there is none
unfoldable pub cut : ℕ → Text → Option (Text × Text)
unfolding cons_before
cut sep [] = none
cut sep (c ∷ s) = let rest = cut sep s in if c == sep then some ([], s) else cons_before c rest

unfoldable pub to_lower : ℕ → ℕ
to_lower c = if leb b'A' c && leb c b'Z' then c + 32 else c

-- strings.EqualFold against a text that is ASCII
unfoldable pub equal_fold : Text → Text → Bool
unfolding to_lower
equal_fold s t = text_eq (map to_lower s) (map to_lower t)

cons_before_sound :
    (c sep : ℕ) (s before after : Text) (o : Option (Text × Text))
    → ((b a : Text) → o ≡ some (b, a) → s ≡ b ++ sep ∷ a)
    → cons_before c o ≡ some (before, after)
    → c ∷ s ≡ before ++ sep ∷ after
unfolding cons_before
cons_before_sound c sep s before after none h e = cc
cons_before_sound c sep s before after (some (b, a)) h e = let k = h b a refl in cc

-- The parts of a cut text, with the separator between them, are the text.
pub cut_sound :
    (sep : ℕ) (s before after : Text) → cut sep s ≡ some (before, after) → s ≡ before ++ sep ∷ after
unfolding cut
cut_sound sep [] before after h = cc
cut_sound sep (c ∷ s) before after h =
    ground (arith, cons_before_sound c sep s before after (cut sep s) (λ b a. cut_sound sep s b a))
