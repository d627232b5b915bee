-- ===== src/Publish/Format/Cells.antt =====
-- What the metadata cells can hold.
use libre_mail_bug_report_in.Prelude.{
  ℕ, ◌≡◌, ◌≢◌, ◌≤◌, refl, Option, none, some, [], ◌∷◌, ◌&&◌, arith, All, Bool-cases, inl, inr,
}
use libre_mail_bug_report_in.Prelude.Text.{Text}
use libre_mail_bug_report_in.Prelude.Text.Spaces.{
  trim_space, trim_left, trim_right, is_space, is_empty,
}
use libre_mail_bug_report_in.Publish.Format.{line_rune, map_lines, one_line, replace, sanitize_code}

module _ (P : ℕ → Type 0) where
  All-trim_left : (s : Text) → All P s → All P (trim_left s)
  unfolding trim_left
  All-trim_left [] h = tt
  All-trim_left (c ∷ s) h = elim (Bool-cases (is_space c)) [
    | inl e ↦ rw e (All-trim_left s h.1)
    | inr e ↦ rw e h
  ]

  All-trim_right : (s : Text) → All P s → All P (trim_right s)
  unfolding trim_right
  All-trim_right [] h = tt
  All-trim_right (c ∷ s) h = elim (Bool-cases (is_space c && is_empty (trim_right s))) [
    | inl e ↦ rw e tt
    | inr e ↦ rw e (h.0, All-trim_right s h.1)
  ]

  All-trim_space : (s : Text) → All P s → All P (trim_space s)
  unfolding trim_space
  All-trim_space s h = All-trim_right (trim_left s) (All-trim_left s h)

abbrev Printable : ℕ → Type 0
Printable c = 0x20 ≤ c

map_lines-Printable : (s : Text) → All Printable (map_lines s)
unfolding map_lines line_rune
map_lines-Printable [] = tt
map_lines-Printable (c ∷ s) = kept (map_lines-Printable s) (line_rune c) refl
  where
    kept :
        All Printable (map_lines s)
        → (o : Option ℕ) → line_rune c ≡ o
        → All Printable (elim o [ none ↦ map_lines s | some r ↦ r ∷ map_lines s ])
    kept rest none e = rest
    kept rest (some r) e = (ground arith, rest)

-- A rune that neither ends the line, nor closes an inline code span, nor splits a table cell.
abbrev pub IsCellRune : ℕ → Type 0
IsCellRune c = (0x20 ≤ c) × (c ≢ b'`') × (c ≢ b'|')

sanitize_code-IsCellRune : (s : Text) → All Printable s → All IsCellRune (sanitize_code s)
unfolding sanitize_code replace
sanitize_code-IsCellRune [] h = tt
sanitize_code-IsCellRune (c ∷ s) h = ground (arith, sanitize_code-IsCellRune s h.1)

-- Whatever a metadata value holds, its table cell has no control character, backtick or pipe, so it
-- stays in its code span, its cell and its line.
pub sanitize_code-one_line : (s : Text) → All IsCellRune (sanitize_code (one_line s))
unfolding one_line
sanitize_code-one_line s =
    sanitize_code-IsCellRune (trim_space (map_lines s))
      (All-trim_space Printable (map_lines s) (map_lines-Printable s))
