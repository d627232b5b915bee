-- ===== src/Telemetry/Otlp/Decimal.antt =====
-- strconv.FormatInt(x, 10), with twenty digits at most, which is enough for 64 bits; and reading a
-- decimal number and a hexadecimal text back.
use libre_mail_bug_report_in.Prelude.{
  ℕ, zero, suc, ◌+◌, ◌-◌, ◌*◌, ◌/◌, ◌%◌, ◌<◌, ◌≡◌, inl, inr, refl, ap, ◌∙◌, [], ◌∷◌, ltb,
  if◌then◌else◌, arith, All, Bool-cases,
}
use libre_mail_bug_report_in.Prelude.Text.{Text}
use libre_mail_bug_report_in.Storage.Sink.{hex, hex_digit}
use libre_mail_bug_report_in.Telemetry.Data.{ℤ, pos, negsuc}

unfoldable pub digits : ℕ → ℕ → Text → Text
digits zero n s = s
digits (suc fuel) n s =
    let rest = digits fuel (n / 10) ((b'0' + n % 10) ∷ s) in
    if ltb n 10 then (b'0' + n) ∷ s else rest

unfoldable pub format_unsigned : ℕ → Text
unfolding digits
format_unsigned n = digits 20 n []

unfoldable pub format_int : ℤ → Text
unfolding format_unsigned
format_int (pos n) = format_unsigned n
format_int (negsuc n) = b'-' ∷ format_unsigned (n + 1)

unfoldable pub read_digits : ℕ → Text → ℕ
read_digits n [] = n
read_digits n (c ∷ s) = read_digits (n * 10 + (c - b'0')) s

-- 10 to a power
abbrev pub ten_to : ℕ → ℕ
ten_to zero = 1
ten_to (suc n) = 10 * ten_to n

read_digits-digits :
    (fuel n : ℕ) (s : Text) → n < ten_to fuel → read_digits 0 (digits fuel n s) ≡ read_digits n s
unfolding digits read_digits
read_digits-digits zero n s h = let e : n ≡ 0 = omega arith in rw e refl
read_digits-digits (suc fuel) n s h = elim (Bool-cases (ltb n 10)) [
  | inl e ↦ rw e (read_digits_one n s)
  | inr e ↦ rw e (
      read_digits-digits fuel (n / 10) ((b'0' + n % 10) ∷ s) (omega arith)
      ∙ ap (λ m. read_digits m s) (last n))
]
  where
    read_digits_one : (m : ℕ) (t : Text) → read_digits 0 ((b'0' + m) ∷ t) ≡ read_digits m t
    read_digits_one m t = ap (λ k. read_digits k t) (omega arith)

    last : (m : ℕ) → m / 10 * 10 + (b'0' + m % 10 - b'0') ≡ m
    last m = omega arith

-- Twenty digits are enough for 64 bits.
pub read_digits-format_unsigned :
    (n : ℕ) → n < 18446744073709551616 → read_digits 0 (format_unsigned n) ≡ n
unfolding format_unsigned read_digits
read_digits-format_unsigned n h = read_digits-digits 20 n [] (omega arith)

-- the inverse of the hexadecimal text
unfoldable pub hex_value : ℕ → ℕ
hex_value c = if ltb c 58 then c - b'0' else c - 87

unfoldable pub unhex : Text → Text
unfolding hex_value
unhex [] = []
unhex (a ∷ []) = []
unhex (a ∷ b ∷ s) = (hex_value a * 16 + hex_value b) ∷ unhex s

hex_value-hex_digit : (n : ℕ) → n < 16 → hex_value (hex_digit n) ≡ n
unfolding hex_value hex_digit
hex_value-hex_digit n h = ground arith

abbrev pub IsByte : ℕ → Type 0
IsByte b = b < 256

pub unhex-hex : (bytes : Text) → All IsByte bytes → unhex (hex bytes) ≡ bytes
unfolding unhex hex
unhex-hex [] h = refl
unhex-hex (b ∷ bytes) (hb, h) =
    let high = hex_value-hex_digit (b / 16 % 16) (omega arith) in
    let low = hex_value-hex_digit (b % 16) (omega arith) in
    rw (high, low, unhex-hex bytes h) (ap (λ x. x ∷ bytes) (omega arith))
