-- ===== src/Publish/Format/Limits.antt =====
-- How long a title and a body are, and when the body is whole.
use libre_mail_bug_report_in.Prelude.{
  ℕ, zero, suc, ◌+◌, ◌-◌, ◌≡◌, ◌≤◌, refl, ap, ◌∙◌, Option, none, some, [], ◌∷◌, ◌++◌, ltb, leb,
  length, take, arith, Bool-cases, inl, inr, length-take, length-append,
}
use libre_mail_bug_report_in.Prelude.Text.{Text}
use libre_mail_bug_report_in.Ingest.Report.{Bytes, Report}
use libre_mail_bug_report_in.Publish.Format.{
  full_title, truncation_marker, runes_before, truncate_runes, build_title, build_body, footer,
  sections, overhead, fitted, assembled, fence_for, format_issue,
}

take_all : (n : ℕ) (s : Text) → length s ≤ n → take n s ≡ s
take_all zero [] h = refl
take_all zero (c ∷ s) h = absurd (omega arith)
take_all (suc n) [] h = refl
take_all (suc n) (c ∷ s) h = ap (◌∷◌ c) (take_all n s (omega arith))

runes_before-take : (k m n : ℕ) (s : Text) → m ≡ n + k → runes_before m n s ≡ take k s
unfolding runes_before
runes_before-take zero m n [] h = refl
runes_before-take (suc k) m n [] h = refl
runes_before-take zero m n (c ∷ s) h = ground arith
runes_before-take (suc k) m n (c ∷ s) h =
    ground (arith, runes_before-take k m (n + 1) s (omega arith))

-- Truncating to n runes leaves the first n runes.
pub truncate_runes-take : (s : Text) (n : ℕ) → truncate_runes s n ≡ take n s
unfolding truncate_runes
truncate_runes-take s zero = refl
truncate_runes-take s (suc n) =
    let all = take_all (suc n) s in
    let cut = runes_before-take (suc n) (suc n) 0 s (omega arith) in
    elim (Bool-cases (leb (length s) (suc n))) [
      | inl e ↦ let fits : length s ≤ suc n = ground arith in ground (arith, all fits)
      | inr e ↦ ground arith
    ]

length-truncate_runes : (s : Text) (n : ℕ) → length (truncate_runes s n) ≤ n
length-truncate_runes s n = rw (truncate_runes-take s n) (omega (arith, length-take n s))

build_title-length : (parsed : Option Report) → length (build_title parsed) ≤ 200
unfolding build_title
build_title-length none = omega arith
build_title-length (some rep) = length-truncate_runes (full_title rep) 200

build_body-length :
    (id : Text) (parsed : Option Report) (verbatim : Text)
    → length (build_body id parsed verbatim) ≤ 65536
unfolding build_body
build_body-length id parsed verbatim =
    let head = (sections id parsed verbatim).0 in
    let text = (sections id parsed verbatim).1 in
    let fence = fence_for text in
    length-truncate_runes (assembled head fence (fitted text (overhead head fence))) 65536

-- Whatever was decrypted, a title has at most 200 runes and a body at most the 65,536 that GitHub
-- takes.
pub format_issue_limits :
    (unmarshal : Bytes → Option Report) (to_text : Bytes → Text) (id : Text) (plaintext : Bytes)
    → (length (format_issue unmarshal to_text id plaintext).0 ≤ 200)
      × (length (format_issue unmarshal to_text id plaintext).1 ≤ 65536)
unfolding format_issue
format_issue_limits unmarshal to_text id plaintext = (
  build_title-length (unmarshal plaintext),
  build_body-length id (unmarshal plaintext) (to_text plaintext),
)

length-fitted :
    (text : Text) (around : ℕ)
    → around + length truncation_marker ≤ 65536
    → around + length (fitted text around) ≤ 65536
unfolding fitted
length-fitted text around h = elim (Bool-cases (ltb 65536 (around + length text))) [
  | inl e ↦ rw e (
      let cut : ℕ = 65536 - around - length truncation_marker in
      rw (length-append (truncate_runes text cut) truncation_marker)
        (omega (arith, length-truncate_runes text cut)))
  | inr e ↦ rw e (ground arith)
]

length-assembled :
    (head fence text : Text)
    → length (assembled head fence text) ≡ overhead head fence + length text
unfolding assembled overhead
length-assembled head fence text =
    rw (length-append head (fence ++ (b'\n' ∷ text ++ (b'\n' ∷ fence ++ footer)))) (
      rw (length-append fence (b'\n' ∷ text ++ (b'\n' ∷ fence ++ footer))) (
        rw (length-append text (b'\n' ∷ fence ++ footer))
          (rw (length-append fence footer) (omega arith))))

-- Where what stands around the text leaves room for the truncation marker, the body is never cut at
-- its end: it is the head, the opening fence, the text or as much of it as fits, the closing fence
-- and the footer.
pub build_body_whole :
    (id : Text) (parsed : Option Report) (verbatim : Text)
    → overhead (sections id parsed verbatim).0 (fence_for (sections id parsed verbatim).1)
        + length truncation_marker
      ≤ 65536
    → build_body id parsed verbatim
      ≡ assembled (sections id parsed verbatim).0 (fence_for (sections id parsed verbatim).1) (
          fitted
            (sections id parsed verbatim).1
            (overhead (sections id parsed verbatim).0 (fence_for (sections id parsed verbatim).1)))
unfolding build_body
build_body_whole id parsed verbatim h =
    let head = (sections id parsed verbatim).0 in
    let text = (sections id parsed verbatim).1 in
    let fence = fence_for text in
    let inside = fitted text (overhead head fence) in
    truncate_runes-take (assembled head fence inside) 65536
    ∙ take_all 65536 (assembled head fence inside)
        (rw (length-assembled head fence inside) (length-fitted text (overhead head fence) h))
