-- ===== src/Ingest/Report/Accepts.antt =====
-- What is accepted as a report.
use libre_mail_bug_report_in.Prelude.{
  ℕ, ◌≡◌, ◌≢◌, ◌≤◌, ◌↔◌, ◌⊎◌, inl, inr, refl, Option, none, some, [], ◌∷◌, ◌++◌, Bool, true, false,
  ok, arith, All, Bool-cases, subst,
}
use libre_mail_bug_report_in.Prelude.Text.{Text}
use libre_mail_bug_report_in.Prelude.Text.Spaces.{trim_space, is_empty, byte_len}
use libre_mail_bug_report_in.Ingest.Report.{
  Bytes, Report, ReportError, more, validate, checked, parse_decoded, parse_report,
}

pub is_empty_iff : (s : Text) → (is_empty s ≡ true) ↔ (s ≡ [])
unfolding is_empty
is_empty_iff [] = (λ _. refl, λ _. refl)
is_empty_iff (c ∷ s) = (λ h. cc, λ h. cc)

-- The schema rules.
pub record IsAcceptable (is_rfc3339 : Text → Bool) (r : Report) : Type 0 where
  pub has_app_version : trim_space r.app_version ≢ []
  pub has_platform : trim_space r.platform ≢ []
  pub has_report : trim_space r.report ≢ []
  pub app_version_fits : byte_len (trim_space r.app_version) ≤ 256
  pub platform_fits : byte_len (trim_space r.platform) ≤ 64
  pub os_version_fits : byte_len r.os_version ≤ 128
  pub device_fits : byte_len r.device ≤ 256
  pub timestamp : (r.client_timestamp ≡ []) ⊎ (is_rfc3339 r.client_timestamp ≡ true)

module _ (is_rfc3339 : Text → Bool) (r : Report) where
  -- Validation finds no problem exactly in a report whose version, platform and text are not blank,
  -- whose values are within their byte lengths, and whose timestamp is empty or RFC 3339.
  pub validate-IsAcceptable : (validate is_rfc3339 r ≡ none) ↔ IsAcceptable is_rfc3339 r
  unfolding validate
  validate-IsAcceptable = (
    λ h. ground (
      arith,
      is_empty_iff (trim_space r.app_version),
      is_empty_iff (trim_space r.platform),
      is_empty_iff (trim_space r.report),
      is_empty_iff r.client_timestamp,
    ),
    λ a. ground (
      arith,
      is_empty_iff (trim_space r.app_version),
      is_empty_iff (trim_space r.platform),
      is_empty_iff (trim_space r.report),
      is_empty_iff r.client_timestamp,
    ),
  )

abbrev pub IsJsonSpace : ℕ → Type 0
IsJsonSpace c = (c ≡ b' ') ⊎ ((c ≡ b'\t') ⊎ ((c ≡ b'\r') ⊎ (c ≡ b'\n')))

abbrev pub IsCloser : ℕ → Type 0
IsCloser c = (c ≡ b']') ⊎ (c ≡ b'}')

-- White space up to the end, or up to a closing bracket or brace with anything behind it.
abbrev pub Ends : Bytes → Type 0
Ends [] = Unit
Ends (c ∷ rest) = (IsJsonSpace c × Ends rest) ⊎ IsCloser c

more-Ends : (rest : Bytes) → more rest ≡ false → Ends rest
unfolding more
more-Ends [] h = tt
more-Ends (c ∷ rest) h = ground (arith, more-Ends rest)

Ends-more : (rest : Bytes) → Ends rest → more rest ≡ false
unfolding more
Ends-more [] h = refl
Ends-more (c ∷ rest) (inl (space, h)) = ground (arith, Ends-more rest h)
Ends-more (c ∷ rest) (inr h) = ground arith

more_closer :
    (spaces : Bytes) (c : ℕ) (junk : Bytes)
    → All IsJsonSpace spaces
    → IsCloser c
    → more (spaces ++ c ∷ junk) ≡ false
unfolding more
more_closer [] c junk hs h = ground arith
more_closer (s ∷ spaces) c junk hs h = ground (arith, more_closer spaces c junk hs.1 h)

module _ (is_rfc3339 : Text → Bool) (decode : Bytes → Option (Report × Bytes)) where
  -- A payload whose first JSON value is an acceptable report is accepted with any bytes at all
  -- behind it, if these begin, after white space, with a closing bracket or brace.
  pub parse_report_trailing :
      (raw : Bytes) (rep : Report) (spaces : Bytes) (c : ℕ) (junk : Bytes)
      → decode raw ≡ some (rep, spaces ++ c ∷ junk)
      → All IsJsonSpace spaces
      → IsCloser c
      → IsAcceptable is_rfc3339 rep
      → parse_report is_rfc3339 decode raw ≡ ok rep
  unfolding parse_report
  parse_report_trailing raw rep spaces c junk decoded hs h acceptable = rw (decoded) (
      rw (more_closer spaces c junk hs h)
        (rw ((validate-IsAcceptable is_rfc3339 rep).1 acceptable) refl))

  checked_ok :
      (rep r : Report) (o : Option ReportError)
      → checked is_rfc3339 rep o ≡ ok r
      → (o ≡ none) × (rep ≡ r)
  unfolding checked
  checked_ok rep r o h = ground arith

  parse_decoded_ok :
      (o : Option (Report × Bytes)) (rep : Report)
      → parse_decoded is_rfc3339 o ≡ ok rep
      → (rest : Bytes) × (o ≡ some (rep, rest)) × Ends rest × IsAcceptable is_rfc3339 rep
  unfolding parse_decoded
  parse_decoded_ok none rep h = cc
  parse_decoded_ok (some (r, rest)) rep h = elim (Bool-cases (more rest)) [
    | inl e ↦ let h' = rw e at h in cc
    | inr e ↦
        let (valid, same) = checked_ok r rep (validate is_rfc3339 r) (rw e at h) in
        (
          rest,
          (rw same refl),
          more-Ends rest e,
          subst (IsAcceptable is_rfc3339) same ((validate-IsAcceptable is_rfc3339 r).0 valid),
        )
  ]

  -- A payload is accepted as a report exactly when its first JSON value decodes to that report, the
  -- report is acceptable, and behind the value there is only white space, up to the end or up to a
  -- closing bracket or brace.
  pub parse_report_iff :
      (raw : Bytes) (rep : Report)
      → (parse_report is_rfc3339 decode raw ≡ ok rep) ↔ (
          (rest : Bytes) × (decode raw ≡ some (rep, rest))
          × Ends rest
          × IsAcceptable is_rfc3339 rep)
  unfolding parse_report
  parse_report_iff raw rep = (
    parse_decoded_ok (decode raw) rep,
    λ (rest, decoded, ends, acceptable).
        rw decoded (
          rw (Ends-more rest ends) (rw ((validate-IsAcceptable is_rfc3339 rep).1 acceptable) refl)),
  )
