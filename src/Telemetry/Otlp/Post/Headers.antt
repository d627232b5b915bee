-- ===== src/Telemetry/Otlp/Post/Headers.antt =====
-- The headers that a request of the exporter carries.
use libre_mail_bug_report_in.Prelude.{
  ◌≡◌, ◌⊎◌, inl, inr, refl, sym, ap, List, [], ◌∷◌, true, false, In, Bool-cases,
}
use libre_mail_bug_report_in.Prelude.Text.{Text, text_eq, text_eq_sound}
use libre_mail_bug_report_in.Telemetry.Otlp.Headers.{Header, set_header}
use libre_mail_bug_report_in.Telemetry.Otlp.Post.{Host, set_headers}

-- the written header is there
set_header-In : (k v : Text) (headers : List Header) → In (k, v) (set_header k v headers)
unfolding set_header
set_header-In k v [] = inl refl
set_header-In k v ((k', v') ∷ headers) = elim (Bool-cases (text_eq k' k)) [
  | inl e ↦ rw e (inl refl)
  | inr e ↦ rw e (inr (set_header-In k v headers))
]

-- a header of another name stays
In-set_header :
    (k v : Text) (h : Header) (headers : List Header)
    → text_eq h.0 k ≡ false
    → In h headers
    → In h (set_header k v headers)
unfolding set_header
In-set_header k v h [] other at_ = absurd at_
In-set_header k v h ((k', v') ∷ headers) other at_ = elim (Bool-cases (text_eq k' k)) [
  | inl e ↦ rw e (replaced e at_)
  | inr e ↦ rw e (kept (λ later. In-set_header k v h headers other later) at_)
]
  where
    replaced : text_eq k' k ≡ true → In h ((k', v') ∷ headers) → In h ((k, v) ∷ headers)
    replaced e (inl same) = let k'_same = ap (λ x. x.0) same in cc
    replaced e (inr later) = inr later

    kept :
        (In h headers → In h (set_header k v headers))
        → In h ((k', v') ∷ headers)
        → In h ((k', v') ∷ set_header k v headers)
    kept still (inl same) = inl same
    kept still (inr later) = inr (still later)

module _ {W : Type 0} (host : Host W) where
  -- A configured header has this name, in the form that it is sent in.
  abbrev pub Names : Text → List Header → Type 0
  Names name [] = ⊥
  Names name ((k, v) ∷ headers) = (host.canonical k ≡ name) ⊎ Names name headers

  -- Each configured header is among the headers that are sent, or a later one of the same name is.
  abbrev pub Carries : List Header → List Header → Type 0
  Carries [] sent = Unit
  Carries ((k, v) ∷ headers) sent =
      (Names (host.canonical k) headers ⊎ In (host.canonical k, v) sent) × Carries headers sent

  -- a header that is there stays, or one of its name is configured
  pub In-set_headers :
      (h : Header) (configured headers : List Header)
      → In h headers
      → Names h.0 configured ⊎ In h (set_headers host configured headers)
  unfolding set_headers
  In-set_headers h [] headers at_ = inr at_
  In-set_headers h ((k, v) ∷ configured) headers at_ =
      elim (Bool-cases (text_eq h.0 (host.canonical k))) [
        | inl e ↦ inl (inl (sym (text_eq_sound h.0 (host.canonical k) e)))
        | inr e ↦ later (
            In-set_headers h configured (set_header (host.canonical k) v headers)
              (In-set_header (host.canonical k) v h headers e at_))
      ]
    where
      later :
          Names h.0 configured
            ⊎ In h (set_headers host configured (set_header (host.canonical k) v headers))
          → Names h.0 ((k, v) ∷ configured) ⊎ In h (set_headers host ((k, v) ∷ configured) headers)
      later (inl named) = inl (inr named)
      later (inr still) = inr still

  pub set_headers-Carries :
      (configured headers : List Header) → Carries configured (set_headers host configured headers)
  unfolding set_headers
  set_headers-Carries [] headers = tt
  set_headers-Carries ((k, v) ∷ configured) headers =
      let headers' = set_header (host.canonical k) v headers in
      (
        In-set_headers (host.canonical k, v) configured headers'
            (set_header-In (host.canonical k) v headers),
        set_headers-Carries configured headers',
      )
