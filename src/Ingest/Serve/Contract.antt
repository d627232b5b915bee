-- ===== src/Ingest/Serve/Contract.antt =====
-- The response contract of POST /v1/reports.
use libre_mail_bug_report_in.Prelude.{
  ℕ, ◌≡◌, ◌≢◌, ◌<◌, ◌⊎◌, inl, inr, refl, Option, none, some, List, [], ◌∷◌, Bool, true, false, ◌||◌,
  Result, ok, err, Done, In, arith, length, Bool-cases, ◌==◌, ltb, if◌then◌else◌, ltb→lt, ◌↔◌,
}
use libre_mail_bug_report_in.Prelude.Text.{Text, codes, text_eq, text_eq_iff}
use libre_mail_bug_report_in.Prelude.Text.Spaces.{trim_space}
use libre_mail_bug_report_in.Ingest.Report.{Bytes, Report, ReportError, parse_report}
use libre_mail_bug_report_in.Ingest.Report.Accepts.{is_empty_iff}
use libre_mail_bug_report_in.Ingest.Sinks.{Sink}
use libre_mail_bug_report_in.Ingest.Serve.{
  Request, Response, Body, ReadError, max_bytes_error, other_error, read_all, write_error,
  accepted_response, declares_too_large, is_media_type_json, is_json_content_type, after_store,
  after_parse, after_read, serve, max_body_bytes, content_type_json,
}

abbrev pub IsPost : Request → Type 0
IsPost r = r.method ≡ codes "POST"

-- A declared or an actual length of more than 256 KiB.
abbrev pub DeclaresTooLarge : Option ℕ → Type 0
DeclaresTooLarge none = ⊥
DeclaresTooLarge (some n) = max_body_bytes < n

abbrev pub TooLarge : Request → Type 0
TooLarge r = DeclaresTooLarge r.content_length ⊎ (max_body_bytes < length r.body.sent)

-- Every response that the endpoint can give.
abbrev pub fixed_responses : List Response
fixed_responses =
    accepted_response
    ∷ write_error 503 (codes "storage unavailable")
    ∷ write_error 400 (codes "invalid report")
    ∷ write_error 400 (codes "could not read request body")
    ∷ write_error 413 (codes "payload too large")
    ∷ write_error 415 (codes "content-type must be application/json")
    ∷ record (write_error 405 (codes "method not allowed")) { allow = some (codes "POST") }
    ∷ []

module _ (parse_media_type : Text → Option Text) (is_rfc3339 : Text → Bool)
    (decode : Bytes → Option (Report × Bytes)) {W : Type 0} (sink_store : Sink W) where
  abbrev pub IsJson : Request → Type 0
  IsJson r =
      (trim_space r.content_type ≢ []) × (parse_media_type r.content_type ≡ some content_type_json)

  -- The row of the contract that a request falls under; each names the rows above it as failed.
  pub data Answers (r : Request) (w : W) (response : Response) : Type 0 where
    not_post :
        response.status ≡ 405
        → response.allow ≡ some (codes "POST")
        → ¬ IsPost r
        → Answers r w response
    not_json : response.status ≡ 415 → IsPost r → ¬ IsJson r → Answers r w response
    too_large : response.status ≡ 413 → IsPost r → IsJson r → TooLarge r → Answers r w response
    unreadable :
        response.status ≡ 400
        → IsPost r
        → IsJson r
        → ¬ TooLarge r
        → r.body.broken ≡ true
        → Answers r w response
    invalid :
        response.status ≡ 400
        → IsPost r
        → IsJson r
        → ¬ TooLarge r
        → (e : ReportError) → parse_report is_rfc3339 decode r.body.sent ≡ err e
        → Answers r w response
    unavailable :
        response.status ≡ 503
        → IsPost r
        → IsJson r
        → ¬ TooLarge r
        → r.body.broken ≡ false
        → (rep : Report) → parse_report is_rfc3339 decode r.body.sent ≡ ok rep
        → (sink_store r.body.sent w).0 ≡ err tt
        → Answers r w response
    accepted :
        response.status ≡ 202
        → IsPost r
        → IsJson r
        → ¬ TooLarge r
        → r.body.broken ≡ false
        → (rep : Report) → parse_report is_rfc3339 decode r.body.sent ≡ ok rep
        → (sink_store r.body.sent w).0 ≡ ok tt
        → Answers r w response

  is_media_type_json-eq :
      (o : Option Text)
      → is_media_type_json parse_media_type is_rfc3339 decode o ≡ true
      → o ≡ some content_type_json
  unfolding is_media_type_json
  is_media_type_json-eq none h = cc
  is_media_type_json-eq (some t) h = ground (arith, text_eq_iff t content_type_json)

  accepted_media :
      (r : Request)
      → is_json_content_type parse_media_type is_rfc3339 decode r.content_type ≡ true
      → IsJson r
  unfolding is_json_content_type
  accepted_media r h = ground (
    arith,
    is_empty_iff (trim_space r.content_type),
    is_media_type_json-eq (parse_media_type r.content_type),
  )

  refused_media :
      (r : Request)
      → is_json_content_type parse_media_type is_rfc3339 decode r.content_type ≡ false
      → ¬ IsJson r
  unfolding is_json_content_type
  refused_media r h (present, e) =
      let h' = rw e at h in
      ground (
        arith,
        is_empty_iff (trim_space r.content_type),
        text_eq_iff content_type_json content_type_json,
      )

  declares_iff : (o : Option ℕ) → (declares_too_large o ≡ true) ↔ DeclaresTooLarge o
  unfolding declares_too_large
  declares_iff none = (λ h. cc, λ h. absurd h)
  declares_iff (some n) = ground arith

  after_parse-Answers :
      (r : Request) (w : W)
      → IsPost r
      → IsJson r
      → ¬ TooLarge r
      → r.body.broken ≡ false
      → (p : Result ReportError Report) → parse_report is_rfc3339 decode r.body.sent ≡ p
      → Answers r w (after_parse parse_media_type is_rfc3339 decode sink_store r.body.sent p w).0
  unfolding after_parse
  after_parse-Answers r w post json fits whole (err e) h = invalid refl post json fits e h
  after_parse-Answers r w post json fits whole (ok rep) h = stored (sink_store r.body.sent w).0 refl
    where
      stored :
          (o : Result (Unit {0}) Done)
          → (sink_store r.body.sent w).0 ≡ o
          → Answers r w (after_store parse_media_type is_rfc3339 decode sink_store o)
      stored (err _) e = unavailable refl post json fits whole rep h e
      stored (ok _) e = accepted refl post json fits whole rep h e

  after_read-Answers :
      (r : Request) (w : W)
      → IsPost r
      → IsJson r
      → ¬ DeclaresTooLarge r.content_length
      → Answers r w (after_read parse_media_type is_rfc3339 decode sink_store (read_all r.body) w).0
  unfolding read_all after_read
  after_read-Answers r w post json declared =
      elim (Bool-cases (ltb max_body_bytes (length r.body.sent))) [
        | inl long ↦ rw long (too_large refl post json (inr (ltb→lt _ _ long)))
        | inr fits ↦
            let small : ¬ TooLarge r = λ t. elim t [ inl d ↦ declared d | inr l ↦ ground arith ] in
            rw fits (elim (Bool-cases r.body.broken) [
              | inl e ↦ simp e (unreadable refl post json small e)
              | inr e ↦ simp e (
                  after_parse-Answers r w post json small e
                    (parse_report is_rfc3339 decode r.body.sent) refl)
            ])
      ]

  -- Every request is answered by the row of the contract that it falls under: 405 with Allow: POST
  -- for another method, 415 for a media type that is not application/json, 413 for a declared or
  -- actual length over 256 KiB, 400 for a body that breaks off or is no report, 503 where the sink
  -- fails, and 202 otherwise.
  pub serve-Answers :
      (r : Request) (w : W)
      → Answers r w (serve parse_media_type is_rfc3339 decode sink_store r w).0
  unfolding serve
  serve-Answers r w = elim (Bool-cases (text_eq r.method (codes "POST"))) [
    | inr other ↦
        rw other
          (not_post refl refl (λ post. cc (other, (text_eq_iff r.method (codes "POST")).1 post)))
    | inl same ↦
        let post : IsPost r = (text_eq_iff r.method (codes "POST")).0 same in
        rw same
          (elim (Bool-cases
            (is_json_content_type parse_media_type is_rfc3339 decode r.content_type)) [
              | inr other ↦ rw other (not_json refl post (refused_media r other))
              | inl json ↦ rw json (elim (Bool-cases (declares_too_large r.content_length)) [
                | inl long ↦ rw long (
                    too_large refl post (accepted_media r json)
                      (inl ((declares_iff r.content_length).0 long)))
                | inr fits ↦ rw fits (
                    after_read-Answers r w post (accepted_media r json)
                      (λ d. cc (fits, (declares_iff r.content_length).1 d)))
              ])
            ])
  ]

  after_store_fixed :
      (o : Result (Unit {0}) Done)
      → In (after_store parse_media_type is_rfc3339 decode sink_store o) fixed_responses
  unfolding after_store
  after_store_fixed (err _) = inr (inl refl)
  after_store_fixed (ok _) = inl refl

  after_parse_fixed :
      (raw : Bytes) (p : Result ReportError Report) (w : W)
      → In (after_parse parse_media_type is_rfc3339 decode sink_store raw p w).0 fixed_responses
  unfolding after_parse
  after_parse_fixed raw (err e) w = inr (inr (inl refl))
  after_parse_fixed raw (ok rep) w = after_store_fixed (sink_store raw w).0

  after_read_fixed :
      (o : Result ReadError Bytes) (w : W)
      → In (after_read parse_media_type is_rfc3339 decode sink_store o w).0 fixed_responses
  unfolding after_read
  after_read_fixed (err max_bytes_error) w = inr (inr (inr (inr (inl refl))))
  after_read_fixed (err other_error) w = inr (inr (inr (inl refl)))
  after_read_fixed (ok raw) w = after_parse_fixed raw (parse_report is_rfc3339 decode raw) w

  -- Whatever the request holds, the response is one of seven fixed ones, so no response reflects
  -- content of the request.
  pub serve_fixed :
      (r : Request) (w : W)
      → In (serve parse_media_type is_rfc3339 decode sink_store r w).0 fixed_responses
  unfolding serve
  serve_fixed r w = ground (arith, after_read_fixed (read_all r.body) w)

  -- what the endpoint leaves behind, by the status it answered
  abbrev pub LeftBehind : Bytes → W → Response × W → Type 0
  LeftBehind raw w (response, w') =
      w' ≡ (if response.status == 202 || response.status == 503 then (sink_store raw w).1 else w)

  after_parse_stores :
      (raw : Bytes) (p : Result ReportError Report) (w : W)
      → LeftBehind raw w (after_parse parse_media_type is_rfc3339 decode sink_store raw p w)
  unfolding after_parse
  after_parse_stores raw (err e) w = refl
  after_parse_stores raw (ok rep) w = stored (sink_store raw w).0
    where
      stored :
          (o : Result (Unit {0}) Done)
          → LeftBehind raw w
              (after_store parse_media_type is_rfc3339 decode sink_store o, (sink_store raw w).1)
      stored (err _) = refl
      stored (ok _) = refl

  after_read_stores :
      (b : Body) (w : W)
      → LeftBehind b.sent w
          (after_read parse_media_type is_rfc3339 decode sink_store (read_all b) w)
  unfolding after_read read_all
  after_read_stores b w = elim (Bool-cases (ltb max_body_bytes (length b.sent))) [
    | inl long ↦ simp long refl
    | inr fits ↦ simp fits (elim (Bool-cases b.broken) [
      | inl e ↦ simp e refl
      | inr e ↦ simp e (after_parse_stores b.sent (parse_report is_rfc3339 decode b.sent) w)
    ])
  ]

  -- A request that is answered 202 or 503 has handed the sink exactly the bytes that were sent,
  -- once; any other response leaves the state of the sink as it was.
  pub serve_stores :
      (r : Request) (w : W)
      → (serve parse_media_type is_rfc3339 decode sink_store r w).1 ≡ (
          if (serve parse_media_type is_rfc3339 decode sink_store r w).0.status == 202
            || (serve parse_media_type is_rfc3339 decode sink_store r w).0.status == 503
          then (sink_store r.body.sent w).1
          else w)
  unfolding serve
  serve_stores r w = ground (arith, after_read_stores r.body w)
