-- ===== src/Storage/Sink/Accepted.antt =====
-- The ingest endpoint over the sink: what a client that is answered 202 can rely on.
use libre_mail_bug_report_in.Prelude.{◌≡◌, refl, Option, Result, ok, err, Done, arith, Bool}
use libre_mail_bug_report_in.Prelude.Text.{Text}
use libre_mail_bug_report_in.Storage.Store.{Bytes, ObjectStore, StoreLaws}
use libre_mail_bug_report_in.Crypto.Keyring.{Keyring}
use libre_mail_bug_report_in.Crypto.Primitive.{Aead, AeadLaws}
use libre_mail_bug_report_in.Storage.Sink.{Host, SinkError, store}
use libre_mail_bug_report_in.Storage.Sink.Stored.{
  id_of, OpensLater, HoldsPending, store-HoldsPending,
}
use libre_mail_bug_report_in.Ingest.Report.{Report}
use libre_mail_bug_report_in.Ingest.Sinks.{Sink}
use libre_mail_bug_report_in.Ingest.Serve.{Request, Response, serve}
use libre_mail_bug_report_in.Ingest.Serve.Contract.{
  Answers, not_post, not_json, too_large, unreadable, invalid, unavailable, accepted, serve-Answers,
  serve_stores,
}

opaque_error : Result SinkError Done → Result (Unit {0}) Done
opaque_error (ok _) = ok tt
opaque_error (err e) = err tt

opaque_error_ok : (r : Result SinkError Done) → opaque_error r ≡ ok tt → r ≡ ok tt
unfolding opaque_error
opaque_error_ok (ok tt) h = refl
opaque_error_ok (err e) h = cc

module _ {R : Type 0} (host : Host R) (primitive : Aead) (scrub : Bytes → Bytes) (S : ObjectStore)
    (keyring : Keyring) where
  -- the sink as the endpoint sees it
  unfoldable pub as_sink : Sink (S.State × R)
  unfolding opaque_error
  as_sink raw w = let (r, w') = store host primitive scrub S keyring raw w in (opaque_error r, w')

  module _ (contents : S.State → Text → Option Bytes) (laws : StoreLaws S contents)
      (parse_media_type : Text → Option Text) (is_rfc3339 : Text → Bool)
      (decode : Bytes → Option (Report × Bytes)) where
    accepted_ok :
        (r : Request) (w : S.State × R) (response : Response)
        → Answers parse_media_type is_rfc3339 decode as_sink r w response
        → response.status ≡ 202
        → (as_sink r.body.sent w).0 ≡ ok tt
    accepted_ok r w response (not_post s _ _) h = absurd (omega arith)
    accepted_ok r w response (not_json s _ _) h = absurd (omega arith)
    accepted_ok r w response (too_large s _ _ _) h = absurd (omega arith)
    accepted_ok r w response (unreadable s _ _ _ _) h = absurd (omega arith)
    accepted_ok r w response (invalid s _ _ _ _ _) h = absurd (omega arith)
    accepted_ok r w response (unavailable s _ _ _ _ _ _ _) h = absurd (omega arith)
    accepted_ok r w response (accepted s _ _ _ _ _ _ stored) h = stored

    -- A client that is answered 202 has its report stored: at the pending key of a new id stands a
    -- frame that opens, under any keyring that still has the key, to the scrubbed bytes it sent.
    pub serve-HoldsPending :
        (later : Keyring) (k : Bytes) (r : Request) (w : S.State × R)
        → AeadLaws primitive
        → OpensLater host primitive scrub S keyring contents laws later k
        → (serve parse_media_type is_rfc3339 decode as_sink r w).0.status ≡ 202
        → HoldsPending host primitive scrub S keyring contents laws later
            (id_of host w.1)
            (scrub r.body.sent)
            (serve parse_media_type is_rfc3339 decode as_sink r w).1.0
    unfolding as_sink
    serve-HoldsPending later k r w aead opens h =
        let response = (serve parse_media_type is_rfc3339 decode as_sink r w).0 in
        let done =
          accepted_ok r w response (serve-Answers parse_media_type is_rfc3339 decode as_sink r w)
            h in
        let state : (serve parse_media_type is_rfc3339 decode as_sink r w).1
            ≡ (as_sink r.body.sent w).1 =
          rw h at (serve_stores parse_media_type is_rfc3339 decode as_sink r w) in
        rw state (
          store-HoldsPending host primitive scrub S keyring contents laws later k r.body.sent w aead
            opens (opaque_error_ok (store host primitive scrub S keyring r.body.sent w).0 done))
