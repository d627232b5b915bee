-- ===== src/Ingest/Serve.antt =====
-- internal/ingest/ingest.go: the endpoint. `mime.ParseMediaType` is a parameter; the body is read
-- through http.MaxBytesReader.
pub mod Contract
use libre_mail_bug_report_in.Prelude.{
  ℕ, ◌*◌, Option, none, some, List, [], ◌∷◌, Bool, true, false, not, Result, ok, err, Done, Action,
  ltb, ◌==◌, if◌then◌else◌, length,
}
use libre_mail_bug_report_in.Prelude.Text.{Text, codes, text_eq}
use libre_mail_bug_report_in.Prelude.Text.Spaces.{trim_space, is_empty}
use libre_mail_bug_report_in.Ingest.Report.{Bytes, Report, ReportError, parse_report}
use libre_mail_bug_report_in.Ingest.Sinks.{Sink}

abbrev pub max_body_bytes : ℕ
max_body_bytes = 256 * 1024

abbrev pub content_type_json : Text
content_type_json = codes "application/json"

-- What the client sends as the body: bytes, and whether the stream then breaks instead of ending.
pub record Body : Type 0 where
  pub sent : Bytes
  pub broken : Bool

pub record Request : Type 0 where
  pub method : Text
  pub content_type : Text
  -- a declared Content-Length, or none (-1)
  pub content_length : Option ℕ
  pub body : Body

pub data Payload : Type 0 where
  accepted_body : Payload
  error_body : Text → Payload

pub record Response : Type 0 where
  pub status : ℕ
  pub allow : Option Text
  pub payload : Payload

pub data ReadError : Type 0 where
  max_bytes_error other_error : ReadError

-- io.ReadAll(http.MaxBytesReader(w, r.Body, MaxBodyBytes))
unfoldable pub read_all : Body → Result ReadError Bytes
read_all b =
    if ltb max_body_bytes (length b.sent)
    then err max_bytes_error
    else if b.broken
    then err other_error
    else ok b.sent

unfoldable pub write_error : ℕ → Text → Response
write_error status reason = record { status = status; allow = none; payload = error_body reason }

unfoldable pub accepted_response : Response
accepted_response = record { status = 202; allow = none; payload = accepted_body }

-- r.ContentLength > MaxBodyBytes
unfoldable pub declares_too_large : Option ℕ → Bool
declares_too_large none = false
declares_too_large (some n) = ltb max_body_bytes n

module _ (parse_media_type : Text → Option Text) (is_rfc3339 : Text → Bool)
    (decode : Bytes → Option (Report × Bytes)) where
  is_media_type_json : Option Text → Bool
  is_media_type_json none = false
  is_media_type_json (some media_type) = text_eq media_type content_type_json

  unfoldable pub is_json_content_type : Text → Bool
  unfolding is_media_type_json
  is_json_content_type ct =
      if is_empty (trim_space ct) then false else is_media_type_json (parse_media_type ct)

  module _ {W : Type 0} (sink_store : Sink W) where
    unfoldable pub after_store : Result (Unit {0}) Done → Response
    unfolding write_error accepted_response
    after_store (err _) = write_error 503 (codes "storage unavailable")
    after_store (ok _) = accepted_response

    unfoldable pub after_parse : Bytes → Result ReportError Report → W → Response × W
    unfolding write_error after_store
    after_parse raw (err e) w = (write_error 400 (codes "invalid report"), w)
    after_parse raw (ok rep) w = let (r, w') = sink_store raw w in (after_store r, w')

    unfoldable pub after_read : Result ReadError Bytes → W → Response × W
    unfolding write_error after_parse
    after_read (err max_bytes_error) w = (write_error 413 (codes "payload too large"), w)
    after_read (err other_error) w = (write_error 400 (codes "could not read request body"), w)
    after_read (ok raw) w = after_parse raw (parse_report is_rfc3339 decode raw) w

    unfoldable pub serve : Request → W → Response × W
    unfolding write_error read_all after_read declares_too_large
    serve r w =
        if not (text_eq r.method (codes "POST"))
        then (
          record (write_error 405 (codes "method not allowed")) { allow = some (codes "POST") },
          w,
        )
        else if not (is_json_content_type r.content_type)
        then (write_error 415 (codes "content-type must be application/json"), w)
        else if declares_too_large r.content_length
        then (write_error 413 (codes "payload too large"), w)
        else after_read (read_all r.body) w
