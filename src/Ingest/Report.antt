-- ===== src/Ingest/Report.antt =====
-- internal/ingest/report.go: the payload and its validation. The JSON decoder and the RFC 3339
-- parser are parameters: `decode raw` is the first JSON value of `raw` as a Report, with the bytes
-- behind it.
pub mod Accepts
use libre_mail_bug_report_in.Prelude.{
  ℕ, Option, none, some, List, [], ◌∷◌, Bool, true, false, not, ◌&&◌, ◌||◌, Result, ok, err, ltb,
  ◌==◌, if◌then◌else◌, Done, ◌>>=◌,
}
use libre_mail_bug_report_in.Prelude.Text.{Text}
use libre_mail_bug_report_in.Prelude.Text.Spaces.{trim_space, is_empty, byte_len}

abbrev pub Bytes : Type 0
Bytes = List ℕ

pub record Report : Type 0 where
  pub app_version : Text
  pub platform : Text
  pub report : Text
  pub os_version : Text
  pub device : Text
  pub client_timestamp : Text

abbrev pub max_app_version_len : ℕ
max_app_version_len = 256

abbrev pub max_platform_len : ℕ
max_platform_len = 64

abbrev pub max_os_version_len : ℕ
max_os_version_len = 128

abbrev pub max_device_len : ℕ
max_device_len = 256

pub data ReportError : Type 0 where
  json_decode trailing_data : ReportError
  app_version_required app_version_too_long : ReportError
  platform_required platform_too_long : ReportError
  report_required os_version_too_long device_too_long : ReportError
  client_timestamp_invalid : ReportError

-- (*json.Decoder).More on what is left at the top level: some byte that is neither white space nor
-- the end of an array or of an object
unfoldable pub more : Bytes → Bool
more [] = false
more (c ∷ rest) =
    let further = more rest in
    if c == b' ' || (c == b'\t' || (c == b'\r' || c == b'\n'))
    then further
    else not (c == b']' || c == b'}')

module _ (is_rfc3339 : Text → Bool) where
  -- the first problem found, or none
  unfoldable pub validate : Report → Option ReportError
  validate r =
      let app_version = trim_space r.app_version in
      let platform = trim_space r.platform in
      if is_empty app_version
      then some app_version_required
      else if ltb max_app_version_len (byte_len app_version)
      then some app_version_too_long
      else if is_empty platform
      then some platform_required
      else if ltb max_platform_len (byte_len platform)
      then some platform_too_long
      else if is_empty (trim_space r.report)
      then some report_required
      else if ltb max_os_version_len (byte_len r.os_version)
      then some os_version_too_long
      else if ltb max_device_len (byte_len r.device)
      then some device_too_long
      else if not (is_empty r.client_timestamp) && not (is_rfc3339 r.client_timestamp)
      then some client_timestamp_invalid
      else none

  unfoldable pub checked : Report → Option ReportError → Result ReportError Report
  checked rep none = ok rep
  checked rep (some e) = err e

  unfoldable pub parse_decoded : Option (Report × Bytes) → Result ReportError Report
  unfolding checked
  parse_decoded none = err json_decode
  parse_decoded (some (rep, rest)) =
      if more rest then err trailing_data else checked rep (validate rep)

  unfoldable pub parse_report :
      (Bytes → Option (Report × Bytes)) → Bytes → Result ReportError Report
  unfolding parse_decoded
  parse_report decode raw = parse_decoded (decode raw)
