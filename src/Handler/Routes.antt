-- ===== src/Handler/Routes.antt =====
-- internal/handler/handler.go: the routes of New over the two handlers it composes. The patterns are
-- those that New and register hand to the standard library's ServeMux, whose documented choice is the
-- most specific pattern that matches; a path is given by its segments, with a wildcard segment being
-- any segment that is not empty.
pub mod Guard
use libre_mail_bug_report_in.Prelude.{
  ℕ, ◌≡◌, ◌≢◌, ◌⊎◌, inl, inr, refl, Option, none, some, List, [], ◌∷◌, Bool, true, false, not, ◌&&◌,
  ◌||◌, ◌==◌, arith, if◌then◌else◌, Bool-cases, In,
}
use libre_mail_bug_report_in.Prelude.Text.{Text, codes, text_eq}
use libre_mail_bug_report_in.Prelude.Text.Spaces.{is_empty}
use libre_mail_bug_report_in.Handler.Admin
use libre_mail_bug_report_in.Handler.Admin.{
  AdminBackend, deny_all_backend, reports, remove_via_post, remove_via_delete,
}
use libre_mail_bug_report_in.Ingest.Serve

abbrev pub service_name : Text
service_name = codes "libremail-bug-report-ingest"

pub record Body : Type 0 where
  pub service : Text
  pub status : Text
  pub message : Text
  pub error : Text

pub record Response : Type 0 where
  pub code : ℕ
  pub allow : Option Text
  pub body : Body

unfoldable pub error_body : Text → Body
error_body reason = record { service = []; status = codes "error"; message = []; error = reason }

unfoldable pub write_json : ℕ → Body → Response
write_json code body = record { code = code; allow = none; body = body }

-- isGet: the response that it writes, or none for a GET
unfoldable pub not_get : Text → Option Response
unfolding write_json error_body
not_get method =
    if not (text_eq method (codes "GET"))
    then some (record (write_json 405 (error_body (codes "method not allowed"))) {
      allow = some (codes "GET");
    })
    else none

unfoldable pub unless : Option Response → Response → Response
unless none response = response
unless (some refusal) response = refusal

-- The path, as the segments behind its leading slash; "/" is the one empty segment.
abbrev pub Segments : Type 0
Segments = List Text

unfoldable pub is_root : Segments → Bool
is_root [] = true
is_root (s ∷ []) = is_empty s
is_root _ = false

unfoldable pub root : Segments → Text → Response
unfolding write_json error_body not_get unless is_root
root path method =
    if not (is_root path)
    then write_json 404 (error_body (codes "not found"))
    else unless (not_get method) (
        write_json 200 (record {
          service = service_name;
          status = codes "ok";
          message = codes "hello from the LibreMail bug-report ingest Worker";
          error = [];
        }))

unfoldable pub healthz : Text → Response
unfolding write_json not_get unless
healthz method =
    unless (not_get method)
      (write_json 200 (record { service = []; status = codes "ok"; message = []; error = [] }))

pub data Route : Type 0 where
  to_healthz to_ingest to_reports to_root : Route
  to_remove_via_post to_remove_via_delete : Text → Route

-- the pattern of New and register that the mux chooses
unfoldable pub route : Segments → Route
unfolding is_empty
route (a ∷ []) = if text_eq a (codes "healthz") then to_healthz else to_root
route (a ∷ b ∷ []) =
    if text_eq a (codes "v1") && text_eq b (codes "reports") then to_ingest else to_root
route (a ∷ b ∷ c ∷ []) =
    if text_eq a (codes "v1") && (text_eq b (codes "admin") && text_eq c (codes "reports"))
    then to_reports
    else to_root
route (a ∷ b ∷ c ∷ id ∷ []) =
    if text_eq a (codes "v1")
      && (text_eq b (codes "admin") && (text_eq c (codes "reports") && not (is_empty id)))
    then to_remove_via_delete id
    else to_root
route (a ∷ b ∷ c ∷ id ∷ d ∷ []) =
    if text_eq a (codes "v1")
      && (text_eq b (codes "admin")
          && (text_eq c (codes "reports") && (not (is_empty id) && text_eq d (codes "remove"))))
    then to_remove_via_post id
    else to_root
route _ = to_root

pub data Reply : Type 0 where
  plain_reply : Response → Reply
  ingest_reply : Serve.Response → Reply
  admin_reply : Admin.Response → Reply

pub record HttpRequest : Type 0 where
  pub path : Segments
  pub authorization : Text
  pub report : Serve.Request

abbrev pub admin_request : HttpRequest → Admin.Request
admin_request r = record { method = r.report.method; authorization = r.authorization }

-- The handler that New returns, over the ingest handler and the admin backend, which share a state.
module _ {W : Type 0} (ingest : Serve.Request → W → Serve.Response × W)
    (admin : AdminBackend W) where
  unfoldable pub serve_route : Route → HttpRequest → W → Reply × W
  serve_route to_healthz r w = (plain_reply (healthz r.report.method), w)
  serve_route to_ingest r w = let (response, w') = ingest r.report w in (ingest_reply response, w')
  serve_route to_reports r w =
      let (response, w') = reports admin (admin_request r) w in (admin_reply response, w')
  serve_route (to_remove_via_post id) r w =
      let (response, w') = remove_via_post admin id (admin_request r) w in
      (admin_reply response, w')
  serve_route (to_remove_via_delete id) r w =
      let (response, w') = remove_via_delete admin id (admin_request r) w in
      (admin_reply response, w')
  serve_route to_root r w = (plain_reply (root r.path r.report.method), w)

  unfoldable pub serve_http : HttpRequest → W → Reply × W
  unfolding serve_route
  serve_http r w = serve_route (route r.path) r w
