-- ===== src/Handler/Admin.antt =====
-- internal/handler/admin.go. A handler is a function of the request and of the backend's state;
-- `crypto/subtle.ConstantTimeCompare` is the comparison of the two texts.
pub mod Auth
pub mod Effects
use libre_mail_bug_report_in.Prelude.{
  ℕ, Option, none, some, List, [], ◌∷◌, Bool, true, false, not, ◌||◌, Result, ok, err, Done, Action,
  if◌then◌else◌,
}
use libre_mail_bug_report_in.Prelude.Text.{Text, codes, text_eq}
use libre_mail_bug_report_in.Prelude.Text.Spaces.{is_empty}
use libre_mail_bug_report_in.Prelude.Text.Cut.{cut, equal_fold}
use libre_mail_bug_report_in.Storage.Store.{ObjectStore}
use libre_mail_bug_report_in.Lifecycle
use libre_mail_bug_report_in.Lifecycle.{LifecycleError, unknown_report}

-- What the admin routes can fail with: ErrUnknownReport, and everything else.
pub data BackendError : Type 0 where
  unknown : BackendError
  other : BackendError

-- AdminBackend, over a state of its own. Reading the token may change that state (the Worker reads
-- Secrets Store).
pub record AdminBackend (W : Type 0) : Type 0 where
  pub admin_token : Action W BackendError Text
  pub list_pending : Action W BackendError (List Text)
  pub mark_removed : Text → Action W BackendError Done

unfoldable pub backend_error : LifecycleError → BackendError
backend_error (unknown_report id) = unknown
backend_error _ = other

unfoldable pub from_lifecycle : {A : Type 0} → Result LifecycleError A → Result BackendError A
unfolding backend_error
from_lifecycle (ok a) = ok a
from_lifecycle (err e) = err (backend_error e)

-- managerBackend{mgr, token}
abbrev pub manager_backend : (S : ObjectStore) → Text → AdminBackend S.State
manager_backend S token = record {
  admin_token = λ w. (ok token, w);
  list_pending = λ w. let (r, w') = Lifecycle.list_pending S w in (from_lifecycle r, w');
  mark_removed = λ id w. let (r, w') = Lifecycle.mark_removed S id w in (from_lifecycle r, w');
}

-- denyAllBackend{}
abbrev pub deny_all_backend : {W : Type 0} → AdminBackend W
deny_all_backend = record {
  admin_token = λ w. (ok [], w);
  list_pending = λ w. (err other, w);
  mark_removed = λ id w. (err other, w);
}

pub record Request : Type 0 where
  pub method : Text
  pub authorization : Text

pub data Payload : Type 0 where
  admin_list : List Text → Payload
  removed_id : Text → Payload
  error_payload : Text → Payload

pub record Response : Type 0 where
  pub status : ℕ
  pub allow : Option Text
  pub challenge : Option Text
  pub payload : Payload

unfoldable pub write_admin : ℕ → Payload → Response
write_admin status payload = record {
  status = status;
  allow = none;
  challenge = none;
  payload = payload;
}

unfoldable pub method_not_allowed : Text → Response
unfolding write_admin
method_not_allowed allow = record (write_admin 405 (error_payload (codes "method not allowed"))) {
  allow = some allow;
}

unfoldable pub unavailable : Response
unfolding write_admin
unavailable = write_admin 503 (error_payload (codes "admin backend unavailable"))

unfoldable pub unauthorized : Response
unfolding write_admin
unauthorized = record (write_admin 401 (error_payload (codes "unauthorized"))) {
  challenge = some (codes "Bearer");
}

unfoldable pub cut_matches : Option (Text × Text) → Text → Bool
cut_matches none secret = false
cut_matches (some (scheme, token)) secret =
    if not (equal_fold scheme (codes "Bearer")) then false else text_eq token secret

unfoldable pub bearer_matches : Text → Text → Bool
unfolding cut_matches
bearer_matches header secret = cut_matches (cut b' ' header) secret

unfoldable pub listed : Result BackendError (List Text) → Response
unfolding unavailable write_admin
listed (err _) = unavailable
listed (ok ids) = write_admin 200 (admin_list ids)

unfoldable pub removal : Text → Result BackendError Done → Response
unfolding unavailable write_admin
removal id (ok _) = write_admin 200 (removed_id id)
removal id (err unknown) = write_admin 404 (error_payload (codes "unknown report"))
removal id (err other) = unavailable

module _ {W : Type 0} (backend : AdminBackend W) where
  -- the response that authorize writes, or none if the request is authenticated
  unfoldable pub refused : Request → Result BackendError Text → Option Response
  unfolding unavailable unauthorized
  refused r (err _) = some unavailable
  refused r (ok secret) =
      if is_empty secret || not (bearer_matches r.authorization secret)
      then some unauthorized
      else none

  unfoldable pub authorize : Request → W → Option Response × W
  unfolding refused
  authorize r w = let (token, w') = backend.admin_token w in (refused r token, w')

  unfoldable pub list_if : Option Response → W → Response × W
  unfolding listed
  list_if (some response) w = (response, w)
  list_if none w = let (ids, w') = backend.list_pending w in (listed ids, w')

  unfoldable pub reports : Request → W → Response × W
  unfolding method_not_allowed list_if authorize
  reports r w =
      if not (text_eq r.method (codes "GET"))
      then (method_not_allowed (codes "GET"), w)
      else (let (refusal, w') = authorize r w in list_if refusal w')

  unfoldable pub remove_if : Text → Option Response → W → Response × W
  unfolding removal
  remove_if id (some response) w = (response, w)
  remove_if id none w = let (r, w') = backend.mark_removed id w in (removal id r, w')

  unfoldable pub remove : Text → Request → W → Response × W
  unfolding remove_if authorize
  remove id r w = let (refusal, w') = authorize r w in remove_if id refusal w'

  unfoldable pub remove_via_post : Text → Request → W → Response × W
  unfolding method_not_allowed
  remove_via_post id r w =
      if not (text_eq r.method (codes "POST"))
      then (method_not_allowed (codes "POST"), w)
      else remove id r w

  unfoldable pub remove_via_delete : Text → Request → W → Response × W
  unfolding method_not_allowed
  remove_via_delete id r w =
      if not (text_eq r.method (codes "DELETE"))
      then (method_not_allowed (codes "DELETE"), w)
      else remove id r w
