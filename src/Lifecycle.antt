-- ===== src/Lifecycle.antt =====
-- internal/lifecycle/lifecycle.go: the Manager reads and moves report status over an object store.
-- A method is a function of the store's state; the context argument is only passed on to the store
-- by the source and has no part here.
pub mod Moves
pub mod Faults
pub mod Pending
pub mod Removal
pub mod InMemory
mod Tests
use libre_mail_bug_report_in.Prelude.{List, [], ◌∷◌, Result, ok, err, Done, Action, map, wrap}
use libre_mail_bug_report_in.Prelude.Text.{Text, trim_prefix}
use libre_mail_bug_report_in.Storage.Status.{
  Status, pending, removed, published, status_prefix, report_key,
}
use libre_mail_bug_report_in.Storage.Store.{Bytes, StoreError, not_found, backend, ObjectStore}

-- The errors of the package: ErrUnknownReport with the id, and the wrapped errors of the store.
pub data LifecycleError : Type 0 where
  unknown_report : Text → LifecycleError
  list_failed : StoreError → LifecycleError
  read_failed : Status → StoreError → LifecycleError
  write_failed : Status → StoreError → LifecycleError
  delete_failed : Status → StoreError → LifecycleError

-- the loop of ListPending over the keys
unfoldable pub trim_all : Text → List Text → List Text
trim_all prefix [] = []
trim_all prefix (k ∷ ks) = trim_prefix k prefix ∷ trim_all prefix ks

-- `Manager{store}` is the section's parameter.
module _ (S : ObjectStore) where
  open S use {State, put, get, list, delete}

  unfoldable pub ids_of : Text → Result StoreError (List Text) → Result LifecycleError (List Text)
  ids_of prefix (ok keys) = ok (trim_all prefix keys)
  ids_of prefix (err e) = err (list_failed e)

  unfoldable pub list_pending : Action State LifecycleError (List Text)
  unfolding ids_of
  list_pending s =
      let prefix = status_prefix pending in let (r, s') = list prefix s in (ids_of prefix r, s')

  unfoldable pub get_pending : Text → Action State StoreError Bytes
  get_pending id = get (report_key pending id)

  -- after the Put of the copy: drop the source
  unfoldable pub after_put :
      Status → Status → Text → Result StoreError Done → State → Result LifecycleError Done × State
  after_put from to id (err e) s = (err (write_failed to e), s)
  after_put from to id (ok _) s =
      let (r, s') = delete (report_key from id) s in (wrap (delete_failed from) r, s')

  -- the source is absent: an earlier attempt is at the destination, or the id is unknown
  unfoldable pub settled :
      Text → Result StoreError Bytes → State → Result LifecycleError Done × State
  settled id (ok _) s = (ok tt, s)
  settled id (err _) s = (err (unknown_report id), s)

  unfoldable pub after_get :
      Status → Status → Text → Result StoreError Bytes → State → Result LifecycleError Done × State
  unfolding after_put settled
  after_get from to id (ok data') s =
      let (r, s') = put (report_key to id) data' s in after_put from to id r s'
  after_get from to id (err not_found) s = let (r, s') = get (report_key to id) s in settled id r s'
  after_get from to id (err e) s = (err (read_failed from e), s)

  unfoldable pub transition : Status → Status → Text → Action State LifecycleError Done
  unfolding after_get
  transition from to id s = let (r, s') = get (report_key from id) s in after_get from to id r s'

  unfoldable pub mark_removed : Text → Action State LifecycleError Done
  mark_removed = transition pending removed

  unfoldable pub mark_published : Text → Action State LifecycleError Done
  mark_published = transition pending published
