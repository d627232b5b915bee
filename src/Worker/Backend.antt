-- ===== src/Worker/Backend.antt =====
-- worker/admin.go and WorkerSink.Store of internal/storage/worker_sink_wasm.go: the admin backend and
-- the ingest sink, which find the R2 bucket and the secrets anew on each request. The object store is
-- one part of the state; resolving the binding and reading a secret are the runtime's.
pub mod Stored
use libre_mail_bug_report_in.Prelude.{◌≡◌, refl, Result, ok, err, Done, Action, wrap}
use libre_mail_bug_report_in.Prelude.Text.{Text, codes}
use libre_mail_bug_report_in.Storage.Store.{Bytes, ObjectStore}
use libre_mail_bug_report_in.Crypto.Keyring.{Keyring, KeyringError}
use libre_mail_bug_report_in.Crypto.Primitive.{Aead}
use libre_mail_bug_report_in.Storage.Sink.{Host, SinkError, store, WorkerSink, load_keyring}
use libre_mail_bug_report_in.Handler.Admin.{
  AdminBackend, BackendError, other, manager_backend, from_lifecycle,
}
use libre_mail_bug_report_in.Lifecycle

abbrev pub admin_token_binding : Text
admin_token_binding = codes "ADMIN_TOKEN"

module _ {R E : Type 0} (S : ObjectStore) (new_r2_store : Action (S.State × R) E Done)
    (read_secret : Text → Action (S.State × R) E Text) where
  -- an operation of the Manager, on the store's part of the state
  unfoldable pub on_store :
      {A : Type 0} → Action S.State BackendError A → Action (S.State × R) BackendError A
  on_store call w = let (r, s) = call w.0 in (r, (s, w.1))

  -- managerForRequest, and the call of the Manager behind it
  unfoldable pub after_manager :
      {A : Type 0}
      → Action S.State BackendError A
      → Result E Done
      → Action (S.State × R) BackendError A
  unfolding on_store
  after_manager call (err e) w = (err other, w)
  after_manager call (ok manager) w = on_store call w

  unfoldable pub with_manager :
      {A : Type 0} → Action S.State BackendError A → Action (S.State × R) BackendError A
  unfolding after_manager
  with_manager call w = let (r, w') = new_r2_store w in after_manager call r w'

  unfoldable pub worker_token : Action (S.State × R) BackendError Text
  worker_token w = let (r, w') = read_secret admin_token_binding w in (wrap (λ e. other) r, w')

  abbrev pub worker_admin_backend : AdminBackend (S.State × R)
  worker_admin_backend = record {
    admin_token = worker_token;
    list_pending =
        with_manager (λ s. let (r, s') = Lifecycle.list_pending S s in (from_lifecycle r, s'));
    mark_removed = λ id.
        with_manager (λ s. let (r, s') = Lifecycle.mark_removed S id s in (from_lifecycle r, s'));
  }

  -- Where the binding resolves and this leaves the store as it is, the Worker's backend lists and removes
  -- as the one with a Manager that is made at the start, on the store's part of the state.
  pub worker_admin_backend-manager_backend :
      (token id : Text) (w w' : S.State × R)
      → new_r2_store w ≡ (ok tt, w')
      → w'.0 ≡ w.0
      → (worker_admin_backend.list_pending w
          ≡ on_store (manager_backend S token).list_pending (w.0, w'.1))
        × (worker_admin_backend.mark_removed id w
            ≡ on_store ((manager_backend S token).mark_removed id) (w.0, w'.1))
  unfolding with_manager after_manager on_store
  worker_admin_backend-manager_backend token id w w' bound same =
      (rw (bound, same) refl, rw (bound, same) refl)

pub data WorkerSinkError (E : Type 0) : Type 0 where
  load_failed r2_binding : E → WorkerSinkError E
  store_failed : SinkError → WorkerSinkError E

module _ {R E : Type 0} (host : Host R) (primitive : Aead) (scrub : Bytes → Bytes) (S : ObjectStore)
    (new_r2_store : Action (S.State × R) E Done) (get_secret : Action (S.State × R) E Bytes)
    (parse_keyring : Bytes → Result KeyringError Keyring) (bad_keyring : KeyringError → E) where
  abbrev pub Kept : Type 0
  Kept = WorkerSink get_secret parse_keyring bad_keyring

  unfoldable pub after_bucket :
      Keyring → Bytes → Result E Done → Action Kept (WorkerSinkError E) Done
  after_bucket kr raw (err e) w = (err (r2_binding e), w)
  after_bucket kr raw (ok bucket) w =
      let (r, world) = store host primitive scrub S kr raw w.world in
      (wrap store_failed r, record w { world = world })

  unfoldable pub after_load : Bytes → Result E Keyring → Action Kept (WorkerSinkError E) Done
  unfolding after_bucket
  after_load raw (err e) w = (err (load_failed e), w)
  after_load raw (ok kr) w =
      let (r, world) = new_r2_store w.world in after_bucket kr raw r (record w { world = world })

  unfoldable pub worker_store : Bytes → Action Kept (WorkerSinkError E) Done
  unfolding after_load
  worker_store raw w =
      let (r, w') = load_keyring get_secret parse_keyring bad_keyring w in after_load raw r w'
