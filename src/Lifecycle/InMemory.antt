-- ===== src/Lifecycle/InMemory.antt =====
-- The Manager over the in-memory store, whose calls never fail.
use libre_mail_bug_report_in.Prelude.{◌≡◌, refl, none, some, ok, err, arith}
use libre_mail_bug_report_in.Prelude.Text.{Text}
use libre_mail_bug_report_in.Storage.Status.{Status, report_key}
use libre_mail_bug_report_in.Storage.Store.{Bytes}
use libre_mail_bug_report_in.Storage.Memory.{
  MemoryStore, lookup, put, get, delete, memory_object_store,
}
use libre_mail_bug_report_in.Lifecycle.{transition, unknown_report}

-- A transition of a stored report never fails, and is the Put of its bytes under the destination
-- key followed by the Delete of the source key.
pub transition_in_memory :
    (from to : Status) (id : Text) (d : Bytes) (m : MemoryStore)
    → lookup (report_key from id) m.objects ≡ some d
    → transition memory_object_store from to id m
      ≡ (ok tt, (delete (report_key from id) (put (report_key to id) d m).1).1)
unfolding transition get put delete
transition_in_memory from to id d m h = rw h refl

-- A transition of an id that is at neither key answers ErrUnknownReport with that id, and leaves
-- the store as it was; of an id that is at the destination only, it succeeds and leaves the store.
pub transition_not_pending :
    (from to : Status) (id : Text) (m : MemoryStore)
    → lookup (report_key from id) m.objects ≡ none
    → transition memory_object_store from to id m ≡ (
      elim (lookup (report_key to id) m.objects) [
        | none ↦ err (unknown_report id)
        | some d ↦ ok tt
      ],
      m,
    )
unfolding transition get
transition_not_pending from to id m h = rw h (ground arith)
