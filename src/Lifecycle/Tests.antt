-- ===== src/Lifecycle/Tests.antt =====
-- The lifecycle on concrete stores.
use libre_mail_bug_report_in.Prelude.{◌≡◌, ◌≢◌, ◌↔◌, refl, none, some, [], ◌∷◌, ok, In, false}
use libre_mail_bug_report_in.Prelude.Text.{
  Text, codes, has_prefix, trim_prefix, text_eq, text_eq_iff, text_le,
}
use libre_mail_bug_report_in.Storage.Status.{pending, removed, report_key}
use libre_mail_bug_report_in.Storage.Store.{Bytes}
use libre_mail_bug_report_in.Storage.Memory.{
  MemoryStore, lookup, put, get, list, delete, memory_object_store,
}
use libre_mail_bug_report_in.Storage.Memory.Laws.{memory_contents, memory_store-StoreLaws}
use libre_mail_bug_report_in.Lifecycle.{
  transition, trim_all, list_pending, mark_removed, mark_published,
}
use libre_mail_bug_report_in.Lifecycle.Moves.{Held, Moved}
use libre_mail_bug_report_in.Lifecycle.Faults.{attempts, attempts-Held, attempts-Moved}
use libre_mail_bug_report_in.Lifecycle.Pending.{In-list_pending}

abbrev first_id : Text
first_id = codes "20260101T000000-aa"

abbrev second_id : Text
second_id = codes "20260102T000000-bb"

abbrev frame : Bytes
frame = 1 ∷ 2 ∷ 3 ∷ []

abbrev two_reports : MemoryStore
two_reports = record {
  objects = (report_key pending second_id, frame) ∷ (report_key pending first_id, frame) ∷ [];
}

listed_in_order : (list_pending memory_object_store two_reports).0 ≡ ok (first_id ∷ second_id ∷ [])
unfolding list_pending list report_key trim_all has_prefix text_le trim_prefix
listed_in_order = refl

first_stored : lookup (report_key pending first_id) two_reports.objects ≡ some frame
unfolding lookup report_key text_eq
first_stored = refl

absent_elsewhere : lookup (report_key pending (codes "x")) two_reports.objects ≡ none
unfolding lookup report_key text_eq
absent_elsewhere = refl

texts_differ : text_eq first_id second_id ≡ false
unfolding text_eq
texts_differ = refl

first-ne-second : first_id ≢ second_id
first-ne-second e = cc ((text_eq_iff first_id second_id).1 e, texts_differ)

pending-ne-removed : pending ≢ removed
pending-ne-removed = λ e. cc

removed_at_once : (mark_removed memory_object_store first_id two_reports).0 ≡ ok tt
unfolding mark_removed transition put get delete
removed_at_once = rw first_stored refl

published_at_once : (mark_published memory_object_store first_id two_reports).0 ≡ ok tt
unfolding mark_published transition put get delete
published_at_once = rw first_stored refl

-- A second attempt finds the source empty and the destination filled, and succeeds.
removed_again :
    (transition memory_object_store pending removed first_id
      (attempts memory_object_store pending removed first_id 1 two_reports)).0
    ≡ ok tt
unfolding attempts transition put get delete lookup report_key text_eq
removed_again = refl

attempts-Held_example :
    Held memory_object_store memory_contents memory_store-StoreLaws pending removed first_id frame
      (attempts memory_object_store pending removed first_id 3 two_reports)
attempts-Held_example =
    attempts-Held memory_object_store memory_contents memory_store-StoreLaws pending removed
      first_id pending-ne-removed 3 frame two_reports first_stored

attempts-Moved_example :
    Moved memory_object_store memory_contents memory_store-StoreLaws pending removed first_id frame
      (attempts memory_object_store pending removed first_id 2 two_reports)
attempts-Moved_example =
    attempts-Moved memory_object_store memory_contents memory_store-StoreLaws pending removed
      first_id pending-ne-removed 1 frame two_reports first_stored removed_again

In-list_pending_example :
    In first_id (first_id ∷ second_id ∷ [])
    ↔ (memory_contents two_reports (report_key pending first_id) ≢ none)
In-list_pending_example =
    In-list_pending memory_object_store memory_contents memory_store-StoreLaws two_reports
      (first_id ∷ second_id ∷ []) first_id listed_in_order

listed_after_removal :
    (list_pending memory_object_store (mark_removed memory_object_store first_id two_reports).1).0
    ≡ ok (second_id ∷ [])
unfolding mark_removed transition put get delete lookup report_key text_eq list_pending list
    trim_all has_prefix text_le trim_prefix
listed_after_removal = refl

listed_after_publication :
    (list_pending memory_object_store (mark_published memory_object_store first_id two_reports).1).0
    ≡ ok (second_id ∷ [])
unfolding mark_published transition put get delete lookup report_key text_eq list_pending list
    trim_all has_prefix text_le trim_prefix
listed_after_publication = refl
