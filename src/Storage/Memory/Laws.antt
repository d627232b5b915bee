-- ===== src/Storage/Memory/Laws.antt =====
-- The in-memory store keeps the promises of the object store seam.
use libre_mail_bug_report_in.Prelude.{◌≡◌, ◌≢◌, inr, refl, List, Option, none, some, ok, err, arith}
use libre_mail_bug_report_in.Prelude.Text.{Text, text_eq_iff, text_eq_refl}
use libre_mail_bug_report_in.Storage.Store.{Bytes, not_found, ObjectStore, StoreLaws}
use libre_mail_bug_report_in.Storage.Memory.{
  MemoryStore, lookup, matching, sort_texts, put, get, list, delete, or_not_found,
  memory_object_store,
}
use libre_mail_bug_report_in.Storage.Memory.Lookup.{lookup-without, In-matching, matching-In}
use libre_mail_bug_report_in.Storage.Memory.Sorting.{
  In-sort_texts, sort_texts-In, IsOrdered-sort_texts,
}

abbrev pub memory_contents : MemoryStore → Text → Option Bytes
memory_contents m k = lookup k m.objects

or_not_found_ok : (o : Option Bytes) (d : Bytes) → or_not_found o ≡ ok d → o ≡ some d
unfolding or_not_found
or_not_found_ok o d h = ground arith

or_not_found_err : (o : Option Bytes) → or_not_found o ≡ err not_found → o ≡ none
unfolding or_not_found
or_not_found_err o h = ground arith

lookup-put :
    (k j : Text) (d : Bytes) (m : MemoryStore)
    → k ≢ j
    → lookup j (put k d m).1.objects ≡ lookup j m.objects
unfolding put lookup
lookup-put k j d m h = ground (arith, lookup-without k j m.objects, text_eq_iff k j)

lookup-put_self : (k : Text) (d : Bytes) (m : MemoryStore) → lookup k (put k d m).1.objects ≡ some d
unfolding put lookup
lookup-put_self k d m = rw (text_eq_refl k)

lookup-delete_self : (k : Text) (m : MemoryStore) → lookup k (delete k m).1.objects ≡ none
unfolding delete
lookup-delete_self k m = rw (lookup-without k k m.objects) (rw (text_eq_refl k))

lookup-delete :
    (k j : Text) (m : MemoryStore) → k ≢ j → lookup j (delete k m).1.objects ≡ lookup j m.objects
unfolding delete
lookup-delete k j m h = ground (arith, lookup-without k j m.objects, text_eq_iff k j)

list_members :
    (p : Text) (m : MemoryStore) (keys : List Text)
    → (list p m).0 ≡ ok keys
    → keys ≡ sort_texts (matching p m.objects)
unfolding list
list_members p m keys h = cc

-- What the documentation of ObjectStore promises beside StoreLaws, where the store itself cannot
-- fail: a Get answers with the object, or with ErrNotFound where there is none; every Put, List and
-- Delete succeeds, also a Delete of an absent key.
pub record Infallible (S : ObjectStore) (contents : S.State → Text → Option Bytes) : Type 0 where
  pub get_present :
      (k : Text) (s : S.State) (d : Bytes) → contents s k ≡ some d → (S.get k s).0 ≡ ok d
  pub get_absent : (k : Text) (s : S.State) → contents s k ≡ none → (S.get k s).0 ≡ err not_found
  pub put_succeeds : (k : Text) (d : Bytes) (s : S.State) → (S.put k d s).0 ≡ ok tt
  pub delete_succeeds : (k : Text) (s : S.State) → (S.delete k s).0 ≡ ok tt
  pub list_succeeds : (p : Text) (s : S.State) → (keys : List Text) × ((S.list p s).0 ≡ ok keys)

-- MemoryStore keeps the laws of the seam: reads return the last write, a write or a delete at one key
-- leaves the others, and a listing is exactly the present keys with the prefix, in ascending order.
pub memory_store-StoreLaws : StoreLaws memory_object_store memory_contents
memory_store-StoreLaws = record {
  get_ok = λ k s d h. unfold get in or_not_found_ok (lookup k s.objects) d h;
  get_not_found = λ k s h. unfold get in or_not_found_err (lookup k s.objects) h;
  get_keeps = λ k j s. unfold get in refl;
  put_ok = λ k d s _. lookup-put_self k d s;
  put_old_or_new = λ k d s. inr (lookup-put_self k d s);
  put_other = λ k j d s h. lookup-put k j d s h;
  delete_ok = λ k s _. lookup-delete_self k s;
  delete_old_or_none = λ k s. inr (lookup-delete_self k s);
  delete_other = λ k j s h. lookup-delete k j s h;
  list_exact = λ p s keys h k. rw (list_members p s keys h) (
    λ m. In-matching k p s.objects (In-sort_texts k _ m),
    λ m. sort_texts-In k _ (matching-In k p s.objects m.0 m.1),
  );
  list_ordered = λ p s keys h. rw (list_members p s keys h) (IsOrdered-sort_texts _);
  list_keeps = λ p j s. unfold list in refl;
}

or_not_found-some : (o : Option Bytes) (d : Bytes) → o ≡ some d → or_not_found o ≡ ok d
unfolding or_not_found
or_not_found-some o d h = rw h refl

or_not_found-none : (o : Option Bytes) → o ≡ none → or_not_found o ≡ err not_found
unfolding or_not_found
or_not_found-none o h = rw h refl

-- MemoryStore implements ObjectStore: reads return the last write, and ErrNotFound where there is no
-- object; a write or a delete succeeds, a delete of an absent key too, does its work at its key and
-- leaves the others; a listing succeeds and is exactly the present keys with the prefix, in ascending
-- order.
pub memory_store-Implements :
    StoreLaws memory_object_store memory_contents × Infallible memory_object_store memory_contents
memory_store-Implements = (
  memory_store-StoreLaws,
  record {
    get_present = λ k s d h. unfold get in or_not_found-some (lookup k s.objects) d h;
    get_absent = λ k s h. unfold get in or_not_found-none (lookup k s.objects) h;
    put_succeeds = λ k d s. unfold put in refl;
    delete_succeeds = λ k s. unfold delete in refl;
    list_succeeds = λ p s. unfold list in (sort_texts (matching p s.objects), refl);
  },
)
