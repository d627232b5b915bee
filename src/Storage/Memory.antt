-- ===== src/Storage/Memory.antt =====
-- internal/storage/memory.go: the in-memory store. The Go map is an association list with one
-- entry to a key; the program never depends on the order of a map's iteration. The mutex makes
-- each method one step, so a method is a function of the state.
mod Sorting
mod Lookup
pub mod Laws
use libre_mail_bug_report_in.Prelude.{
  ℕ, Option, none, some, List, [], ◌∷◌, Bool, true, false, not, Result, ok, err, length, map,
  if◌then◌else◌, Done,
}
use libre_mail_bug_report_in.Prelude.Text.{Text, text_eq, text_le, has_prefix}
use libre_mail_bug_report_in.Storage.Store.{Bytes, StoreError, not_found, ObjectStore}

abbrev pub Entry : Type 0
Entry = Text × Bytes

pub record MemoryStore : Type 0 where
  pub objects : List Entry

unfoldable pub new_memory_store : MemoryStore
new_memory_store = record { objects = [] }

-- m[k], as `data, ok := m[k]`
unfoldable pub lookup : Text → List Entry → Option Bytes
lookup k [] = none
lookup k ((j, d) ∷ m) = if text_eq j k then some d else lookup k m

-- delete(m, k)
unfoldable pub without : Text → List Entry → List Entry
without k [] = []
without k ((j, d) ∷ m) = let rest = without k m in if text_eq j k then rest else (j, d) ∷ rest

unfoldable pub put : Text → Bytes → MemoryStore → Result StoreError Done × MemoryStore
unfolding without
put k d m = (ok tt, record { objects = (k, d) ∷ without k m.objects })

or_not_found : Option Bytes → Result StoreError Bytes
or_not_found none = err not_found
or_not_found (some d) = ok d

unfoldable pub get : Text → MemoryStore → Result StoreError Bytes × MemoryStore
unfolding lookup or_not_found
get k m = (or_not_found (lookup k m.objects), m)

-- the loop of List over the map's keys
unfoldable pub matching : Text → List Entry → List Text
matching p [] = []
matching p ((k, d) ∷ m) = let rest = matching p m in if has_prefix k p then k ∷ rest else rest

insert_sorted : Text → List Text → List Text
insert_sorted k [] = k ∷ []
insert_sorted k (j ∷ ks) = if text_le k j then k ∷ j ∷ ks else j ∷ insert_sorted k ks

-- sort.Strings
unfoldable pub sort_texts : List Text → List Text
unfolding insert_sorted
sort_texts [] = []
sort_texts (k ∷ ks) = insert_sorted k (sort_texts ks)

unfoldable pub list : Text → MemoryStore → Result StoreError (List Text) × MemoryStore
unfolding matching sort_texts
list p m = (ok (sort_texts (matching p m.objects)), m)

unfoldable pub delete : Text → MemoryStore → Result StoreError Done × MemoryStore
unfolding without
delete k m = (ok tt, record { objects = without k m.objects })

unfoldable pub keys : MemoryStore → List Text
unfolding sort_texts
keys m = sort_texts (map (λ e. e.0) m.objects)

unfoldable pub len : MemoryStore → ℕ
len m = length m.objects

-- the ObjectStore that a *MemoryStore is
abbrev pub memory_object_store : ObjectStore
memory_object_store = record {
  State = MemoryStore;
  put = put;
  get = get;
  list = list;
  delete = delete;
}
