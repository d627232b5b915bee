-- ===== src/Storage/R2.antt =====
-- internal/storage/r2_wasm.go: R2Store, an object store over a bucket of the runtime. The bucket's
-- operations, with the promise that `await` waits for, are the runtime's; errors are numbers. `list`
-- is called once for each page; the loop runs on fuel, which `Laws` proves to be enough.
pub mod Laws
pub mod Refines
use libre_mail_bug_report_in.Prelude.{
  ℕ, zero, suc, Option, none, some, List, [], ◌∷◌, ◌++◌, Bool, true, false, Result, ok, err, Done,
  Action,
}
use libre_mail_bug_report_in.Prelude.Text.{Text}
use libre_mail_bug_report_in.Storage.Store.{Bytes, StoreError, not_found, backend, ObjectStore}

-- one answer of the bucket's list
pub record Page : Type 0 where
  pub objects : List Text
  pub truncated : Bool
  pub cursor : Text

pub record ListOptions : Type 0 where
  pub prefix : Text
  pub limit : ℕ
  pub from_cursor : Option Text

pub record Bucket : Type 1 where
  pub Contents : Type 0
  pub bucket_put : Text → Bytes → Action Contents ℕ Done
  -- no object, or its body, the reading of which may fail
  pub bucket_get : Text → Action Contents ℕ (Option (Result ℕ Bytes))
  pub bucket_list : ListOptions → Action Contents ℕ Page
  pub bucket_delete : Text → Action Contents ℕ Done

unfoldable pub backend_error : {A : Type 0} → Result ℕ A → Result StoreError A
backend_error (ok a) = ok a
backend_error (err e) = err (backend e)

abbrev pub set_cursor : Text → Option Text
set_cursor [] = none
set_cursor (c ∷ cs) = some (c ∷ cs)

unfoldable pub list_options : Text → Text → ListOptions
list_options p cursor = record { prefix = p; limit = 1000; from_cursor = set_cursor cursor }

module _ (B : Bucket) where
  unfoldable pub r2_put : Text → Bytes → Action B.Contents StoreError Done
  unfolding backend_error
  r2_put key data_ s = let (r, s') = B.bucket_put key data_ s in (backend_error r, s')

  unfoldable pub read_body : Result ℕ (Option (Result ℕ Bytes)) → Result StoreError Bytes
  unfolding backend_error
  read_body (err e) = err (backend e)
  read_body (ok none) = err not_found
  read_body (ok (some body)) = backend_error body

  unfoldable pub r2_get : Text → Action B.Contents StoreError Bytes
  unfolding read_body
  r2_get key s = let (r, s') = B.bucket_get key s in (read_body r, s')

  unfoldable pub r2_delete : Text → Action B.Contents StoreError Done
  unfolding backend_error
  r2_delete key s = let (r, s') = B.bucket_delete key s in (backend_error r, s')

  unfoldable pub with_keys :
      List Text
      → Option (Result ℕ (List Text)) × B.Contents
      → Option (Result ℕ (List Text)) × B.Contents
  with_keys keys (some (ok more), s) = (some (ok (keys ++ more)), s)
  with_keys keys (some (err e), s) = (some (err e), s)
  with_keys keys (none, s) = (none, s)

  -- the pages from a cursor on; no result where the fuel runs out
  unfoldable pub list_pages :
      ℕ → Text → Text → B.Contents → Option (Result ℕ (List Text)) × B.Contents
  unfolding list_options with_keys
  list_pages zero p cursor s = (none, s)
  list_pages (suc fuel) p cursor s =
      let (r, s') = B.bucket_list (list_options p cursor) s in
      elim r [
        | err e ↦ (some (err e), s')
        | ok page ↦ elim page.truncated [
          | true ↦ with_keys page.objects (list_pages fuel p page.cursor s')
          | false ↦ (some (ok page.objects), s')
        ]
      ]

  unfoldable pub listed_keys : Option (Result ℕ (List Text)) → Result StoreError (List Text)
  unfolding backend_error
  listed_keys none = err (backend 0)
  listed_keys (some r) = backend_error r

  unfoldable pub r2_list : (B.Contents → Text → ℕ) → Text → Action B.Contents StoreError (List Text)
  unfolding list_pages listed_keys
  r2_list fuel p s = let (r, s') = list_pages (fuel s p) p [] s in (listed_keys r, s')

  abbrev pub r2_store : (B.Contents → Text → ℕ) → ObjectStore
  r2_store fuel = record {
    State = B.Contents;
    put = r2_put;
    get = r2_get;
    list = r2_list fuel;
    delete = r2_delete;
  }
