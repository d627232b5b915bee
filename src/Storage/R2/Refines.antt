-- ===== src/Storage/R2/Refines.antt =====
-- R2Store implements the object store seam.
mod Tests
use libre_mail_bug_report_in.Prelude.{
  ℕ, zero, suc, ◌<◌, ◌≡◌, ◌≢◌, ◌↔◌, ◌⊎◌, inl, inr, refl, sym, ap, ◌∙◌, Option, none, some, List, [],
  ◌∷◌, ◌++◌, Bool, true, false, Result, ok, err, In, IsOrdered, Done, Action, arith, length,
  Result-cases, Bool-cases,
}
use libre_mail_bug_report_in.Prelude.Text.{Text, has_prefix}
use libre_mail_bug_report_in.Storage.Store.{
  Bytes, StoreError, not_found, backend, ObjectStore, StoreLaws, TextLe,
}
use libre_mail_bug_report_in.Storage.R2.{
  Page, Bucket, list_options, ListOptions, backend_error, read_body, with_keys, list_pages,
  listed_keys, r2_put, r2_get, r2_delete, r2_list, r2_store,
}
use libre_mail_bug_report_in.Storage.R2.Laws.{BucketLaws, Lists, list_pages-Lists}

backend_error_ok : {A : Type 0} (r : Result ℕ A) (a : A) → backend_error r ≡ ok a → r ≡ ok a
unfolding backend_error
backend_error_ok (ok b) a h = cc
backend_error_ok (err e) a h = cc

backend_error_found : {A : Type 0} (r : Result ℕ A) → backend_error r ≢ err not_found
unfolding backend_error
backend_error_found (ok b) h = cc
backend_error_found (err e) h = cc

-- What a Get returns for the bucket's answer: an absent object is ErrNotFound, and nothing else is.
pub data Read : Result ℕ (Option (Result ℕ Bytes)) → Result StoreError Bytes → Type 0 where
  retrieved : (d : Bytes) → Read (ok (some (ok d))) (ok d)
  absent : Read (ok none) (err not_found)
  unreadable : (e : ℕ) → Read (ok (some (err e))) (err (backend e))
  refused : (e : ℕ) → Read (err e) (err (backend e))

-- What a Put or a Delete returns for it: whatever the bucket accepts succeeds.
pub data Passed : Result ℕ Done → Result StoreError Done → Type 0 where
  accepted : Passed (ok tt) (ok tt)
  rejected : (e : ℕ) → Passed (err e) (err (backend e))

module _ (B : Bucket) (contents : B.Contents → Text → Option Bytes)
    (left : B.Contents → Text → Text → List Text) (laws : BucketLaws B contents left) where
  with_keys-state :
      (keys : List Text) (r : Option (Result ℕ (List Text)) × B.Contents)
      → (with_keys B keys r).1 ≡ r.1
  unfolding with_keys
  with_keys-state keys (some (ok more), s) = refl
  with_keys-state keys (some (err e), s) = refl
  with_keys-state keys (none, s) = refl

  list_pages_keeps :
      (fuel : ℕ) (p cursor j : Text) (s : B.Contents)
      → contents (list_pages B fuel p cursor s).1 j ≡ contents s j
  unfolding list_pages
  list_pages_keeps zero p cursor j s = refl
  list_pages_keeps (suc fuel) p cursor j s =
      let s' = (B.bucket_list (list_options p cursor) s).1 in
      let read = laws.page_reads (list_options p cursor) j s in
      elim (Result-cases (B.bucket_list (list_options p cursor) s).0) [
        | inr (e, failed) ↦ rw (failed, list_pages) read
        | inl (page, answer) ↦ elim (Bool-cases page.truncated) [
          | inr last ↦ rw (answer, list_pages, last) read
          | inl more ↦
              rw (answer, list_pages, more)
                (ap (λ x. contents x j)
                    (with_keys-state page.objects (list_pages B fuel p page.cursor s'))
                  ∙ (list_pages_keeps fuel p page.cursor j s' ∙ read))
        ]
      ]

  listed_keys-left :
      (keys found : List Text) (r : Option (Result ℕ (List Text)))
      → Lists B contents left laws keys r
      → listed_keys B r ≡ ok found
      → found ≡ keys
  unfolding listed_keys backend_error
  listed_keys-left keys found none h e = absurd h
  listed_keys-left keys found (some (err x)) h e = cc
  listed_keys-left keys found (some (ok more)) h e = cc

  module _ (fuel : B.Contents → Text → ℕ)
      (enough : (s : B.Contents) (p : Text) → length (left s p []) < fuel s p) where
    r2_list_keys :
        (p : Text) (s : B.Contents) (keys : List Text)
        → (r2_list B fuel p s).0 ≡ ok keys
        → keys ≡ left s p []
    unfolding r2_list
    r2_list_keys p s keys h =
        listed_keys-left (left s p []) keys _
          (list_pages-Lists B contents left laws (fuel s p) p [] s (enough s p)) h

    read_body_ok :
        (r : Result ℕ (Option (Result ℕ Bytes))) (d : Bytes)
        → read_body B r ≡ ok d
        → r ≡ ok (some (ok d))
    unfolding read_body
    read_body_ok (err e) d h = cc
    read_body_ok (ok none) d h = cc
    read_body_ok (ok (some body)) d h = ap (λ x. ok (some x)) (backend_error_ok body d h)

    read_body_absent :
        (r : Result ℕ (Option (Result ℕ Bytes))) → read_body B r ≡ err not_found → r ≡ ok none
    unfolding read_body
    read_body_absent (err e) h = cc
    read_body_absent (ok none) h = refl
    read_body_absent (ok (some body)) h = absurd (backend_error_found body h)

    -- Over a bucket that keeps its promises, R2Store keeps those of the object store seam. Its
    -- listing, page after page, ends whenever there is fuel for more than the keys that it lists.
    pub r2_store-StoreLaws : StoreLaws (r2_store B fuel) contents
    unfolding r2_put r2_get r2_delete r2_list
    r2_store-StoreLaws = record {
      get_ok = λ k s d h. laws.get_body k s d (read_body_ok (B.bucket_get k s).0 d h);
      get_not_found = λ k s h. laws.get_absent k s (read_body_absent (B.bucket_get k s).0 h);
      get_keeps = λ k j s. laws.get_reads k j s;
      put_ok = λ k d s h. laws.put_done k d s (backend_error_ok (B.bucket_put k d s).0 tt h);
      put_old_or_new = λ k d s. laws.put_either k d s;
      put_other = λ k j d s h. laws.put_others k j d s h;
      delete_ok = λ k s h. laws.delete_done k s (backend_error_ok (B.bucket_delete k s).0 tt h);
      delete_old_or_none = λ k s. laws.delete_either k s;
      delete_other = λ k j s h. laws.delete_others k j s h;
      list_exact = λ p s keys h k. rw (r2_list_keys p s keys h) (laws.left_exact s p k);
      list_ordered = λ p s keys h. rw (r2_list_keys p s keys h) (laws.left_ordered s p);
      list_keeps = λ p j s. list_pages_keeps (fuel s p) p [] j s;
    }

    read_body-Read : (r : Result ℕ (Option (Result ℕ Bytes))) → Read r (read_body B r)
    unfolding read_body backend_error
    read_body-Read (err e) = refused e
    read_body-Read (ok none) = absent
    read_body-Read (ok (some (err e))) = unreadable e
    read_body-Read (ok (some (ok d))) = retrieved d

    backend_error-Passed : (r : Result ℕ Done) → Passed r (backend_error r)
    unfolding backend_error
    backend_error-Passed (ok tt) = accepted
    backend_error-Passed (err e) = rejected e

    -- How the store answers where the bucket has answered.
    abbrev pub AnswersAsBucket : Type 0
    AnswersAsBucket =
        ((k : Text) (s : B.Contents) → Read (B.bucket_get k s).0 (r2_get B k s).0)
        × ((k : Text) (d : Bytes) (s : B.Contents)
            → Passed (B.bucket_put k d s).0 (r2_put B k d s).0)
        × ((k : Text) (s : B.Contents) → Passed (B.bucket_delete k s).0 (r2_delete B k s).0)

    -- Over a bucket that keeps its promises, R2Store keeps those of the object store seam, where there is
    -- fuel for more pages than there are keys to list; a Get returns ErrNotFound exactly where the
    -- bucket answers that there is no object, and a Put or a Delete succeeds exactly where the bucket
    -- accepts it.
    pub r2_store-Implements : StoreLaws (r2_store B fuel) contents × AnswersAsBucket
    unfolding r2_get r2_put r2_delete
    r2_store-Implements = (
      r2_store-StoreLaws,
      (
        λ k s. read_body-Read (B.bucket_get k s).0,
        λ k d s. backend_error-Passed (B.bucket_put k d s).0,
        λ k s. backend_error-Passed (B.bucket_delete k s).0,
      ),
    )
