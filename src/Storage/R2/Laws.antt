-- ===== src/Storage/R2/Laws.antt =====
-- R2Store over a bucket that keeps its documented promises: the paging ends and lists every key, and
-- the store keeps the laws of the seam.
use libre_mail_bug_report_in.Prelude.{
  ℕ, zero, suc, ◌≤◌, ◌<◌, ◌≡◌, ◌≢◌, ◌↔◌, ◌⊎◌, inl, inr, sym, ap, Option, none, some, List, [], ◌++◌,
  true, false, Result, ok, err, In, IsOrdered, arith, length, length-append, Result-cases,
  Bool-cases,
}
use libre_mail_bug_report_in.Prelude.Text.{Text, has_prefix}
use libre_mail_bug_report_in.Storage.Store.{Bytes, TextLe}
use libre_mail_bug_report_in.Storage.R2.{
  Page, Bucket, list_options, ListOptions, with_keys, list_pages,
}

-- `contents s k` is the object at key `k`, `left s p c` the keys of prefix `p` from cursor `c` on.
-- A page that is not the last one holds a key, and its cursor continues behind it.
pub record BucketLaws (B : Bucket) (contents : B.Contents → Text → Option Bytes)
    (left : B.Contents → Text → Text → List Text) : Type 0 where
  pub put_done :
      (k : Text) (d : Bytes) (s : B.Contents)
      → (B.bucket_put k d s).0 ≡ ok tt
      → contents (B.bucket_put k d s).1 k ≡ some d
  pub put_either :
      (k : Text) (d : Bytes) (s : B.Contents)
      → (contents (B.bucket_put k d s).1 k ≡ contents s k)
        ⊎ (contents (B.bucket_put k d s).1 k ≡ some d)
  pub put_others :
      (k j : Text) (d : Bytes) (s : B.Contents)
      → k ≢ j
      → contents (B.bucket_put k d s).1 j ≡ contents s j
  pub get_body :
      (k : Text) (s : B.Contents) (d : Bytes)
      → (B.bucket_get k s).0 ≡ ok (some (ok d))
      → contents s k ≡ some d
  pub get_absent :
      (k : Text) (s : B.Contents) → (B.bucket_get k s).0 ≡ ok none → contents s k ≡ none
  pub get_reads : (k j : Text) (s : B.Contents) → contents (B.bucket_get k s).1 j ≡ contents s j
  pub delete_done :
      (k : Text) (s : B.Contents)
      → (B.bucket_delete k s).0 ≡ ok tt
      → contents (B.bucket_delete k s).1 k ≡ none
  pub delete_either :
      (k : Text) (s : B.Contents)
      → (contents (B.bucket_delete k s).1 k ≡ contents s k)
        ⊎ (contents (B.bucket_delete k s).1 k ≡ none)
  pub delete_others :
      (k j : Text) (s : B.Contents) → k ≢ j → contents (B.bucket_delete k s).1 j ≡ contents s j
  pub page_reads :
      (o : ListOptions) (j : Text) (s : B.Contents)
      → contents (B.bucket_list o s).1 j ≡ contents s j
  pub page_leaves :
      (o : ListOptions) (p c : Text) (s : B.Contents) → left (B.bucket_list o s).1 p c ≡ left s p c
  pub page_continues :
      (p c : Text) (s : B.Contents) (page : Page)
      → (B.bucket_list (list_options p c) s).0 ≡ ok page
      → page.truncated ≡ true
      → (1 ≤ length page.objects) × (left s p c ≡ page.objects ++ left s p page.cursor)
  pub page_last :
      (p c : Text) (s : B.Contents) (page : Page)
      → (B.bucket_list (list_options p c) s).0 ≡ ok page
      → page.truncated ≡ false
      → left s p c ≡ page.objects
  pub left_exact :
      (s : B.Contents) (p k : Text)
      → In k (left s p []) ↔ ((has_prefix k p ≡ true) × (contents s k ≢ none))
  pub left_ordered : (s : B.Contents) (p : Text) → IsOrdered TextLe (left s p [])

module _ (B : Bucket) (contents : B.Contents → Text → Option Bytes)
    (left : B.Contents → Text → Text → List Text) (laws : BucketLaws B contents left) where
  -- A result, which is the keys where it is not an error.
  abbrev pub Lists : List Text → Option (Result ℕ (List Text)) → Type 0
  Lists keys none = ⊥
  Lists keys (some (err e)) = Unit
  Lists keys (some (ok found)) = found ≡ keys

  with_keys-Lists :
      (keys more : List Text) (r : Option (Result ℕ (List Text))) (s : B.Contents)
      → Lists more r
      → Lists (keys ++ more) (with_keys B keys (r, s)).0
  unfolding with_keys
  with_keys-Lists keys more none s h = absurd h
  with_keys-Lists keys more (some (err e)) s h = tt
  with_keys-Lists keys more (some (ok found)) s h = ap (λ x. keys ++ x) h

  -- From a cursor with fewer keys behind it than there is fuel, the paging ends: with an error, or
  -- with exactly those keys.
  pub list_pages-Lists :
      (fuel : ℕ) (p cursor : Text) (s : B.Contents)
      → length (left s p cursor) < fuel
      → Lists (left s p cursor) (list_pages B fuel p cursor s).0
  unfolding list_pages
  list_pages-Lists zero p cursor s h = absurd (omega arith)
  list_pages-Lists (suc fuel) p cursor s h =
      elim (Result-cases (B.bucket_list (list_options p cursor) s).0) [
        | inr (e, failed) ↦ rw (failed, list_pages) tt
        | inl (page, answer) ↦ elim (Bool-cases page.truncated) [
          | inr last ↦
              rw (answer, list_pages, last) (sym (laws.page_last p cursor s page answer last))
          | inl more ↦
              let s' = (B.bucket_list (list_options p cursor) s).1 in
              let (some_key, split) = laws.page_continues p cursor s page answer more in
              let same = laws.page_leaves (list_options p cursor) p page.cursor s in
              let shorter : length (left s' p page.cursor) < fuel = rw same (
                let l = ap length split in
                omega (arith, length-append page.objects (left s p page.cursor))) in
              let rest = list_pages-Lists fuel p page.cursor s' shorter in
              rw (answer, list_pages, more, split)
                (with_keys-Lists page.objects (left s p page.cursor) _ _ (rw same at rest))
        ]
      ]
