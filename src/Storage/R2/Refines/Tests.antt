-- ===== src/Storage/R2/Refines/Tests.antt =====
-- R2Store over a bucket that keeps its objects in memory and answers a listing of two keys or more
-- in two pages.
use libre_mail_bug_report_in.Prelude.{
  ℕ, suc, ◌≤◌, ◌≡◌, refl, ap, subst, Option, none, some, List, [], ◌∷◌, ◌++◌, true, false, Result,
  ok, err, arith, length,
}
use libre_mail_bug_report_in.Prelude.Text.{Text, codes, has_prefix, text_eq, text_le}
use libre_mail_bug_report_in.Storage.Store.{Bytes, StoreError, not_found, backend, StoreLaws}
use libre_mail_bug_report_in.Storage.Memory.{
  MemoryStore, put, get, delete, matching, sort_texts, new_memory_store, list,
}
use libre_mail_bug_report_in.Storage.Memory.Laws.{memory_store-StoreLaws, memory_contents}
use libre_mail_bug_report_in.Storage.R2.{
  set_cursor, list_pages, Page, Bucket, r2_list, r2_store, list_options,
}
use libre_mail_bug_report_in.Storage.R2.Laws.{BucketLaws, Lists, list_pages-Lists}
use libre_mail_bug_report_in.Storage.R2.Refines.{AnswersAsBucket, r2_store-Implements}

abbrev sorted : MemoryStore → Text → List Text
sorted m p = sort_texts (matching p m.objects)

abbrev behind_first : List Text → List Text
behind_first [] = []
behind_first (k ∷ ks) = ks

abbrev page_at : Option Text → List Text → Page
page_at none [] = record { objects = []; truncated = false; cursor = [] }
page_at none (k ∷ []) = record { objects = k ∷ []; truncated = false; cursor = [] }
page_at none (k ∷ j ∷ ks) = record { objects = k ∷ []; truncated = true; cursor = codes "next" }
page_at (some c) ks = record { objects = behind_first ks; truncated = false; cursor = [] }

abbrev left : MemoryStore → Text → Text → List Text
left m p [] = sorted m p
left m p (c ∷ cs) = behind_first (sorted m p)

body : Result StoreError Bytes → Result ℕ (Option (Result ℕ Bytes))
body (ok d) = ok (some (ok d))
body (err not_found) = ok none
body (err (backend e)) = err e

abbrev bucket : Bucket
bucket = record {
  Contents = MemoryStore;
  bucket_put = λ k d m. (ok tt, (put k d m).1);
  bucket_get = λ k m. (body (get k m).0, m);
  bucket_list = λ o m. (ok (page_at o.from_cursor (sorted m o.prefix)), m);
  bucket_delete = λ k m. (ok tt, (delete k m).1);
}

body_some : (r : Result StoreError Bytes) (d : Bytes) → body r ≡ ok (some (ok d)) → r ≡ ok d
unfolding body
body_some (ok x) d h = cc
body_some (err not_found) d h = cc
body_some (err (backend e)) d h = cc

body_none : (r : Result StoreError Bytes) → body r ≡ ok none → r ≡ err not_found
unfolding body
body_none (ok x) h = cc
body_none (err not_found) h = refl
body_none (err (backend e)) h = cc

MorePages : Text → List Text → MemoryStore → Text → Page → Type 0
MorePages c ks m p page =
    page.truncated ≡ true
    → (1 ≤ length page.objects) × (left m p c ≡ page.objects ++ left m p page.cursor)

more_pages :
    (c : Text) (ks : List Text) (m : MemoryStore) (p : Text)
    → sorted m p ≡ ks
    → MorePages c ks m p (page_at (set_cursor c) ks)
unfolding MorePages
more_pages [] [] m p e t = cc
more_pages [] (k ∷ []) m p e t = cc
more_pages [] (k ∷ j ∷ ks) m p e t = (omega arith, rw e refl)
more_pages (c ∷ cs) ks m p e t = cc

LastPage : Text → List Text → MemoryStore → Text → Page → Type 0
LastPage c ks m p page = page.truncated ≡ false → left m p c ≡ page.objects

last_page :
    (c : Text) (ks : List Text) (m : MemoryStore) (p : Text)
    → sorted m p ≡ ks
    → LastPage c ks m p (page_at (set_cursor c) ks)
unfolding LastPage
last_page [] [] m p e t = e
last_page [] (k ∷ []) m p e t = e
last_page [] (k ∷ j ∷ ks) m p e t = cc
last_page (c ∷ cs) ks m p e t = ap behind_first e

ok_is : (a b : Page) → Path (Result ℕ Page) (ok a) (ok b) → a ≡ b
ok_is a b h = cc

bucket_keeps : BucketLaws bucket memory_contents left
unfolding list list_options put delete MorePages LastPage
bucket_keeps =
    let laws = memory_store-StoreLaws in
    record {
      put_done = λ k d m h. laws.put_ok k d m refl;
      put_either = λ k d m. laws.put_old_or_new k d m;
      put_others = λ k j d m h. laws.put_other k j d m h;
      get_body = λ k m d h. laws.get_ok k m d (body_some (get k m).0 d h);
      get_absent = λ k m h. laws.get_not_found k m (body_none (get k m).0 h);
      get_reads = λ k j m. refl;
      delete_done = λ k m h. laws.delete_ok k m refl;
      delete_either = λ k m. laws.delete_old_or_none k m;
      delete_others = λ k j m h. laws.delete_other k j m h;
      page_reads = λ o j m. refl;
      page_leaves = λ o p c m. refl;
      page_continues = λ p c m page h t.
          subst (MorePages c (sorted m p) m p) (ok_is _ page h) (more_pages c (sorted m p) m p refl)
            t;
      page_last = λ p c m page h t.
          subst (LastPage c (sorted m p) m p) (ok_is _ page h) (last_page c (sorted m p) m p refl)
            t;
      left_exact = λ m p k. laws.list_exact p m (sorted m p) refl k;
      left_ordered = λ m p. laws.list_ordered p m (sorted m p) refl;
    }

-- fuel for the keys of a listing
abbrev keys_fuel : MemoryStore → Text → ℕ
keys_fuel m p = suc (length (sorted m p))

r2_store-Implements_example :
    StoreLaws (r2_store bucket keys_fuel) memory_contents
    × AnswersAsBucket bucket memory_contents left bucket_keeps keys_fuel (λ m p. omega arith)
r2_store-Implements_example =
    r2_store-Implements bucket memory_contents left bucket_keeps keys_fuel (λ m p. omega arith)

abbrev two_objects : MemoryStore
two_objects = (put (codes "b") (2 ∷ []) (put (codes "a") (1 ∷ []) new_memory_store).1).1

list_pages-Lists_example :
    Lists bucket memory_contents left bucket_keeps
      (left two_objects [] [])
      (list_pages bucket (keys_fuel two_objects []) [] [] two_objects).0
list_pages-Lists_example =
    list_pages-Lists bucket memory_contents left bucket_keeps (keys_fuel two_objects []) [] []
      two_objects (omega arith)

two_pages :
    r2_list bucket
      (λ m p. 5)
      []
      (put (codes "b") (2 ∷ []) (put (codes "a") (1 ∷ []) new_memory_store).1).1
    ≡ (
      ok (codes "a" ∷ codes "b" ∷ []),
      (put (codes "b") (2 ∷ []) (put (codes "a") (1 ∷ []) new_memory_store).1).1,
    )
unfolding r2_list put matching sort_texts has_prefix text_eq new_memory_store text_le
two_pages = refl
