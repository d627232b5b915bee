-- ===== src/Storage/Store.antt =====
-- internal/storage/store.go: the object store seam. Every operation may fail; the laws say what the
-- documentation of ObjectStore promises, and that a call which failed on one key has left that key
-- as it was or done its work, and every other key alone.
use libre_mail_bug_report_in.Prelude.{
  ℕ, ◌≡◌, ◌≢◌, ◌↔◌, ◌⊎◌, Option, none, some, List, true, ok, err, In, IsOrdered, Done, Action,
}
use libre_mail_bug_report_in.Prelude.Text.{Text, text_le, has_prefix}

abbrev pub Bytes : Type 0
Bytes = List ℕ

-- ErrNotFound, or any other error of the backend
pub data StoreError : Type 0 where
  not_found : StoreError
  backend : ℕ → StoreError

pub record ObjectStore : Type 1 where
  pub State : Type 0
  pub put : Text → Bytes → Action State StoreError Done
  pub get : Text → Action State StoreError Bytes
  pub list : Text → Action State StoreError (List Text)
  pub delete : Text → Action State StoreError Done

abbrev pub TextLe : Text → Text → Type 0
TextLe a b = text_le a b ≡ true

-- `contents s k` is the object at key `k`, if there is one.
pub record StoreLaws (S : ObjectStore) (contents : S.State → Text → Option Bytes) : Type 0 where
  pub get_ok : (k : Text) (s : S.State) (d : Bytes) → (S.get k s).0 ≡ ok d → contents s k ≡ some d
  pub get_not_found : (k : Text) (s : S.State) → (S.get k s).0 ≡ err not_found → contents s k ≡ none
  pub get_keeps : (k j : Text) (s : S.State) → contents (S.get k s).1 j ≡ contents s j
  pub put_ok :
      (k : Text) (d : Bytes) (s : S.State)
      → (S.put k d s).0 ≡ ok tt
      → contents (S.put k d s).1 k ≡ some d
  pub put_old_or_new :
      (k : Text) (d : Bytes) (s : S.State)
      → (contents (S.put k d s).1 k ≡ contents s k) ⊎ (contents (S.put k d s).1 k ≡ some d)
  pub put_other :
      (k j : Text) (d : Bytes) (s : S.State) → k ≢ j → contents (S.put k d s).1 j ≡ contents s j
  pub delete_ok :
      (k : Text) (s : S.State) → (S.delete k s).0 ≡ ok tt → contents (S.delete k s).1 k ≡ none
  pub delete_old_or_none :
      (k : Text) (s : S.State)
      → (contents (S.delete k s).1 k ≡ contents s k) ⊎ (contents (S.delete k s).1 k ≡ none)
  pub delete_other : (k j : Text) (s : S.State) → k ≢ j → contents (S.delete k s).1 j ≡ contents s j
  pub list_exact :
      (p : Text) (s : S.State) (keys : List Text)
      → (S.list p s).0 ≡ ok keys
      → (k : Text) → In k keys ↔ ((has_prefix k p ≡ true) × (contents s k ≢ none))
  pub list_ordered :
      (p : Text) (s : S.State) (keys : List Text) → (S.list p s).0 ≡ ok keys → IsOrdered TextLe keys
  pub list_keeps : (p j : Text) (s : S.State) → contents (S.list p s).1 j ≡ contents s j
