-- ===== src/Lifecycle/Pending.antt =====
-- ListPending, over any store that keeps the laws: exactly the pending reports, oldest first.
use libre_mail_bug_report_in.Prelude.{
  ◌≡◌, ◌≢◌, ◌↔◌, ◌∙◌, inl, inr, refl, sym, Option, none, List, [], ◌∷◌, ◌++◌, Result, ok, err, true,
  In, All, All-In, IsOrdered,
}
use libre_mail_bug_report_in.Prelude.Text.{
  Text, has_prefix, trim_prefix, trim_prefix-append, append-trim_prefix, text_le_append,
}
use libre_mail_bug_report_in.Storage.Status.{
  pending, status_prefix, report_key, has_prefix-report_key,
}
use libre_mail_bug_report_in.Storage.Store.{Bytes, StoreError, ObjectStore, StoreLaws, TextLe}
use libre_mail_bug_report_in.Lifecycle.{ids_of, trim_all, list_pending}

abbrev HasPrefix : Text → Text → Type 0
HasPrefix p k = has_prefix k p ≡ true

In-trim_all :
    (p id : Text) (ks : List Text) → All (HasPrefix p) ks → In id (trim_all p ks) ↔ In (p ++ id) ks
unfolding trim_all
In-trim_all p id [] h = (λ m. m, λ m. m)
In-trim_all p id (k ∷ ks) h = (
  λ m. elim m [
    | inl e ↦ inl (rw e (append-trim_prefix k p h.0))
    | inr rest ↦ inr ((In-trim_all p id ks h.1).0 rest)
  ],
  λ m. elim m [
    | inl e ↦ inl (rw (← e) (sym (trim_prefix-append p id)))
    | inr rest ↦ inr ((In-trim_all p id ks h.1).1 rest)
  ],
)

trim-TextLe :
    (p a b : Text)
    → HasPrefix p a
    → HasPrefix p b
    → TextLe a b
    → TextLe (trim_prefix a p) (trim_prefix b p)
trim-TextLe p a b ha hb h =
    sym (text_le_append p (trim_prefix a p) (trim_prefix b p))
    ∙ (rw (append-trim_prefix a p ha, append-trim_prefix b p hb) h)

trim_all-All :
    (p a : Text) (ks : List Text)
    → HasPrefix p a
    → All (HasPrefix p) ks
    → All (TextLe a) ks
    → All (TextLe (trim_prefix a p)) (trim_all p ks)
unfolding trim_all
trim_all-All p a [] ha h hs = tt
trim_all-All p a (k ∷ ks) ha h hs = (trim-TextLe p a k ha h.0 hs.0, trim_all-All p a ks ha h.1 hs.1)

IsOrdered-trim_all :
    (p : Text) (ks : List Text)
    → All (HasPrefix p) ks
    → IsOrdered TextLe ks
    → IsOrdered TextLe (trim_all p ks)
unfolding trim_all
IsOrdered-trim_all p [] h o = tt
IsOrdered-trim_all p (k ∷ ks) h o =
    (trim_all-All p k ks h.0 h.1 o.0, IsOrdered-trim_all p ks h.1 o.1)

module _ (S : ObjectStore) (contents : S.State → Text → Option Bytes)
    (laws : StoreLaws S contents) where
  ids_of_ok :
      (p : Text) (r : Result StoreError (List Text)) (ids : List Text)
      → ids_of S p r ≡ ok ids
      → (keys : List Text) × (r ≡ ok keys) × (trim_all p keys ≡ ids)
  unfolding ids_of
  ids_of_ok p (ok keys) ids h = (keys, refl, cc)
  ids_of_ok p (err e) ids h = cc

  keys_prefixed :
      (p : Text) (s : S.State) (keys : List Text)
      → (S.list p s).0 ≡ ok keys
      → All (HasPrefix p) keys
  keys_prefixed p s keys h =
      All-In (HasPrefix p) keys (λ k m. ((laws.list_exact p s keys h k).0 m).0)

  -- A listing that succeeds holds an id exactly when the store has an object under that report's
  -- pending key, whatever other objects are stored.
  pub In-list_pending :
      (s : S.State) (ids : List Text) (id : Text)
      → (list_pending S s).0 ≡ ok ids
      → In id ids ↔ (contents s (report_key pending id) ≢ none)
  unfolding list_pending report_key
  In-list_pending s ids id h =
      let p = status_prefix pending in
      let (keys, e, t) = ids_of_ok p (S.list p s).0 ids h in
      let prefixed : All (HasPrefix p) keys = keys_prefixed p s keys e in
      rw (← t) (
        λ m. ((laws.list_exact p s keys e (p ++ id)).0 ((In-trim_all p id keys prefixed).0 m)).1,
        λ present. (In-trim_all p id keys prefixed).1 (
            (laws.list_exact p s keys e (p ++ id)).1
              ((has_prefix-report_key pending pending id).1 refl, present)),
      )

  -- The ids of a listing that succeeds are in ascending order, so the oldest report is first.
  pub IsOrdered-list_pending :
      (s : S.State) (ids : List Text) → (list_pending S s).0 ≡ ok ids → IsOrdered TextLe ids
  unfolding list_pending
  IsOrdered-list_pending s ids h =
      let p = status_prefix pending in
      let (keys, e, t) = ids_of_ok p (S.list p s).0 ids h in
      rw (← t) (IsOrdered-trim_all p keys (keys_prefixed p s keys e) (laws.list_ordered p s keys e))
