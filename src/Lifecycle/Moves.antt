-- ===== src/Lifecycle/Moves.antt =====
-- What one transition does to the store, call by call, whatever it returns.
use libre_mail_bug_report_in.Prelude.{
  ◌≡◌, ◌≢◌, ◌⊎◌, inl, refl, Option, none, some, Result, ok, err, Done, arith,
}
use libre_mail_bug_report_in.Prelude.Text.{Text}
use libre_mail_bug_report_in.Storage.Status.{Status, report_key, report_key_injective}
use libre_mail_bug_report_in.Storage.Store.{Bytes, StoreError, ObjectStore, StoreLaws}
use libre_mail_bug_report_in.Lifecycle.{after_put}

pub report_key_ne : (s t : Status) (a b : Text) → s ≢ t → report_key s a ≢ report_key t b
report_key_ne s t a b h e = h (report_key_injective s t a b e).0

module _ (S : ObjectStore) (contents : S.State → Text → Option Bytes) (laws : StoreLaws S contents)
    (from to : Status) (id : Text) where
  -- The report `d` is in the source, or the move is complete.
  abbrev pub Held : Bytes → S.State → Type 0
  Held d s =
      (contents s (report_key from id) ≡ some d)
      ⊎ ((contents s (report_key to id) ≡ some d) × (contents s (report_key from id) ≡ none))

  -- The move is complete.
  abbrev pub Moved : Bytes → S.State → Type 0
  Moved d s = (contents s (report_key to id) ≡ some d) × (contents s (report_key from id) ≡ none)

  -- Every other key has the same object.
  abbrev pub SameElsewhere : S.State → S.State → Type 0
  SameElsewhere s t =
      (j : Text) → report_key from id ≢ j → report_key to id ≢ j → contents t j ≡ contents s j

  pub after_put-Held :
      (distinct : from ≢ to) (r : Result StoreError Done) (d : Bytes) (s : S.State)
      → contents s (report_key from id) ≡ some d
      → (r ≡ ok tt → contents s (report_key to id) ≡ some d)
      → Held d (after_put S from to id r s).1
  unfolding after_put
  after_put-Held distinct (err e) d s h k = inl h
  after_put-Held distinct (ok _) d s h k = ground (
    arith,
    k refl,
    laws.delete_old_or_none (report_key from id) s,
    laws.delete_other (report_key from id) (report_key to id) s
        (report_key_ne from to id id distinct),
  )

  pub after_put_ok :
      (distinct : from ≢ to) (r : Result StoreError Done) (d : Bytes) (s : S.State)
      → (r ≡ ok tt → contents s (report_key to id) ≡ some d)
      → (after_put S from to id r s).0 ≡ ok tt
      → Moved d (after_put S from to id r s).1
  unfolding after_put
  after_put_ok distinct (err e) d s k h = cc
  after_put_ok distinct (ok _) d s k h = ground (
    arith,
    k refl,
    laws.delete_ok (report_key from id) s,
    laws.delete_other (report_key from id) (report_key to id) s
        (report_key_ne from to id id distinct),
  )

  pub after_put-SameElsewhere :
      (r : Result StoreError Done) (s : S.State) → SameElsewhere s (after_put S from to id r s).1
  unfolding after_put
  after_put-SameElsewhere (err e) s j h k = refl
  after_put-SameElsewhere (ok _) s j h k = laws.delete_other (report_key from id) j s h
