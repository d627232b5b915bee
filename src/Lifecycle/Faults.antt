-- ===== src/Lifecycle/Faults.antt =====
-- Transitions over a store whose calls may fail at any point: nothing is lost, retries converge.
use libre_mail_bug_report_in.Prelude.{
  ℕ, zero, suc, ◌≡◌, ◌≢◌, ◌∙◌, inl, refl, sym, Option, none, some, Result, ok, err, arith,
}
use libre_mail_bug_report_in.Prelude.Text.{Text}
use libre_mail_bug_report_in.Storage.Status.{Status, report_key}
use libre_mail_bug_report_in.Storage.Store.{
  Bytes, StoreError, not_found, backend, ObjectStore, StoreLaws,
}
use libre_mail_bug_report_in.Lifecycle.{after_get, transition}
use libre_mail_bug_report_in.Lifecycle.Moves.{
  report_key_ne, Held, Moved, SameElsewhere, after_put-Held, after_put_ok, after_put-SameElsewhere,
}

-- A caller that retries: the transition is run `n` times, whatever each run returned.
unfoldable pub attempts : (S : ObjectStore) → Status → Status → Text → ℕ → S.State → S.State
attempts S from to id zero s = s
attempts S from to id (suc n) s = (transition S from to id (attempts S from to id n s)).1

module _ (S : ObjectStore) (contents : S.State → Text → Option Bytes) (laws : StoreLaws S contents)
    (from to : Status) (id : Text) (distinct : from ≢ to) where
  put-Held :
      (d : Bytes) (s : S.State)
      → contents s (report_key from id) ≡ some d
      → contents (S.put (report_key to id) d s).1 (report_key from id) ≡ some d
  put-Held d s h =
      laws.put_other (report_key to id) (report_key from id) d s
        (λ e. report_key_ne from to id id distinct (sym e))
      ∙ h

  -- from the state that the first Get has left
  after_get-Held :
      (r : Result StoreError Bytes) (d : Bytes) (s : S.State)
      → Held S contents laws from to id d s
      → ((d' : Bytes) → r ≡ ok d' → contents s (report_key from id) ≡ some d')
      → Held S contents laws from to id d (after_get S from to id r s).1
  unfolding after_get
  after_get-Held (ok d') d s held k =
      let found : contents s (report_key from id) ≡ some d' = k d' refl in
      let same : d' ≡ d = ground (arith, held) in
      rw same (
        after_put-Held S contents laws from to id distinct (S.put (report_key to id) d s).0 d
          (S.put (report_key to id) d s).1 (put-Held d s (found ∙ (rw same)))
          (laws.put_ok (report_key to id) d s))
  after_get-Held (err not_found) d s held k = ground (
    arith,
    held,
    laws.get_keeps (report_key to id) (report_key from id) s,
    laws.get_keeps (report_key to id) (report_key to id) s,
  )
  after_get-Held (err (backend e)) d s held k = held

  -- A report that is held stays held, whatever the store does.
  pub transition-Held :
      (d : Bytes) (s : S.State)
      → Held S contents laws from to id d s
      → Held S contents laws from to id d (transition S from to id s).1
  unfolding transition
  transition-Held d s held =
      after_get-Held (S.get (report_key from id) s).0 d (S.get (report_key from id) s).1
        (ground (
          arith,
          held,
          laws.get_keeps (report_key from id) (report_key from id) s,
          laws.get_keeps (report_key from id) (report_key to id) s,
        ))
        (λ d' e.
          laws.get_keeps (report_key from id) (report_key from id) s
          ∙ laws.get_ok (report_key from id) s d' e)

  after_get_ok :
      (r : Result StoreError Bytes) (d : Bytes) (s : S.State)
      → Held S contents laws from to id d s
      → ((d' : Bytes) → r ≡ ok d' → contents s (report_key from id) ≡ some d')
      → (r ≡ err not_found → contents s (report_key from id) ≡ none)
      → (after_get S from to id r s).0 ≡ ok tt
      → Moved S contents laws from to id d (after_get S from to id r s).1
  unfolding after_get
  after_get_ok (ok d') d s held k n h =
      let found : contents s (report_key from id) ≡ some d' = k d' refl in
      let same : d' ≡ d = ground (arith, held) in
      after_put_ok S contents laws from to id distinct (S.put (report_key to id) d' s).0 d
        (S.put (report_key to id) d' s).1 (λ e. laws.put_ok (report_key to id) d' s e ∙ rw same) h
  after_get_ok (err not_found) d s held k n h = ground (
    arith,
    held,
    n refl,
    laws.get_keeps (report_key to id) (report_key from id) s,
    laws.get_keeps (report_key to id) (report_key to id) s,
  )
  after_get_ok (err (backend e)) d s held k n h = cc

  -- A transition of a held report that reports success has completed the move.
  pub transition_ok :
      (d : Bytes) (s : S.State)
      → Held S contents laws from to id d s
      → (transition S from to id s).0 ≡ ok tt
      → Moved S contents laws from to id d (transition S from to id s).1
  unfolding transition
  transition_ok d s held =
      after_get_ok (S.get (report_key from id) s).0 d (S.get (report_key from id) s).1
        (ground (
          arith,
          held,
          laws.get_keeps (report_key from id) (report_key from id) s,
          laws.get_keeps (report_key from id) (report_key to id) s,
        ))
        (λ d' e.
          laws.get_keeps (report_key from id) (report_key from id) s
          ∙ laws.get_ok (report_key from id) s d' e)
        (λ e.
          laws.get_keeps (report_key from id) (report_key from id) s
          ∙ laws.get_not_found (report_key from id) s e)

  -- Over a store whose calls may fail at any point: after any number of attempts to move a stored
  -- report, whatever they returned, its bytes are at the source, or they are at the destination and
  -- the source is empty.
  pub attempts-Held :
      (n : ℕ) (d : Bytes) (s : S.State)
      → contents s (report_key from id) ≡ some d
      → Held S contents laws from to id d (attempts S from to id n s)
  unfolding attempts
  attempts-Held zero d s h = inl h
  attempts-Held (suc n) d s h =
      transition-Held d (attempts S from to id n s) (attempts-Held n d s h)

  -- After any number of attempts to move a stored report, each of which may have failed at any of
  -- its calls, an attempt that reports success leaves the report's bytes at the destination and
  -- nothing at the source.
  pub attempts-Moved :
      (n : ℕ) (d : Bytes) (s : S.State)
      → contents s (report_key from id) ≡ some d
      → (transition S from to id (attempts S from to id n s)).0 ≡ ok tt
      → Moved S contents laws from to id d (attempts S from to id (suc n) s)
  unfolding attempts
  attempts-Moved n d s h = transition_ok d (attempts S from to id n s) (attempts-Held n d s h)

  after_get-SameElsewhere :
      (r : Result StoreError Bytes) (s : S.State)
      → SameElsewhere S contents laws from to id s (after_get S from to id r s).1
  unfolding after_get
  after_get-SameElsewhere (ok d) s j h k =
      after_put-SameElsewhere S contents laws from to id (S.put (report_key to id) d s).0
        (S.put (report_key to id) d s).1 j h k
      ∙ laws.put_other (report_key to id) j d s k
  after_get-SameElsewhere (err not_found) s j h k =
      ground (arith, laws.get_keeps (report_key to id) j s)
  after_get-SameElsewhere (err (backend e)) s j h k = refl

  -- Whatever a transition returns, every key but the report's own two has the object it had.
  pub transition_elsewhere :
      (s : S.State) (j : Text)
      → report_key from id ≢ j
      → report_key to id ≢ j
      → contents (transition S from to id s).1 j ≡ contents s j
  unfolding transition
  transition_elsewhere s j h k =
      after_get-SameElsewhere (S.get (report_key from id) s).0 (S.get (report_key from id) s).1 j h
        k
      ∙ laws.get_keeps (report_key from id) j s

  after_get_absent :
      (r : Result StoreError Bytes) (s : S.State)
      → contents s (report_key from id) ≡ none
      → ((d : Bytes) → r ≡ ok d → contents s (report_key from id) ≡ some d)
      → (j : Text) → contents (after_get S from to id r s).1 j ≡ contents s j
  unfolding after_get
  after_get_absent (ok d) s h k j = let found = k d refl in cc
  after_get_absent (err not_found) s h k j = ground (arith, laws.get_keeps (report_key to id) j s)
  after_get_absent (err (backend e)) s h k j = refl

  -- A transition of a report that is not at the source changes nothing, whatever it returns.
  pub transition_absent :
      (s : S.State) (j : Text)
      → contents s (report_key from id) ≡ none
      → contents (transition S from to id s).1 j ≡ contents s j
  unfolding transition
  transition_absent s j h =
      after_get_absent (S.get (report_key from id) s).0 (S.get (report_key from id) s).1
        (laws.get_keeps (report_key from id) (report_key from id) s ∙ h)
        (λ d e.
          laws.get_keeps (report_key from id) (report_key from id) s
          ∙ laws.get_ok (report_key from id) s d e)
        j
      ∙ laws.get_keeps (report_key from id) j s
