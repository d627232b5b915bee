-- ===== src/Lifecycle/Removal.antt =====
-- A report that has been marked leaves the pending set; the others stay in it.
use libre_mail_bug_report_in.Prelude.{
  ◌≡◌, ◌≢◌, ◌↔◌, ◌∙◌, inl, sym, Option, none, some, List, ok, In,
}
use libre_mail_bug_report_in.Prelude.Text.{Text}
use libre_mail_bug_report_in.Storage.Status.{
  Status, pending, removed, published, report_key, report_key_injective,
}
use libre_mail_bug_report_in.Storage.Store.{Bytes, ObjectStore, StoreLaws}
use libre_mail_bug_report_in.Lifecycle.{transition, list_pending, mark_removed, mark_published}
use libre_mail_bug_report_in.Lifecycle.Moves.{report_key_ne}
use libre_mail_bug_report_in.Lifecycle.Faults.{transition_ok, transition_elsewhere}
use libre_mail_bug_report_in.Lifecycle.Pending.{In-list_pending}

module _ (S : ObjectStore) (contents : S.State → Text → Option Bytes) (laws : StoreLaws S contents)
    (id : Text) (d : Bytes) (s : S.State)
    (stored : contents s (report_key pending id) ≡ some d) where
  gone :
      (to : Status)
      → pending ≢ to
      → (transition S pending to id s).0 ≡ ok tt
      → contents (transition S pending to id s).1 (report_key pending id) ≡ none
  gone to distinct done =
      (transition_ok S contents laws pending to id distinct d s (inl stored) done).1

  kept :
      (to : Status) (j : Text)
      → pending ≢ to
      → j ≢ id
      → contents (transition S pending to id s).1 (report_key pending j)
        ≡ contents s (report_key pending j)
  kept to j distinct ne =
      transition_elsewhere S contents laws pending to id distinct s (report_key pending j)
        (λ e. ne (sym (report_key_injective pending pending id j e).1))
        (λ e. report_key_ne to pending id j (λ x. distinct (sym x)) e)

  transition-list_pending :
      (to : Status) (ids : List Text) (j : Text)
      → pending ≢ to
      → (transition S pending to id s).0 ≡ ok tt
      → (list_pending S (transition S pending to id s).1).0 ≡ ok ids
      → In j ids ↔ ((j ≢ id) × (contents s (report_key pending j) ≢ none))
  transition-list_pending to ids j distinct done listed =
      let s' : S.State = (transition S pending to id s).1 in
      let listing : In j ids ↔ (contents s' (report_key pending j) ≢ none) =
        In-list_pending S contents laws s' ids j listed in
      (
        λ m.
            let ne : j ≢ id = λ e. listing.0 m (rw e (gone to distinct done)) in
            (ne, λ absent. listing.0 m (kept to j distinct ne ∙ absent)),
        λ h. listing.1 (λ absent. h.1 (sym (kept to j distinct h.0) ∙ absent)),
      )

  -- After MarkRemoved of a pending report has reported success, a listing that succeeds holds an id
  -- exactly when it is another report's and that report was pending before.
  pub mark_removed-list_pending :
      (ids : List Text) (j : Text)
      → (mark_removed S id s).0 ≡ ok tt
      → (list_pending S (mark_removed S id s).1).0 ≡ ok ids
      → In j ids ↔ ((j ≢ id) × (contents s (report_key pending j) ≢ none))
  unfolding mark_removed
  mark_removed-list_pending ids j = transition-list_pending removed ids j (λ e. cc)

  -- After MarkPublished of a pending report has reported success, a listing that succeeds holds an
  -- id exactly when it is another report's and that report was pending before.
  pub mark_published-list_pending :
      (ids : List Text) (j : Text)
      → (mark_published S id s).0 ≡ ok tt
      → (list_pending S (mark_published S id s).1).0 ≡ ok ids
      → In j ids ↔ ((j ≢ id) × (contents s (report_key pending j) ≢ none))
  unfolding mark_published
  mark_published-list_pending ids j = transition-list_pending published ids j (λ e. cc)
