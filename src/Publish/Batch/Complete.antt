-- ===== src/Publish/Batch/Complete.antt =====
-- internal/publish/publish.go: what a run without errors has done.
use libre_mail_bug_report_in.Prelude.{
  ℕ, ◌≡◌, ◌∙◌, inl, inr, refl, Option, none, some, List, [], ◌∷◌, ◌++◌, Result, ok, err, arith, In,
  wrap, Done,
}
use libre_mail_bug_report_in.Prelude.Text.{Text}
use libre_mail_bug_report_in.Storage.Status.{pending, published, report_key}
use libre_mail_bug_report_in.Storage.Store.{Bytes, StoreError, ObjectStore, StoreLaws}
use libre_mail_bug_report_in.Lifecycle.{get_pending, mark_published}
use libre_mail_bug_report_in.Lifecycle.Faults.{transition_ok}
use libre_mail_bug_report_in.Publish.Client.Requests.{CreatedIssue, label_names}
use libre_mail_bug_report_in.Publish.Batch.{
  IssueCreator, ReportError, PublishError, on_published_failed, after_create, after_open,
  after_fetch, publish_one, unless_cancelled, publish_each, publish, capped, tally, label_errors,
}
use libre_mail_bug_report_in.Publish.Batch.Wired.{Job, wired, publish_one_keeps, publish_each_keeps}
use libre_mail_bug_report_in.Publish.Batch.Marks.{
  pending-ne-published, wrap_ok, IsHeld, IsPublished, get_same, mark-Held, get-Held, mark-Moved,
}

module _ (S : ObjectStore) (contents : S.State → Text → Option Bytes)
    (laws : StoreLaws S contents) where
  module _ {G E : Type 0} (gh : IssueCreator G E) (job : Job (S.State × G) E) where
    after_create-Moved :
        (id : Text) (r : Result E CreatedIssue) (w : S.State × G) (d : Bytes)
        → IsHeld S contents laws id d w.0
        → (after_create (wired S gh job) id r w).0 ≡ ok tt
        → IsPublished S contents laws id d (after_create (wired S gh job) id r w).1.0
    unfolding after_create mark_published
    after_create-Moved id (err e) w d held h = cc
    after_create-Moved id (ok issue) w d held h =
        transition_ok S contents laws pending published id pending-ne-published d w.0 held (
          wrap_ok job.lifecycle_error (mark_published S id w.0).0 (
            wrap_ok (on_published_failed issue.html_url)
              (wrap job.lifecycle_error (mark_published S id w.0).0) h))

    after_open-Moved :
        (id : Text) (names : List Text) (r : Result E Bytes) (w : S.State × G) (d : Bytes)
        → IsHeld S contents laws id d w.0
        → (after_open (wired S gh job) id names r w).0 ≡ ok tt
        → IsPublished S contents laws id d (after_open (wired S gh job) id names r w).1.0
    unfolding after_open
    after_open-Moved id names (err e) w d held h = cc
    after_open-Moved id names (ok plaintext) w d held h =
        let (title, body) = job.format_issue id plaintext in
        let (r, g) = gh.create_issue title body names w.1 in
        after_create-Moved id r (w.0, g) d held h

    after_fetch-Moved :
        (id : Text) (names : List Text) (r : Result StoreError Bytes) (w : S.State × G) (d : Bytes)
        → IsHeld S contents laws id d w.0
        → (after_fetch (wired S gh job) id names (wrap job.store_error r) w).0 ≡ ok tt
        → IsPublished S contents laws id d
            (after_fetch (wired S gh job) id names (wrap job.store_error r) w).1.0
    unfolding after_fetch
    after_fetch-Moved id names (err e) w d held h = cc
    after_fetch-Moved id names (ok frame) w d held h =
        after_open-Moved id names (job.open_frame frame) w d held h

    publish_one-Moved :
        (id : Text) (names : List Text) (w : S.State × G) (d : Bytes)
        → IsHeld S contents laws id d w.0
        → (publish_one (wired S gh job) id names w).0 ≡ ok tt
        → IsPublished S contents laws id d (publish_one (wired S gh job) id names w).1.0
    unfolding publish_one get_pending
    publish_one-Moved id names w d held h =
        after_fetch-Moved id names (S.get (report_key pending id) w.0).0
          ((S.get (report_key pending id) w.0).1, w.1) d
          (get-Held S contents laws (report_key pending id) id d w.0 held) h

    tally_nil :
        (id : Text) (r : Result (ReportError E) Done) (rest : ℕ × List (PublishError E))
        → (tally (wired S gh job) id r rest).1 ≡ []
        → (r ≡ ok tt) × (rest.1 ≡ [])
    unfolding tally
    tally_nil id (ok tt) rest h = (refl, h)
    tally_nil id (err e) rest h = cc

    unless_cancelled_nil :
        (o : Option E) (w : S.State × G) (rest : (ℕ × List (PublishError E)) × (S.State × G))
        → (unless_cancelled (wired S gh job) o w rest).0.1 ≡ []
        → unless_cancelled (wired S gh job) o w rest ≡ rest
    unfolding unless_cancelled
    unless_cancelled_nil (some e) w rest h = cc
    unless_cancelled_nil none w rest h = refl

    publish_each-Moved :
        (names ids : List Text) (w : S.State × G) (j : Text) (d : Bytes)
        → IsHeld S contents laws j d w.0
        → In j ids
        → (publish_each (wired S gh job) names ids w).0.1 ≡ []
        → IsPublished S contents laws j d (publish_each (wired S gh job) names ids w).1.0
    unfolding publish_each
    publish_each-Moved names [] w j d held m h = absurd m
    publish_each-Moved names (id ∷ ids) w j d held m h =
        let (r, w1) = publish_one (wired S gh job) id names w in
        let (rest, w2) = publish_each (wired S gh job) names ids w1 in
        let live : unless_cancelled (wired S gh job) (job.ctx_err w) w
              (tally (wired S gh job) id r rest, w2)
            ≡ (tally (wired S gh job) id r rest, w2) =
          unless_cancelled_nil (job.ctx_err w) w (tally (wired S gh job) id r rest, w2) h in
        let (done, nil) = tally_nil id r rest (rw live at h) in
        rw live (elim m [
          | inl e ↦
              publish_each_keeps S gh job (IsPublished S contents laws j d) names ids w1
                (λ i _. (
                  (λ s q. (
                    get_same S contents laws (report_key pending i) (report_key published j) s
                        ∙ q.0,
                    get_same S contents laws (report_key pending i) (report_key pending j) s ∙ q.1,
                  )),
                  λ s q. mark-Moved S contents laws i j d s q,
                ))
                (rw e (publish_one-Moved id names w d (rw e at held) done))
          | inr m' ↦
              publish_each-Moved names ids w1 j d
                (publish_one_keeps S gh job (IsHeld S contents laws j d) id names w
                  (
                    (λ s q. get-Held S contents laws (report_key pending id) j d s q),
                    λ s q. mark-Held S contents laws id j d s q,
                  )
                  held)
                m' nil
        ])

    append_nil : {A : Type 0} (xs ys : List A) → xs ++ ys ≡ [] → ys ≡ []
    append_nil [] ys h = h
    append_nil (x ∷ xs) ys h = cc

    -- Over a store whose calls may fail at any point: where a run returns no error, every report of
    -- its batch that was pending has its bytes at its published key and nothing at its pending one.
    pub publish_nil-Moved :
        (ids : List Text) (w : S.State × G) (j : Text) (d : Bytes)
        → contents w.0 (report_key pending j) ≡ some d
        → In j (capped (wired S gh job) ids)
        → (publish (wired S gh job) ids w).0.errors ≡ []
        → IsPublished S contents laws j d (publish (wired S gh job) ids w).1.0
    unfolding publish
    publish_nil-Moved [] w j d held m h = absurd (empty_batch m)
      where
        empty_batch : In j (capped (wired S gh job) []) → ⊥
        empty_batch m = ground arith
    publish_nil-Moved (id ∷ ids) w j d held m h =
        let (r, g) = gh.ensure_labels job.labels w.1 in
        publish_each-Moved (label_names job.labels) (capped (wired S gh job) (id ∷ ids)) (w.0, g) j
          d (inl held) m
          (append_nil (label_errors (wired S gh job) r)
            (publish_each (wired S gh job) (label_names job.labels)
              (capped (wired S gh job) (id ∷ ids)) (w.0, g)).0.1
            h)
