-- ===== src/Publish/Batch/Outcomes.antt =====
-- internal/publish/publish.go: what any run over the lifecycle does to the reports.
use libre_mail_bug_report_in.Prelude.{◌≡◌, ◌∙◌, inl, refl, Option, some, List, In}
use libre_mail_bug_report_in.Prelude.Text.{Text}
use libre_mail_bug_report_in.Storage.Status.{Status, pending, report_key}
use libre_mail_bug_report_in.Storage.Store.{Bytes, ObjectStore, StoreLaws}
use libre_mail_bug_report_in.Publish.Batch.{IssueCreator, publish, capped}
use libre_mail_bug_report_in.Publish.Batch.Wired.{Job, wired, publish_keeps}
use libre_mail_bug_report_in.Publish.Batch.Marks.{IsHeld, get_same, mark_other, mark-Held, get-Held}

module _ (S : ObjectStore) (contents : S.State → Text → Option Bytes)
    (laws : StoreLaws S contents) where
  module _ {G E : Type 0} (gh : IssueCreator G E) (job : Job (S.State × G) E) where
    -- Over a store whose calls may fail at any point, and whatever GitHub answers: after a run, the
    -- bytes of every report that was pending are still at its pending key, or they are at its
    -- published key and the pending one is empty.
    pub publish-Held :
        (ids : List Text) (w : S.State × G) (j : Text) (d : Bytes)
        → contents w.0 (report_key pending j) ≡ some d
        → IsHeld S contents laws j d (publish (wired S gh job) ids w).1.0
    publish-Held ids w j d h =
        publish_keeps S gh job (IsHeld S contents laws j d) ids w
          (λ id m. (
            (λ s q. get-Held S contents laws (report_key pending id) j d s q),
            λ s q. mark-Held S contents laws id j d s q,
          ))
          (inl h)

    -- A run leaves the object of a report that is not in its batch, beyond the cap or not listed, as
    -- it was under every status.
    pub publish_elsewhere :
        (ids : List Text) (w : S.State × G) (j : Text) (st : Status)
        → ¬ (In j (capped (wired S gh job) ids))
        → contents (publish (wired S gh job) ids w).1.0 (report_key st j)
          ≡ contents w.0 (report_key st j)
    publish_elsewhere ids w j st h =
        publish_keeps S gh job (λ s. contents s (report_key st j) ≡ contents w.0 (report_key st j))
          ids w
          (λ id m. (
            (λ s q. get_same S contents laws (report_key pending id) (report_key st j) s ∙ q),
            λ s q. mark_other S contents laws id j st s (λ same. h (rw (← same) m)) ∙ q,
          ))
          refl
