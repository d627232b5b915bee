-- ===== src/Publish/Batch/Wired.antt =====
-- The Publisher over the lifecycle of an object store whose calls may fail, as New and
-- WithMarkPublished wire it: GitHub's side `G` and the store are separate parts of the state.
use libre_mail_bug_report_in.Prelude.{
  ℕ, inl, inr, refl, Option, none, some, List, [], ◌∷◌, Result, ok, err, In, wrap,
}
use libre_mail_bug_report_in.Prelude.Text.{Text}
use libre_mail_bug_report_in.Storage.Status.{pending, report_key}
use libre_mail_bug_report_in.Storage.Store.{Bytes, StoreError, ObjectStore}
use libre_mail_bug_report_in.Lifecycle.{LifecycleError, get_pending, mark_published}
use libre_mail_bug_report_in.Publish.Client.Requests.{Label, CreatedIssue, label_names}
use libre_mail_bug_report_in.Publish.Batch.{
  IssueCreator, Publisher, PublishError, after_create, after_open, after_fetch, publish_one,
  unless_cancelled, publish_each, publish, capped, tally,
}

-- what the job has beside the store and GitHub
pub record Job (W E : Type 0) : Type 0 where
  pub store_error : StoreError → E
  pub lifecycle_error : LifecycleError → E
  pub open_frame : Bytes → Result E Bytes
  pub format_issue : Text → Bytes → Text × Text
  pub ctx_err : W → Option E
  pub labels : List Label
  pub max_per_run : ℕ

module _ (S : ObjectStore) {G E : Type 0} (gh : IssueCreator G E) (job : Job (S.State × G) E) where
  abbrev pub wired : Publisher (S.State × G) E
  wired = record {
    get_pending = λ id w. let (r, s) = get_pending S id w.0 in (wrap job.store_error r, (s, w.1));
    open_frame = job.open_frame;
    format_issue = job.format_issue;
    ensure_labels = λ labels w. let (r, g) = gh.ensure_labels labels w.1 in (r, (w.0, g));
    create_issue =
        λ title body labels w. let (r, g) = gh.create_issue title body labels w.1 in (r, (w.0, g));
    on_published =
        λ id w. let (r, s) = mark_published S id w.0 in (wrap job.lifecycle_error r, (s, w.1));
    ctx_err = job.ctx_err;
    labels = job.labels;
    max_per_run = job.max_per_run;
  }

  -- A property of the store that reading and marking a report keep is kept by a run.
  module _ (Q : S.State → Type 0) where
    abbrev pub Kept : Text → Type 0
    Kept id =
        ((s : S.State) → Q s → Q (S.get (report_key pending id) s).1)
        × ((s : S.State) → Q s → Q (mark_published S id s).1)

    after_create_keeps :
        (id : Text) (r : Result E CreatedIssue) (w : S.State × G)
        → Kept id
        → Q w.0
        → Q (after_create wired id r w).1.0
    unfolding after_create
    after_create_keeps id (err e) w kept q = q
    after_create_keeps id (ok issue) w kept q = kept.1 w.0 q

    after_open_keeps :
        (id : Text) (names : List Text) (r : Result E Bytes) (w : S.State × G)
        → Kept id
        → Q w.0
        → Q (after_open wired id names r w).1.0
    unfolding after_open
    after_open_keeps id names (err e) w kept q = q
    after_open_keeps id names (ok plaintext) w kept q =
        let (title, body) = job.format_issue id plaintext in
        let (r, g) = gh.create_issue title body names w.1 in after_create_keeps id r (w.0, g) kept q

    after_fetch_keeps :
        (id : Text) (names : List Text) (r : Result StoreError Bytes) (w : S.State × G)
        → Kept id
        → Q w.0
        → Q (after_fetch wired id names (wrap job.store_error r) w).1.0
    unfolding after_fetch
    after_fetch_keeps id names (err e) w kept q = q
    after_fetch_keeps id names (ok frame) w kept q =
        after_open_keeps id names (job.open_frame frame) w kept q

    pub publish_one_keeps :
        (id : Text) (names : List Text) (w : S.State × G)
        → Kept id
        → Q w.0
        → Q (publish_one wired id names w).1.0
    unfolding publish_one get_pending
    publish_one_keeps id names w kept q =
        after_fetch_keeps id names (S.get (report_key pending id) w.0).0
          ((S.get (report_key pending id) w.0).1, w.1) kept (kept.0 w.0 q)

    unless_cancelled_keeps :
        (o : Option E) (w : S.State × G) (rest : (ℕ × List (PublishError E)) × (S.State × G))
        → Q w.0
        → Q rest.1.0
        → Q (unless_cancelled wired o w rest).1.0
    unfolding unless_cancelled
    unless_cancelled_keeps (some e) w rest q q' = q
    unless_cancelled_keeps none w rest q q' = q'

    pub publish_each_keeps :
        (names ids : List Text) (w : S.State × G)
        → ((id : Text) → In id ids → Kept id)
        → Q w.0
        → Q (publish_each wired names ids w).1.0
    unfolding publish_each
    publish_each_keeps names [] w kept q = q
    publish_each_keeps names (id ∷ ids) w kept q =
        let (r, w1) = publish_one wired id names w in
        let (rest, w2) = publish_each wired names ids w1 in
        unless_cancelled_keeps (job.ctx_err w) w (tally wired id r rest, w2) q
          (publish_each_keeps names ids w1 (λ i m. kept i (inr m))
            (publish_one_keeps id names w (kept id (inl refl)) q))

    pub publish_keeps :
        (ids : List Text) (w : S.State × G)
        → ((id : Text) → In id (capped wired ids) → Kept id)
        → Q w.0
        → Q (publish wired ids w).1.0
    unfolding publish
    publish_keeps [] w kept q = q
    publish_keeps (id ∷ ids) w kept q =
        publish_each_keeps (label_names job.labels) (capped wired (id ∷ ids))
          (w.0, (gh.ensure_labels job.labels w.1).1) kept q
