-- ===== src/Publish/Batch.antt =====
-- internal/publish/publish.go: one run over a batch of pending ids. The collaborators of the
-- Publisher are parameters over a state `W`; its log lines and telemetry calls observe only, and the
-- numbers they report are the summary of the run.
pub mod Wired
pub mod Repo
pub mod Marks
pub mod Outcomes
pub mod Complete
pub mod Confirmed
mod Tests
use libre_mail_bug_report_in.Prelude.{
  ℕ, suc, ◌+◌, ◌-◌, Option, none, some, List, [], ◌∷◌, ◌++◌, Bool, true, false, not, ◌||◌, ◌&&◌,
  Result, ok, err, Done, Action, ltb, ◌==◌, if◌then◌else◌, length, take, wrap,
}
use libre_mail_bug_report_in.Prelude.Text.{Text, codes}
use libre_mail_bug_report_in.Prelude.Text.Spaces.{trim_space, is_empty}
use libre_mail_bug_report_in.Prelude.Text.Cut.{cut}
use libre_mail_bug_report_in.Ingest.Report.{Bytes}
use libre_mail_bug_report_in.Publish.Client.Requests.{Label, CreatedIssue, label_names}

abbrev pub default_max_per_run : ℕ
default_max_per_run = 50

pub data ReportError (E : Type 0) : Type 0 where
  get_pending_failed decrypt_failed create_issue_failed : E → ReportError E
  on_published_failed : Text → E → ReportError E

pub data PublishError (E : Type 0) : Type 0 where
  ensure_labels_failed : E → PublishError E
  report_failed : Text → ReportError E → PublishError E
  cancelled : E → PublishError E

-- The returned error (joined; empty for nil) and the numbers that the run reports.
pub record Summary (E : Type 0) : Type 0 where
  pub errors : List (PublishError E)
  pub published : ℕ
  pub attempted : ℕ
  pub deferred : ℕ

-- issueCreator
pub record IssueCreator (G E : Type 0) : Type 0 where
  pub ensure_labels : List Label → Action G E Done
  pub create_issue : Text → Text → List Text → Action G E CreatedIssue

-- The Publisher, with crypto.Open at its keyring and formatIssue.
pub record Publisher (W E : Type 0) : Type 0 where
  pub get_pending : Text → Action W E Bytes
  pub open_frame : Bytes → Result E Bytes
  pub format_issue : Text → Bytes → Text × Text
  pub ensure_labels : List Label → Action W E Done
  pub create_issue : Text → Text → List Text → Action W E CreatedIssue
  pub on_published : Text → Action W E Done
  -- ctx.Err()
  pub ctx_err : W → Option E
  pub labels : List Label
  -- 0 disables the cap
  pub max_per_run : ℕ

module _ {W E : Type 0} (p : Publisher W E) where
  unfoldable pub after_create : Text → Result E CreatedIssue → W → Result (ReportError E) Done × W
  after_create id (err e) w = (err (create_issue_failed e), w)
  after_create id (ok issue) w =
      let (r, w') = p.on_published id w in (wrap (on_published_failed issue.html_url) r, w')

  unfoldable pub after_open :
      Text → List Text → Result E Bytes → W → Result (ReportError E) Done × W
  unfolding after_create
  after_open id names (err e) w = (err (decrypt_failed e), w)
  after_open id names (ok plaintext) w =
      let (title, body) = p.format_issue id plaintext in
      let (r, w') = p.create_issue title body names w in after_create id r w'

  unfoldable pub after_fetch :
      Text → List Text → Result E Bytes → W → Result (ReportError E) Done × W
  unfolding after_open
  after_fetch id names (err e) w = (err (get_pending_failed e), w)
  after_fetch id names (ok frame) w = after_open id names (p.open_frame frame) w

  unfoldable pub publish_one : Text → List Text → Action W (ReportError E) Done
  unfolding after_fetch
  publish_one id names w = let (r, w') = p.get_pending id w in after_fetch id names r w'

  unfoldable pub tally :
      Text → Result (ReportError E) Done → ℕ × List (PublishError E) → ℕ × List (PublishError E)
  tally id (ok _) (published, errs) = (suc published, errs)
  tally id (err e) (published, errs) = (published, report_failed id e ∷ errs)

  abbrev pub Tally : Type 0
  Tally = (ℕ × List (PublishError E)) × W

  -- ctx.Err() at the head of the loop: a cancelled run stops with that error
  unfoldable pub unless_cancelled : Option E → W → Tally → Tally
  unless_cancelled (some e) w rest = ((0, cancelled e ∷ []), w)
  unless_cancelled none w rest = rest

  -- the loop over the batch: how many were published, and the errors in order
  unfoldable pub publish_each : List Text → List Text → W → Tally
  unfolding publish_one tally unless_cancelled
  publish_each names [] w = ((0, []), w)
  publish_each names (id ∷ ids) w = unless_cancelled (p.ctx_err w) w (
      let (r, w1) = publish_one id names w in
      let (rest, w2) = publish_each names ids w1 in (tally id r rest, w2))

  unfoldable pub capped : List Text → List Text
  capped ids =
      if ltb 0 p.max_per_run && ltb p.max_per_run (length ids) then take p.max_per_run ids else ids

  unfoldable pub label_errors : Result E Done → List (PublishError E)
  label_errors (ok _) = []
  label_errors (err e) = ensure_labels_failed e ∷ []

  unfoldable pub publish : List Text → W → Summary E × W
  unfolding publish_each capped label_errors label_names
  publish [] w = (record { errors = []; published = 0; attempted = 0; deferred = 0 }, w)
  publish (id ∷ ids) w =
      let batch = capped (id ∷ ids) in
      let (r, w1) = p.ensure_labels p.labels w in
      let ((published, errs), w2) = publish_each (label_names p.labels) batch w1 in
      (
        record {
          errors = label_errors r ++ errs;
          published = published;
          attempted = length batch;
          deferred = length (id ∷ ids) - length batch;
        },
        w2,
      )

unfoldable pub has_slash : Text → Bool
has_slash [] = false
has_slash (c ∷ s) = c == b'/' || has_slash s

-- what ParseRepo makes of the two halves
unfoldable pub checked_repo : Option (Text × Text) → Option (Text × Text)
unfolding has_slash is_empty
checked_repo none = none
checked_repo (some (owner, repo)) =
    if is_empty owner || (is_empty repo || has_slash repo) then none else some (owner, repo)

-- ParseRepo, with none for its error
unfoldable pub parse_repo : Text → Option (Text × Text)
unfolding checked_repo
parse_repo s = checked_repo (cut b'/' (trim_space s))
