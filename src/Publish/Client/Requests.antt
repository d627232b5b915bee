-- ===== src/Publish/Client/Requests.antt =====
-- internal/publish/github.go: do, EnsureLabels and CreateIssue. The JSON encoders and the decoder of
-- the response are parameters; an error keeps the status and the body of which the source prints an
-- excerpt (Options has both, the headers and the excerpt).
use libre_mail_bug_report_in.Prelude.{
  ℕ, zero, suc, ◌+◌, ◌-◌, Option, none, some, List, [], ◌∷◌, ◌++◌, not, ◌||◌, Result, ok, err, Done,
  Action, ltb, ◌==◌, if◌then◌else◌,
}
use libre_mail_bug_report_in.Prelude.Text.{Text, codes}
use libre_mail_bug_report_in.Publish.Client.{
  HttpHead, HttpResponse, World, Config, Client, jittered_backoff, retry_decision,
}

pub data Failure (E : Type 0) : Type 0 where
  transport : E → Failure E
  refused_status : ℕ → Text → Failure E

pub data RequestError (E : Type 0) : Type 0 where
  interrupted : E → RequestError E
  invalid_request : E → RequestError E
  gave_up : ℕ → Failure E → RequestError E

pub data Outcome (E : Type 0) : Type 0 where
  finished : ℕ → Text → Outcome E
  again : ℕ → Failure E → Outcome E

pub record Label : Type 0 where
  pub name : Text
  pub color : Text
  pub description : Text

abbrev pub default_labels : List Label
default_labels =
    record {
      name = codes "bug-report";
      color = codes "e99695";
      description = codes "Originated from the app's opt-in debug bug-report ingest pipeline.";
    }
    ∷ record {
      name = codes "automated";
      color = codes "c5def5";
      description = codes "Created by the weekly publish job, not written by a human.";
    }
    ∷ record {
      name = codes "needs-triage";
      color = codes "fbca04";
      description = codes "Not yet reviewed or confirmed by the maintainer.";
    }
    ∷ []

unfoldable pub label_names : List Label → List Text
label_names [] = []
label_names (l ∷ ls) = l.name ∷ label_names ls

pub record CreatedIssue : Type 0 where
  pub number : ℕ
  pub html_url : Text

-- the errors of the two endpoints
pub data ApiError (E : Type 0) : Type 0 where
  request_failed : RequestError E → ApiError E
  unexpected_status : ℕ → Text → ApiError E
  bad_response : Text → ApiError E

module _ {W E : Type 0} (world : World W E) (config : Config) where
  -- what a call of do returns, status and body or an error, with the client it leaves
  abbrev pub Reply : Type 0
  Reply = Result (RequestError E) (ℕ × Text) × Client W

  unfoldable pub space_since : Option ℕ → Action (Client W) E Done
  space_since none c = (ok tt, c)
  space_since (some last) c =
      if ltb (world.now c.world) (last + config.min_spacing)
      then (let (r, w') = world.sleep (last + config.min_spacing - world.now c.world) c.world in
          (r, record c { world = w' }))
      else (ok tt, c)

  unfoldable pub space_mutations : Action (Client W) E Done
  unfolding space_since
  space_mutations c = space_since c.last_mutation c

  unfoldable pub record_mutation : Client W → Client W
  record_mutation c = record c { last_mutation = some (world.now c.world) }

  unfoldable pub outcome_of : HttpResponse → Option ℕ → Outcome E
  outcome_of resp none = finished resp.code resp.body
  outcome_of resp (some wait) = again wait (refused_status resp.code resp.body)

  -- what one attempt makes of the answer to its request
  unfoldable pub judge : ℕ → Result E HttpResponse → Client W → Outcome E × Client W
  unfolding outcome_of
  judge attempt (err e) c =
      let (wait, w') = jittered_backoff world config attempt c.world in
      (again wait (transport e), record c { world = w' })
  judge attempt (ok resp) c =
      let (wait, w') = retry_decision world config resp attempt c.world in
      (outcome_of resp wait, record c { world = w' })

  unfoldable pub after_sleep : (Client W → Reply) → Result E Done → Client W → Reply
  after_sleep rest (err e) c = (err (interrupted e), c)
  after_sleep rest (ok _) c = rest c

  unfoldable pub after_judging : ℕ → (Client W → Reply) → Outcome E → Client W → Reply
  unfolding after_sleep
  after_judging attempt rest (finished status body) c = (ok (status, body), c)
  after_judging attempt rest (again wait failure) c =
      if attempt + 1 == config.max_attempts
      then (err (gave_up config.max_attempts failure), c)
      else (let (r, w') = world.sleep wait c.world in after_sleep rest r (record c { world = w' }))

  -- the request itself, with the time at which Do has returned stamped on the client
  unfoldable pub issue_request : Text → Text → Action (Client W) E HttpHead
  unfolding record_mutation
  issue_request url body c =
      let (r, w') = world.send url body c.world in (r, record_mutation (record c { world = w' }))

  unfoldable pub with_body : HttpHead → Result E Text → Result E HttpResponse
  with_body head (err e) = err e
  with_body head (ok body) = ok (record {
    code = head.code;
    body = body;
    retry_after = head.retry_after;
    remaining = head.remaining;
    reset = head.reset;
  })

  -- the body, which is read behind the stamp and only where there is a response
  unfoldable pub read_response : Result E HttpHead → Action (Client W) E HttpResponse
  unfolding with_body
  read_response (err e) c = (err e, c)
  read_response (ok head) c =
      let (r, w') = world.read_all head c.world in (with_body head r, record c { world = w' })

  unfoldable pub after_building : ℕ → Text → Text → (Client W → Reply) → Option E → Client W → Reply
  unfolding issue_request read_response judge after_judging
  after_building attempt url body rest (some e) c = (err (invalid_request e), c)
  after_building attempt url body rest none c =
      let (r, c1) = issue_request url body c in
      let (answer, c2) = read_response r c1 in
      let (outcome, c3) = judge attempt answer c2 in after_judging attempt rest outcome c3

  unfoldable pub after_spacing :
      ℕ → Text → Text → (Client W → Reply) → Result E Done → Client W → Reply
  unfolding after_building
  after_spacing attempt url body rest (err e) c = (err (interrupted e), c)
  after_spacing attempt url body rest (ok _) c =
      after_building attempt url body rest (world.new_request url) c

  -- the loop, with as many attempts as are left; with none at all do returns status 0
  unfoldable pub attempts_from : ℕ → ℕ → Text → Text → Client W → Reply
  unfolding after_spacing space_mutations
  attempts_from zero attempt url body c = (ok (0, []), c)
  attempts_from (suc left) attempt url body c =
      let (r, c1) = space_mutations c in
      after_spacing attempt url body (attempts_from left (attempt + 1) url body) r c1

  unfoldable pub repo_path : Text → Text
  repo_path sub =
      codes "/repos/" ++ (config.owner ++ (codes "/" ++ (config.repo ++ (codes "/" ++ sub))))

  unfoldable pub do_request : Text → Text → Client W → Reply
  unfolding attempts_from
  do_request path body c = attempts_from config.max_attempts 0 (config.base_url ++ path) body c

  unfoldable pub label_outcome : Result (RequestError E) (ℕ × Text) → Result (ApiError E) Done
  label_outcome (err e) = err (request_failed e)
  label_outcome (ok (status, body)) =
      if status == 201 || status == 422 then ok tt else err (unexpected_status status body)

  module _ (marshal_label : Label → Text) (marshal_issue : Text → Text → List Text → Text)
      (unmarshal_issue : Text → Option CreatedIssue) where
    unfoldable pub ensure_label : Label → Action (Client W) (ApiError E) Done
    unfolding label_outcome do_request repo_path
    ensure_label l c =
        let (r, c') = do_request (repo_path (codes "labels")) (marshal_label l) c in
        (label_outcome r, c')

    unfoldable pub collect : Result (ApiError E) Done → List (ApiError E) → List (ApiError E)
    collect (ok _) errs = errs
    collect (err e) errs = e ∷ errs

    -- the joined errors, in order; none is a nil error
    unfoldable pub ensure_labels : List Label → Client W → List (ApiError E) × Client W
    unfolding ensure_label collect
    ensure_labels [] c = ([], c)
    ensure_labels (l ∷ ls) c =
        let (r, c1) = ensure_label l c in
        let (errs, c2) = ensure_labels ls c1 in (collect r errs, c2)

    unfoldable pub decoded : Text → Option CreatedIssue → Result (ApiError E) CreatedIssue
    decoded body none = err (bad_response body)
    decoded body (some issue) = ok issue

    unfoldable pub issue_outcome :
        Result (RequestError E) (ℕ × Text) → Result (ApiError E) CreatedIssue
    unfolding decoded
    issue_outcome (err e) = err (request_failed e)
    issue_outcome (ok (status, body)) =
        if not (status == 201)
        then err (unexpected_status status body)
        else decoded body (unmarshal_issue body)

    unfoldable pub create_issue :
        Text → Text → List Text → Action (Client W) (ApiError E) CreatedIssue
    unfolding issue_outcome do_request repo_path
    create_issue title body labels c =
        let (r, c') = do_request (repo_path (codes "issues")) (marshal_issue title body labels) c in
        (issue_outcome r, c')
