-- ===== src/Publish/Client/Confirmed.antt =====
-- What a success of the client rests on.
use libre_mail_bug_report_in.Prelude.{
  ℕ, zero, suc, ◌+◌, ◌≡◌, ◌⊎◌, ◌++◌, inl, inr, refl, Option, none, some, List, [], ap, ◌==◌, Result,
  ok, err, Done, arith, Bool-cases,
}
use libre_mail_bug_report_in.Prelude.Text.{Text, codes}
use libre_mail_bug_report_in.Publish.Client.{
  World, Config, Client, HttpHead, HttpResponse, retry_decision,
}
use libre_mail_bug_report_in.Publish.Client.Requests.{
  Label, CreatedIssue, RequestError, Outcome, finished, again, judge, outcome_of, after_sleep,
  after_judging, after_building, after_spacing, attempts_from, space_mutations, issue_request,
  read_response, with_body, do_request, create_issue, issue_outcome, repo_path, decoded,
}

module _ {W E : Type 0} (world : World W E) (config : Config) where
  -- Some request to this address with this body was answered with that status, and its body was
  -- then read as that text.
  abbrev pub Answered : Text → Text → ℕ → Text → Type 0
  Answered url body status answer =
      (w : W) × (w' : W) × (head : HttpHead) × (world.send url body w ≡ (ok head, w'))
      × (head.code ≡ status)
      × ((world.read_all head w').0 ≡ ok answer)

  -- The response is that of such a request.
  abbrev Received : Text → Text → HttpResponse → Type 0
  Received url body resp = Answered url body resp.code resp.body

  -- Where the reply is a status and a body, these were answered, or no attempt was allowed.
  abbrev Backed : Text → Text → Result (RequestError E) (ℕ × Text) × Client W → Type 0
  Backed url body reply =
      (status : ℕ) (answer : Text)
      → reply.0 ≡ ok (status, answer)
      → (status ≡ 0) ⊎ Answered url body status answer

  outcome_of-Answered :
      (url body : Text) (resp : HttpResponse) (wait : Option ℕ) (status : ℕ) (answer : Text)
      → Received url body resp
      → outcome_of world config resp wait ≡ finished status answer
      → Answered url body status answer
  unfolding outcome_of
  outcome_of-Answered url body resp none status answer got h =
      let code : resp.code ≡ status = cc in
      let text : resp.body ≡ answer = cc in rw (code, text) at got
  outcome_of-Answered url body resp (some d) status answer got h = cc

  judge-Answered :
      (attempt : ℕ) (url body : Text) (r : Result E HttpResponse) (c : Client W) (status : ℕ)
      (answer : Text)
      → ((resp : HttpResponse) → r ≡ ok resp → Received url body resp)
      → (judge world config attempt r c).0 ≡ finished status answer
      → Answered url body status answer
  unfolding judge
  judge-Answered attempt url body (err e) c status answer got h = cc
  judge-Answered attempt url body (ok resp) c status answer got h =
      outcome_of-Answered url body resp (retry_decision world config resp attempt c.world).0 status
        answer (got resp refl) h

  with_body-Received :
      (url body : Text) (w w' : W) (head : HttpHead) (r : Result E Text) (resp : HttpResponse)
      → world.send url body w ≡ (ok head, w')
      → (world.read_all head w').0 ≡ r
      → with_body world config head r ≡ ok resp
      → Received url body resp
  unfolding with_body
  with_body-Received url body w w' head (err e) resp sent read h = cc
  with_body-Received url body w w' head (ok text) resp sent read h =
      let code : head.code ≡ resp.code = ap code_of h in
      let same : text ≡ resp.body = ap body_of h in (w, w', head, sent, code, rw same at read)
    where
      code_of : Result E HttpResponse → ℕ
      code_of (ok x) = x.code
      code_of (err e) = 0

      body_of : Result E HttpResponse → Text
      body_of (ok x) = x.body
      body_of (err e) = []

  read_response-Received :
      (url body : Text) (w : W) (r : Result E HttpHead) (c : Client W) (resp : HttpResponse)
      → world.send url body w ≡ (r, c.world)
      → (read_response world config r c).0 ≡ ok resp
      → Received url body resp
  unfolding read_response
  read_response-Received url body w (err e) c resp sent h = cc
  read_response-Received url body w (ok head) c resp sent h =
      with_body-Received url body w c.world head (world.read_all head c.world).0 resp sent refl h

  after_sleep-Backed :
      (url body : Text) (rest : Client W → Result (RequestError E) (ℕ × Text) × Client W)
      (r : Result E Done) (c : Client W)
      → ((c' : Client W) → Backed url body (rest c'))
      → Backed url body (after_sleep world config rest r c)
  unfolding after_sleep
  after_sleep-Backed url body rest (err e) c k status answer h = cc
  after_sleep-Backed url body rest (ok _) c k status answer h = k c status answer h

  after_judging-Backed :
      (attempt : ℕ) (url body : Text)
      (rest : Client W → Result (RequestError E) (ℕ × Text) × Client W) (o : Outcome E)
      (c : Client W)
      → ((status : ℕ) (answer : Text)
          → o ≡ finished status answer
          → Answered url body status answer)
      → ((c' : Client W) → Backed url body (rest c'))
      → Backed url body (after_judging world config attempt rest o c)
  unfolding after_judging
  after_judging-Backed attempt url body rest (finished s a) c answered k status answer h =
      inr (answered status answer cc)
  after_judging-Backed attempt url body rest (again wait failure) c answered k status answer h =
      elim (Bool-cases (attempt + 1 == config.max_attempts)) [
        | inl e ↦ let h' = simp e at h in cc
        | inr e ↦
            after_sleep-Backed url body rest (world.sleep wait c.world).0
              (record c { world = (world.sleep wait c.world).1 }) k status answer (simp e at h)
      ]

  after_building-Backed :
      (attempt : ℕ) (url body : Text)
      (rest : Client W → Result (RequestError E) (ℕ × Text) × Client W) (o : Option E)
      (c : Client W)
      → ((c' : Client W) → Backed url body (rest c'))
      → Backed url body (after_building world config attempt url body rest o c)
  unfolding after_building issue_request
  after_building-Backed attempt url body rest (some e) c k status answer h = cc
  after_building-Backed attempt url body rest none c k status answer h =
      let (r, c1) = issue_request world config url body c in
      let (got, c2) = read_response world config r c1 in
      let (outcome, c3) = judge world config attempt got c2 in
      after_judging-Backed attempt url body rest outcome c3
        (λ s a e.
          judge-Answered attempt url body got c2 s a
            (λ resp. read_response-Received url body c.world r c1 resp refl) e)
        k status answer h

  after_spacing-Backed :
      (attempt : ℕ) (url body : Text)
      (rest : Client W → Result (RequestError E) (ℕ × Text) × Client W) (r : Result E Done)
      (c : Client W)
      → ((c' : Client W) → Backed url body (rest c'))
      → Backed url body (after_spacing world config attempt url body rest r c)
  unfolding after_spacing
  after_spacing-Backed attempt url body rest (err e) c k status answer h = cc
  after_spacing-Backed attempt url body rest (ok _) c k status answer h =
      after_building-Backed attempt url body rest (world.new_request url) c k status answer h

  attempts_from-Backed :
      (left attempt : ℕ) (url body : Text) (c : Client W)
      → Backed url body (attempts_from world config left attempt url body c)
  unfolding attempts_from
  attempts_from-Backed zero attempt url body c status answer h = inl cc
  attempts_from-Backed (suc left) attempt url body c status answer h =
      let (r, c1) = space_mutations world config c in
      after_spacing-Backed attempt url body (attempts_from world config left (attempt + 1) url body)
        r c1 (attempts_from-Backed left (attempt + 1) url body) status answer h

  module _ (marshal_label : Label → Text) (marshal_issue : Text → Text → List Text → Text)
      (unmarshal_issue : Text → Option CreatedIssue) where
    issue_outcome_ok :
        (r : Result (RequestError E) (ℕ × Text)) (issue : CreatedIssue)
        → issue_outcome world config marshal_label marshal_issue unmarshal_issue r ≡ ok issue
        → (answer : Text) × (r ≡ ok (201, answer)) × (unmarshal_issue answer ≡ some issue)
    unfolding issue_outcome decoded
    issue_outcome_ok (err e) issue h = cc
    issue_outcome_ok (ok (status, answer)) issue h =
        let is_created : status ≡ 201 = ground (arith, h) in
        (answer, rw is_created refl, ground (arith, h))

    -- CreateIssue reports success only if GitHub answered the request for exactly that issue with
    -- 201 and a body that decodes to the issue that is returned.
    pub create_issue-Answered :
        (title body : Text) (labels : List Text) (c : Client W) (issue : CreatedIssue)
        → (create_issue world config marshal_label marshal_issue unmarshal_issue title body labels
            c).0
          ≡ ok issue
        → (answer : Text) × Answered
            (config.base_url ++ repo_path world config (codes "issues"))
            (marshal_issue title body labels)
            201
            answer
          × (unmarshal_issue answer ≡ some issue)
    unfolding create_issue do_request
    create_issue-Answered title body labels c issue h =
        let url = config.base_url ++ repo_path world config (codes "issues") in
        let sent = marshal_issue title body labels in
        let (answer, reply, shown) =
          issue_outcome_ok (attempts_from world config config.max_attempts 0 url sent c).0 issue
            h in
        elim (attempts_from-Backed config.max_attempts 0 url sent c 201 answer reply) [
          | inl impossible ↦ absurd (omega arith)
          | inr answered ↦ (answer, answered, shown)
        ]
