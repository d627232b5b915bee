-- ===== src/Publish/Client/Attempts.antt =====
-- How often requests are sent, and how far apart.
use libre_mail_bug_report_in.Prelude.{
  ℕ, zero, suc, ◌+◌, ◌-◌, ◌≡◌, inl, inr, refl, Option, none, some, Bool, true, false, Result, ok,
  err, Done, arith, if◌then◌else◌, Bool-cases, ltb, leb, ◌==◌, not, ◌&&◌,
}
use libre_mail_bug_report_in.Prelude.Text.{Text, codes, text_eq}
use libre_mail_bug_report_in.Publish.Client.{
  World, Config, Client, HttpHead, HttpResponse, retry_decision, jittered_backoff, or_else,
  parse_retry_after, until_reset, is_secondary_rate_limit, backoff_bound,
}
use libre_mail_bug_report_in.Publish.Client.Requests.{
  RequestError, Outcome, finished, again, judge, after_sleep, after_judging, after_building,
  after_spacing, attempts_from, space_mutations, space_since, issue_request, read_response,
}

if_keeps :
    {D W : Type 0} (K : W → Type 0) (t : Bool) (a b : D × W)
    → K a.1
    → K b.1
    → K (if t then a else b).1
if_keeps K true a b h k = h
if_keeps K false a b h k = k

module _ {W E : Type 0} (world : World W E) (config : Config) where
  abbrev Loop : Type 0
  Loop = Client W → Result (RequestError E) (ℕ × Text) × Client W

  or_else_keeps :
      (K : W → Type 0) (o : Option ℕ) (w : W) (next : Option ℕ × W)
      → K w
      → K next.1
      → K (or_else world config o w next).1
  unfolding or_else
  or_else_keeps K none w next h k = k
  or_else_keeps K (some d) w next h k = h

  -- deciding on a retry leaves the state as it was, or as one draw of the jitter leaves it
  retry_decision_state :
      (K : W → Type 0) (resp : HttpResponse) (attempt : ℕ) (w : W)
      → K w
      → ((d : ℕ) → K (world.jitter d w).1)
      → K (retry_decision world config resp attempt w).1
  unfolding retry_decision jittered_backoff
  retry_decision_state K resp attempt w h k =
      let drawn = k (backoff_bound world config attempt) in
      let (d, w') = jittered_backoff world config attempt w in
      let floored = if ltb d config.secondary_min then config.secondary_min else d in
      let none_left =
        or_else world config (until_reset world resp.reset (world.now w)) w (some d, w') in
      let secondary : Option ℕ × W =
        (if is_secondary_rate_limit resp.body then (some floored, w') else (none, w)) in
      let limited : Option ℕ × W = (if resp.code == 429 then (some d, w') else secondary) in
      let signalled : Option ℕ × W =
        (if text_eq resp.remaining (codes "0") then none_left else limited) in
      let after = parse_retry_after world resp.retry_after in
      let other : Option ℕ × W =
        (if not (resp.code == 403) && not (resp.code == 429)
          then (none, w)
          else or_else world config after w signalled) in
      if_keeps K (leb 500 resp.code) (some d, w') other drawn
        (if_keeps K (not (resp.code == 403) && not (resp.code == 429)) (none, w)
          (or_else world config after w signalled) h
          (or_else_keeps K after w signalled h (
            if_keeps K (text_eq resp.remaining (codes "0")) none_left limited
              (or_else_keeps K (until_reset world resp.reset (world.now w)) w (some d, w') h drawn)
              (if_keeps K (resp.code == 429) (some d, w') secondary drawn
                (if_keeps K (is_secondary_rate_limit resp.body) (some floored, w') (none, w) drawn
                  h)))))

  -- A property of the client, indexed by the requests sent so far, that sleeping and drawing keep,
  -- and that a request issued once it is ready advances.
  pub record IsKept (P : ℕ → Client W → Type 0) (Ready : ℕ → Client W → Type 0) : Type 0 where
    pub weaken : (n : ℕ) (c : Client W) → P n c → P (suc n) c
    pub sleep_keeps :
        (n d : ℕ) (c : Client W) → P n c → P n (record c { world = (world.sleep d c.world).1 })
    pub jitter_keeps :
        (n d : ℕ) (c : Client W) → P n c → P n (record c { world = (world.jitter d c.world).1 })
    pub read_keeps :
        (n : ℕ) (head : HttpHead) (c : Client W)
        → P n c
        → P n (record c { world = (world.read_all head c.world).1 })
    pub spacing_readies :
        (n : ℕ) (c : Client W)
        → P n c
        → (space_mutations world config c).0 ≡ ok tt
        → Ready n (space_mutations world config c).1
    pub ready_holds : (n : ℕ) (c : Client W) → Ready n c → P n c
    pub issue_advances :
        (n : ℕ) (url body : Text) (c : Client W)
        → Ready n c
        → P (suc n) (issue_request world config url body c).1

  module _ (P Ready : ℕ → Client W → Type 0) (kept : IsKept P Ready) where
    judge_keeps :
        (n attempt : ℕ) (r : Result E HttpResponse) (c : Client W)
        → P n c
        → P n (judge world config attempt r c).1
    unfolding judge jittered_backoff
    judge_keeps n attempt (err e) c p = kept.jitter_keeps n (backoff_bound world config attempt) c p
    judge_keeps n attempt (ok resp) c p =
        retry_decision_state (λ w. P n (record c { world = w })) resp attempt c.world p
          (λ d. kept.jitter_keeps n d c p)

    read_response_keeps :
        (n : ℕ) (r : Result E HttpHead) (c : Client W)
        → P n c
        → P n (read_response world config r c).1
    unfolding read_response
    read_response_keeps n (err e) c p = p
    read_response_keeps n (ok head) c p = kept.read_keeps n head c p

    weaken_by : (k n : ℕ) (c : Client W) → P n c → P (n + k) c
    weaken_by zero n c p = let e : n + 0 ≡ n = omega arith in rw e p
    weaken_by (suc k) n c p =
        let e : n + suc k ≡ suc (n + k) = omega arith in
        rw e (kept.weaken (n + k) c (weaken_by k n c p))

    after_sleep_keeps :
        (k n : ℕ) (rest : Loop) (r : Result E Done) (c : Client W)
        → P n c
        → ((c' : Client W) → P n c' → P (n + k) (rest c').1)
        → P (n + k) (after_sleep world config rest r c).1
    unfolding after_sleep
    after_sleep_keeps k n rest (err e) c p h = weaken_by k n c p
    after_sleep_keeps k n rest (ok _) c p h = h c p

    after_judging_keeps :
        (k n attempt : ℕ) (rest : Loop) (o : Outcome E) (c : Client W)
        → P n c
        → ((c' : Client W) → P n c' → P (n + k) (rest c').1)
        → P (n + k) (after_judging world config attempt rest o c).1
    unfolding after_judging
    after_judging_keeps k n attempt rest (finished status body) c p h = weaken_by k n c p
    after_judging_keeps k n attempt rest (again wait failure) c p h =
        elim (Bool-cases (attempt + 1 == config.max_attempts)) [
          | inl e ↦ simp e (weaken_by k n c p)
          | inr e ↦ simp e (
              after_sleep_keeps k n rest (world.sleep wait c.world).0
                (record c { world = (world.sleep wait c.world).1 }) (kept.sleep_keeps n wait c p) h)
        ]

    after_building_keeps :
        (k n attempt : ℕ) (url body : Text) (rest : Loop) (o : Option E) (c : Client W)
        → Ready n c
        → ((c' : Client W) → P (suc n) c' → P (suc n + k) (rest c').1)
        → P (suc n + k) (after_building world config attempt url body rest o c).1
    unfolding after_building
    after_building_keeps k n attempt url body rest (some e) c ready h =
        weaken_by k (suc n) c (kept.weaken n c (kept.ready_holds n c ready))
    after_building_keeps k n attempt url body rest none c ready h =
        let (r, c1) = issue_request world config url body c in
        let (answer, c2) = read_response world config r c1 in
        let (outcome, c3) = judge world config attempt answer c2 in
        let issued = kept.issue_advances n url body c ready in
        after_judging_keeps k (suc n) attempt rest outcome c3
          (judge_keeps (suc n) attempt answer c2 (read_response_keeps (suc n) r c1 issued)) h

    after_spacing_keeps :
        (k n attempt : ℕ) (url body : Text) (rest : Loop) (r : Result E Done) (c : Client W)
        → P n c
        → (r ≡ ok tt → Ready n c)
        → ((c' : Client W) → P (suc n) c' → P (suc n + k) (rest c').1)
        → P (suc n + k) (after_spacing world config attempt url body rest r c).1
    unfolding after_spacing
    after_spacing_keeps k n attempt url body rest (err e) c p ready h =
        weaken_by k (suc n) c (kept.weaken n c p)
    after_spacing_keeps k n attempt url body rest (ok tt) c p ready h =
        after_building_keeps k n attempt url body rest (world.new_request url) c (ready refl) h

    space_mutations_keeps : (n : ℕ) (c : Client W) → P n c → P n (space_mutations world config c).1
    unfolding space_mutations space_since
    space_mutations_keeps n c p = since c.last_mutation
      where
        since : (o : Option ℕ) → P n (space_since world config o c).1
        since none = p
        since (some last) =
            elim (Bool-cases (ltb (world.now c.world) (last + config.min_spacing))) [
              | inl e ↦
                  simp e (kept.sleep_keeps n (last + config.min_spacing - world.now c.world) c p)
              | inr e ↦ simp e p
            ]

    pub attempts_from_keeps :
        (left n attempt : ℕ) (url body : Text) (c : Client W)
        → P n c
        → P (n + left) (attempts_from world config left attempt url body c).1
    unfolding attempts_from
    attempts_from_keeps zero n attempt url body c p = weaken_by 0 n c p
    attempts_from_keeps (suc left) n attempt url body c p =
        let e : n + suc left ≡ suc n + left = omega arith in
        let (r, c1) = space_mutations world config c in
        rw e (
          after_spacing_keeps left n attempt url body
            (attempts_from world config left (attempt + 1) url body) r c1
            (space_mutations_keeps n c p) (kept.spacing_readies n c p)
            (λ c' p'. attempts_from_keeps left (suc n) (attempt + 1) url body c' p'))
