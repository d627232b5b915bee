-- ===== src/Publish/Client/Pacing.antt =====
-- The requests of one call of do: their number and their distance.
use libre_mail_bug_report_in.Prelude.{
  ℕ, suc, ◌+◌, ◌-◌, ◌^◌, ◌≡◌, ◌≤◌, ◌<◌, ◌∙◌, inl, inr, refl, Option, none, some, List, [], ◌∷◌,
  ◌++◌, ok, arith, Bool-cases, length, ltb,
}
use libre_mail_bug_report_in.Prelude.Text.{Text}
use libre_mail_bug_report_in.Publish.Client.{World, Config, Client, HttpHead}
use libre_mail_bug_report_in.Publish.Client.Requests.{
  space_mutations, space_since, issue_request, do_request, record_mutation,
}
use libre_mail_bug_report_in.Publish.Client.Attempts.{IsKept, attempts_from_keeps}

-- When a request was sent, and when Do returned from it.
pub record Interval : Type 0 where
  pub start : ℕ
  pub finish : ℕ

module _ {W E : Type 0} (world : World W E) (config : Config) (issued : W → List Interval) where
  -- What the parameters of the client promise about time: a sleep that is not cut short lasts as long
  -- as it should, `issued` lists every request with the latest first and the times at which Do was
  -- called and returned, before the body is read, and the clock with the spacing added is within the
  -- range of a time.Duration.
  pub record ClockLaws : Type 0 where
    pub sleep_lasts :
        (d : ℕ) (w : W)
        → d < 2 ^ 63
        → (world.sleep d w).0 ≡ ok tt
        → world.now w + d ≤ world.now (world.sleep d w).1
    pub sleep_issues : (d : ℕ) (w : W) → issued (world.sleep d w).1 ≡ issued w
    pub jitter_issues : (d : ℕ) (w : W) → issued (world.jitter d w).1 ≡ issued w
    pub read_issues : (head : HttpHead) (w : W) → issued (world.read_all head w).1 ≡ issued w
    pub send_issues :
        (url body : Text) (w : W)
        → issued (world.send url body w).1
          ≡ record { start = world.now w; finish = world.now (world.send url body w).1 } ∷ issued w
    pub now_fits : (w : W) → world.now w + config.min_spacing < 2 ^ 63

  -- Every request was sent at the earliest the spacing after Do had returned from the one before.
  abbrev pub IsSpaced : List Interval → Type 0
  IsSpaced [] = Unit
  IsSpaced (a ∷ []) = Unit
  IsSpaced (a ∷ (b ∷ rest)) = (b.finish + config.min_spacing ≤ a.start) × IsSpaced (b ∷ rest)

  -- The client's stamp is that of the latest request.
  abbrev pub IsStamped : Option ℕ → List Interval → Type 0
  IsStamped none [] = Unit
  IsStamped none (a ∷ rest) = ⊥
  IsStamped (some t) [] = ⊥
  IsStamped (some t) (a ∷ rest) = (a.finish ≡ t) × (t + config.min_spacing < 2 ^ 63)

  abbrev pub IsPaced : Client W → Type 0
  IsPaced c = IsSpaced (issued c.world) × IsStamped c.last_mutation (issued c.world)

  abbrev Paced : ℕ → Option ℕ → List Interval → Type 0
  Paced n last xs = IsSpaced xs × IsStamped last xs × (length xs ≤ n)

  -- the spacing since the latest request is over
  abbrev IsOver : List Interval → ℕ → Type 0
  IsOver [] now = Unit
  IsOver (a ∷ rest) now = a.finish + config.min_spacing ≤ now

  Paced-issued :
      (n t now : ℕ) (last : Option ℕ) (xs : List Interval)
      → Paced n last xs
      → IsOver xs now
      → t + config.min_spacing < 2 ^ 63
      → Paced (suc n) (some t) (record { start = now; finish = t } ∷ xs)
  Paced-issued n t now last [] p over fits = (tt, (refl, fits), omega (arith, p.2))
  Paced-issued n t now last (a ∷ rest) p over fits = ((over, p.0), (refl, fits), omega (arith, p.2))

  abbrev P : ℕ → Client W → Type 0
  P n c = Paced n c.last_mutation (issued c.world)

  abbrev Ready : ℕ → Client W → Type 0
  Ready n c = P n c × IsOver (issued c.world) (world.now c.world)

  module _ (laws : ClockLaws) where
    space_since-IsOver :
        (n : ℕ) (last : Option ℕ) (c : Client W) (xs : List Interval)
        → issued c.world ≡ xs
        → Paced n last xs
        → (space_since world config last c).0 ≡ ok tt
        → IsOver xs (world.now (space_since world config last c).1.world)
          × (issued (space_since world config last c).1.world ≡ xs)
          × ((space_since world config last c).1.last_mutation ≡ c.last_mutation)
    unfolding space_since
    space_since-IsOver n none c [] same p h = (tt, same, refl)
    space_since-IsOver n none c (a ∷ rest) same p h = absurd p.1
    space_since-IsOver n (some t) c [] same p h = absurd p.1
    space_since-IsOver n (some t) c (a ∷ rest) same p h =
        elim (Bool-cases (ltb (world.now c.world) (t + config.min_spacing))) [
          | inl e ↦
              let d = t + config.min_spacing - world.now c.world in
              let early : world.now c.world < t + config.min_spacing = ground arith in
              let lasted = laws.sleep_lasts d c.world (omega arith) (simp e at h) in
              simp e ((omega arith), laws.sleep_issues d c.world ∙ same, refl)
          | inr e ↦ simp e ((ground arith), same, refl)
        ]

    space_mutations-Ready :
        (n : ℕ) (c : Client W)
        → P n c
        → (space_mutations world config c).0 ≡ ok tt
        → Ready n (space_mutations world config c).1
    unfolding space_mutations
    space_mutations-Ready n c p h =
        let (over, same, last) = space_since-IsOver n c.last_mutation c (issued c.world) refl p h in
        rw same (rw last (p, over))

    issue_request-Paced :
        (n : ℕ) (url body : Text) (c : Client W)
        → Ready n c
        → P (suc n) (issue_request world config url body c).1
    unfolding issue_request record_mutation
    issue_request-Paced n url body c ready =
        let w' = (world.send url body c.world).1 in
        rw (laws.send_issues url body c.world) (
          Paced-issued n (world.now w') (world.now c.world) c.last_mutation (issued c.world) ready.0
            ready.1 (laws.now_fits w'))

    paced-IsKept : IsKept world config P Ready
    paced-IsKept = record {
      weaken = λ n c p. (p.0, p.1, omega arith);
      sleep_keeps = λ n d c p. rw (laws.sleep_issues d c.world) p;
      jitter_keeps = λ n d c p. rw (laws.jitter_issues d c.world) p;
      read_keeps = λ n head c p. rw (laws.read_issues head c.world) p;
      spacing_readies = space_mutations-Ready;
      ready_holds = λ n c r. r.0;
      issue_advances = issue_request-Paced;
    }

    -- With a clock that keeps its laws: one call of do sends at most max_attempts requests, and every
    -- request, retries included, at the earliest the minimal spacing after Do had returned from the
    -- one before.
    pub do_request-IsPaced :
        (path body : Text) (c : Client W)
        → IsPaced c
        → IsPaced (do_request world config path body c).1
          × (length (issued (do_request world config path body c).1.world)
              ≤ length (issued c.world) + config.max_attempts)
    unfolding do_request
    do_request-IsPaced path body c paced =
        let (spaced, stamped, count) =
          attempts_from_keeps world config P Ready paced-IsKept config.max_attempts
            (length (issued c.world)) 0 (config.base_url ++ path) body c
            (paced.0, paced.1, omega arith) in
        ((spaced, stamped), count)
