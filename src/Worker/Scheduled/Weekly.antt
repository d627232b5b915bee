-- ===== src/Worker/Scheduled/Weekly.antt =====
-- What the two cron fires of a week do.
use libre_mail_bug_report_in.Prelude.{
  Bool, ℕ, ◌≡◌, ◌⊎◌, inl, inr, refl, ap, ◌∙◌, not, Option, none, some, List, true, false, Result,
  ok, err, Done, Action, Bool-cases,
}
use libre_mail_bug_report_in.Prelude.Text.{Text}
use libre_mail_bug_report_in.Schedule.Gate.{is_friday_1700_central}
use libre_mail_bug_report_in.Schedule.Gate.Friday.{cron_fire, is_friday_1700_central_once}
use libre_mail_bug_report_in.Schedule.Weekly.{
  RunError, list_pending_failed, publish_failed, run, run-Worked, Worked, unlisted, unpublished,
  published,
}
use libre_mail_bug_report_in.Schedule.Calendar.{friday, weekday_of_day}
use libre_mail_bug_report_in.Worker.Scheduled.{
  Bindings, Built, BuildError, TriggerError, build_publish, after_event, after_build,
  run_weekly_trigger, run_error, build_failed, run_failed,
}

module _ {W E F G : Type 0} (env : Bindings W E) (list_pending : Built → Action W F (List Text))
    (publish : Built → List Text → Action W G Done) where
  -- what a fire for this time does from the wiring on
  abbrev pub opened : ℕ → W → Result (TriggerError E F G) Done × W
  opened at w = let (r, w') = build_publish env w in after_build env list_pending publish at r w'

  -- What an open fire does: it builds the publisher and, where this succeeds, one run lists and
  -- publishes with what was built; the result is the error of the step that failed, or nil.
  pub data Fired (w : W) : Result (TriggerError E F G) Done → W → Type 0 where
    unbuilt :
        (e : BuildError E) (w' : W)
        → build_publish env w ≡ (err e, w')
        → Fired w (err (build_failed e)) w'
    failed :
        (built : Built) (w1 w' : W) (e : RunError F G)
        → build_publish env w ≡ (ok built, w1)
        → Worked (list_pending built) (publish built) (env.scheduled_context w1) (true, some e) w'
        → Fired w (err (run_failed e)) w'
    worked :
        (built : Built) (w1 w' : W)
        → build_publish env w ≡ (ok built, w1)
        → Worked (list_pending built) (publish built) (env.scheduled_context w1) (true, none) w'
        → Fired w (ok tt) w'

  run-Fired :
      (built : Built) (w w1 w' : W) (x : Bool × Option (RunError F G))
      → build_publish env w ≡ (ok built, w1)
      → Worked (list_pending built) (publish built) (env.scheduled_context w1) x w'
      → Fired w (run_error env list_pending publish x.1) w'
  unfolding run_error
  run-Fired built w w1 _ _ made (unlisted e w' listed) =
      failed built w1 w' (list_pending_failed e) made (unlisted e w' listed)
  run-Fired built w w1 _ _ made (unpublished ids e v w' listed sent) =
      failed built w1 w' (publish_failed e) made (unpublished ids e v w' listed sent)
  run-Fired built w w1 _ _ made (published ids v w' listed sent) =
      worked built w1 w' made (published ids v w' listed sent)

  after_build-Fired :
      (at : ℕ) (w : W) (r : Result (BuildError E) Built) (w1 : W)
      → is_friday_1700_central at ≡ true
      → build_publish env w ≡ (r, w1)
      → Fired w
          (after_build env list_pending publish at r w1).0
          (after_build env list_pending publish at r w1).1
  unfolding after_build
  after_build-Fired at w (err e) w1 open_ made = unbuilt e w1 made
  after_build-Fired at w (ok built) w1 open_ made =
      let w2 = env.scheduled_context w1 in
      run-Fired built w w1 (run (list_pending built) (publish built) at w2).1
        (run (list_pending built) (publish built) at w2).0 made
        (run-Worked (list_pending built) (publish built) at w2 open_)

  trigger_event :
      (at : ℕ) (w : W)
      → env.new_event w ≡ (ok at, w)
      → run_weekly_trigger env list_pending publish w
        ≡ after_event env list_pending publish (ok at) w
  unfolding run_weekly_trigger
  trigger_event at w h = rw h refl

  trigger_shut :
      (at : ℕ) (w : W)
      → env.new_event w ≡ (ok at, w)
      → is_friday_1700_central at ≡ false
      → run_weekly_trigger env list_pending publish w ≡ (ok tt, w)
  unfolding after_event
  trigger_shut at w h shut = trigger_event at w h ∙ rw shut refl

  trigger_open :
      (at : ℕ) (w : W)
      → env.new_event w ≡ (ok at, w)
      → is_friday_1700_central at ≡ true
      → run_weekly_trigger env list_pending publish w ≡ opened at w
  unfolding after_event
  trigger_open at w h open_ = trigger_event at w h ∙ rw open_ refl

-- the bindings at a fire for this time
abbrev pub at_time : {W E : Type 0} → Bindings W E → ℕ → Bindings W E
at_time env t = record env { new_event = λ w. (ok t, w) }

module _ {W E F G : Type 0} (env : Bindings W E) (list_pending : Built → Action W F (List Text))
    (publish : Built → List Text → Action W G Done) where
  abbrev pub fire : ℕ → W → Result (TriggerError E F G) Done × W
  fire t w = run_weekly_trigger (at_time env t) list_pending publish w

  -- The fire for one hour is silent, and the one for the other goes on from the wiring, lists and
  -- publishes.
  abbrev pub OnlyAt : ℕ → ℕ → Type 0
  OnlyAt open_ shut =
      ((w : W) → fire open_ w ≡ opened (at_time env open_) list_pending publish open_ w)
      × ((w : W)
          → Fired (at_time env open_) list_pending publish w (fire open_ w).0 (fire open_ w).1)
      × ((w : W) → fire shut w ≡ (ok tt, w))

  -- Of the two cron fires of every Friday exactly one goes on to read the secrets, build the publisher
  -- and run: it lists once and publishes once what was listed, or its result is the error of the step
  -- that failed. The other returns nil at once, without a binding, a secret or anything else being
  -- touched.
  pub trigger_once_a_friday :
      (d : ℕ)
      → weekday_of_day d ≡ friday
      → OnlyAt (cron_fire d 22) (cron_fire d 23) ⊎ OnlyAt (cron_fire d 23) (cron_fire d 22)
  trigger_once_a_friday d h =
      let (first, second) = is_friday_1700_central_once d h in
      elim (Bool-cases (is_friday_1700_central (cron_fire d 22))) [
        | inl e ↦ inl (one_open (cron_fire d 22) (cron_fire d 23) e (second ∙ ap not e))
        | inr e ↦ inr (one_open (cron_fire d 23) (cron_fire d 22) (second ∙ ap not e) e)
      ]
    where
      one_open :
          (t s : ℕ)
          → is_friday_1700_central t ≡ true
          → is_friday_1700_central s ≡ false
          → OnlyAt t s
      one_open t s e e' = (
        λ w. trigger_open (at_time env t) list_pending publish t w refl e,
        λ w. rw (trigger_open (at_time env t) list_pending publish t w refl e) (
            after_build-Fired (at_time env t) list_pending publish t w
              (build_publish (at_time env t) w).0 (build_publish (at_time env t) w).1 e refl),
        λ w. trigger_shut (at_time env s) list_pending publish s w refl e',
      )
