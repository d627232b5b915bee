-- ===== src/Schedule/Weekly.antt =====
-- internal/schedule/schedule.go: Run, the body of the scheduled handler, over the two seams that it
-- calls, and the publisher that only logs. `W` is whatever the seams read and change. What is
-- modelled here is Run without its telemetry calls, which Schedule.Observed has.
use libre_mail_bug_report_in.Prelude.{
  ℕ, ◌≡◌, ◌⊎◌, refl, Bool, true, false, List, ◌∷◌, Result, ok, err, Done, Action, if◌then◌else◌,
  Bool-cases, inl, inr, length, Option, none, some, not, ap, ◌∙◌,
}
use libre_mail_bug_report_in.Prelude.Text.{Text}
use libre_mail_bug_report_in.Schedule.Gate.{is_friday_1700_central}
use libre_mail_bug_report_in.Schedule.Gate.Friday.{cron_fire, is_friday_1700_central_once}
use libre_mail_bug_report_in.Schedule.Calendar.{friday, weekday_of_day}

-- A batch of ids that LogPublisher was handed, as it logs it: the count and the ids.
pub record Logged : Type 0 where
  pub count : ℕ
  pub ids : List Text

-- LogPublisher.Publish, over the lines logged so far
unfoldable pub log_publish : List Text → List Logged → Result (Unit {0}) Done × List Logged
log_publish ids log = (ok tt, record { count = length ids; ids = ids } ∷ log)

pub data RunError (E F : Type 0) : Type 0 where
  list_pending_failed : E → RunError E F
  publish_failed : F → RunError E F

module _ {W E F : Type 0} (list_pending : Action W E (List Text))
    (publish : List Text → Action W F Done) where
  -- the pair (ran, err), with no error as `none`
  abbrev pub Ran : Type 0
  Ran = Bool × Option (RunError E F)

  unfoldable pub after_publish : Result F Done → Ran
  after_publish (ok _) = (true, none)
  after_publish (err e) = (true, some (publish_failed e))

  unfoldable pub after_list : Result E (List Text) → W → Ran × W
  unfolding after_publish
  after_list (err e) w = ((true, some (list_pending_failed e)), w)
  after_list (ok ids) w = let (r, w') = publish ids w in (after_publish r, w')

  unfoldable pub run : ℕ → W → Ran × W
  unfolding after_list
  run scheduled_for w =
      if is_friday_1700_central scheduled_for
      then (let (r, w') = list_pending w in after_list r w')
      else ((false, none), w)

  -- What the run does once the gate is open.
  abbrev pub ungated : W → Ran × W
  ungated w = let (r, w') = list_pending w in after_list r w'

  run_when_open : (t : ℕ) (w : W) → is_friday_1700_central t ≡ true → run t w ≡ ungated w
  unfolding run
  run_when_open t w h = rw h refl

  run_when_shut : (t : ℕ) (w : W) → is_friday_1700_central t ≡ false → run t w ≡ ((false, none), w)
  unfolding run
  run_when_shut t w h = rw h refl

  -- One listing, and where it succeeds one publishing of what it listed: the report of the run and
  -- the state behind it.
  pub data Worked (w : W) : Ran → W → Type 0 where
    unlisted :
        (e : E) (w' : W)
        → list_pending w ≡ (err e, w')
        → Worked w (true, some (list_pending_failed e)) w'
    unpublished :
        (ids : List Text) (e : F) (w1 w' : W)
        → list_pending w ≡ (ok ids, w1)
        → publish ids w1 ≡ (err e, w')
        → Worked w (true, some (publish_failed e)) w'
    published :
        (ids : List Text) (w1 w' : W)
        → list_pending w ≡ (ok ids, w1)
        → publish ids w1 ≡ (ok tt, w')
        → Worked w (true, none) w'

  after_publish-Worked :
      (w : W) (ids : List Text) (w1 : W) (r : Result F Done) (w' : W)
      → list_pending w ≡ (ok ids, w1)
      → publish ids w1 ≡ (r, w')
      → Worked w (after_publish r) w'
  unfolding after_publish
  after_publish-Worked w ids w1 (ok tt) w' listed sent = published ids w1 w' listed sent
  after_publish-Worked w ids w1 (err e) w' listed sent = unpublished ids e w1 w' listed sent

  after_list-Worked :
      (w : W) (r : Result E (List Text)) (w1 : W)
      → list_pending w ≡ (r, w1)
      → Worked w (after_list r w1).0 (after_list r w1).1
  unfolding after_list
  after_list-Worked w (err e) w1 listed = unlisted e w1 listed
  after_list-Worked w (ok ids) w1 listed =
      after_publish-Worked w ids w1 (publish ids w1).0 (publish ids w1).1 listed refl

  pub run-Worked :
      (t : ℕ) (w : W) → is_friday_1700_central t ≡ true → Worked w (run t w).0 (run t w).1
  run-Worked t w h =
      rw (run_when_open t w h) (after_list-Worked w (list_pending w).0 (list_pending w).1 refl)

  -- One of two runs, the second from the state that the first leaves, does the work from the state of
  -- the start to that of the end, and the other reports that it did not run.
  abbrev pub OneWorked : ℕ → ℕ → W → Type 0
  OneWorked first second w =
      let (a, w1) = run first w in
      let (b, w2) = run second w1 in
      (Worked w a w2 × (b ≡ (false, none))) ⊎ ((a ≡ (false, none)) × Worked w b w2)

  -- On every Friday, of the two cron fires one after the other exactly one works: it lists once and,
  -- where this succeeds, publishes exactly once the ids that were listed, and its report has the error
  -- of the step that failed, or none. The other fire reports that it did not run, and changes nothing.
  pub run_once_a_friday :
      (d : ℕ) (w : W) → weekday_of_day d ≡ friday → OneWorked (cron_fire d 22) (cron_fire d 23) w
  run_once_a_friday d w h =
      let (first, second) = is_friday_1700_central_once d h in
      elim (Bool-cases (is_friday_1700_central (cron_fire d 22))) [
        | inl e ↦
            let late =
              run_when_shut (cron_fire d 23) (run (cron_fire d 22) w).1 (second ∙ ap not e) in
            inl (rw late (run-Worked (cron_fire d 22) w e), ap (λ x. x.0) late)
        | inr e ↦
            let early = run_when_shut (cron_fire d 22) w e in
            inr (ap (λ x. x.0) early, rw early (run-Worked (cron_fire d 23) w (second ∙ ap not e)))
      ]

  after_publish_ran : (r : Result F Done) → (after_publish r).0 ≡ true
  unfolding after_publish
  after_publish_ran (ok _) = refl
  after_publish_ran (err e) = refl

  after_list_ran : (r : Result E (List Text)) (w : W) → (after_list r w).0.0 ≡ true
  unfolding after_list
  after_list_ran (err e) w = refl
  after_list_ran (ok ids) w = after_publish_ran (publish ids w).0

  -- Run reports that it ran exactly when the gate is open, whether or not it then fails.
  pub run_ran : (t : ℕ) (w : W) → (run t w).0.0 ≡ is_friday_1700_central t
  unfolding run
  run_ran t w = elim (Bool-cases (is_friday_1700_central t)) [
    | inl e ↦ rw e (after_list_ran (list_pending w).0 (list_pending w).1)
    | inr e ↦ rw e refl
  ]
