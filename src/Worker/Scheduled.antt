-- ===== src/Worker/Scheduled.antt =====
-- worker/scheduled_wasm.go: runWeeklyTrigger and buildPublish. The event, the R2 binding, the secrets
-- and the plain variables are the runtime's; `run_publish` is what schedule.Run does once it is handed
-- the Manager and the Publisher of what was built, with its gate (Schedule.Weekly.run).
pub mod Weekly
pub mod Wiring
use libre_mail_bug_report_in.Prelude.{
  ℕ, Option, none, some, List, Bool, true, false, Result, ok, err, Done, Action, wrap,
  if◌then◌else◌,
}
use libre_mail_bug_report_in.Prelude.Text.{Text, codes}
use libre_mail_bug_report_in.Prelude.Text.Spaces.{is_empty}
use libre_mail_bug_report_in.Crypto.Keyring.{Bytes, Keyring, KeyringError}
use libre_mail_bug_report_in.Publish.Batch.{parse_repo}
use libre_mail_bug_report_in.Schedule.Gate.{is_friday_1700_central}
use libre_mail_bug_report_in.Schedule.Weekly.{run, RunError}

abbrev pub keyring_binding : Text
keyring_binding = codes "BUGREPORT_ENC_KEYRING"

abbrev pub github_token_binding : Text
github_token_binding = codes "GITHUB_TOKEN"

abbrev pub github_repo_var : Text
github_repo_var = codes "GITHUB_REPO"

abbrev pub default_target_repo : Text
default_target_repo = codes "JMR-dev/LibreMail"

-- what the Manager and the Publisher are made of
pub record Built : Type 0 where
  pub keyring : Keyring
  pub token : Bytes
  pub owner : Text
  pub name : Text

pub record Bindings (W E : Type 0) : Type 0 where
  -- cron.NewEvent: the scheduled time
  pub new_event : Action W E ℕ
  -- storage.NewR2Store
  pub new_r2_store : Action W E Done
  pub read_secret : Text → Action W E Bytes
  pub getenv : Text → Text
  pub parse_keyring : Bytes → Result KeyringError Keyring
  -- scheduledContext
  pub scheduled_context : W → W

pub data BuildError (E : Type 0) : Type 0 where
  r2_binding read_keyring read_token : E → BuildError E
  bad_keyring : KeyringError → BuildError E
  bad_repo : Text → BuildError E

pub data TriggerError (E F G : Type 0) : Type 0 where
  no_event : E → TriggerError E F G
  build_failed : BuildError E → TriggerError E F G
  run_failed : RunError F G → TriggerError E F G

module _ {W E : Type 0} (env : Bindings W E) where
  unfoldable pub target_repo : Text
  target_repo =
      if is_empty (env.getenv github_repo_var)
      then default_target_repo
      else env.getenv github_repo_var

  unfoldable pub built_from : Keyring → Bytes → Option (Text × Text) → Result (BuildError E) Built
  unfolding target_repo
  built_from kr token none = err (bad_repo target_repo)
  built_from kr token (some (owner, name)) =
      ok (record { keyring = kr; token = token; owner = owner; name = name })

  unfoldable pub after_token : Keyring → Result E Bytes → Result (BuildError E) Built
  unfolding built_from
  after_token kr (err e) = err (read_token e)
  after_token kr (ok token) = built_from kr token (parse_repo target_repo)

  unfoldable pub after_keyring : Result KeyringError Keyring → Action W (BuildError E) Built
  unfolding after_token
  after_keyring (err e) w = (err (bad_keyring e), w)
  after_keyring (ok kr) w =
      let (r, w') = env.read_secret github_token_binding w in (after_token kr r, w')

  unfoldable pub after_keyring_secret : Result E Bytes → Action W (BuildError E) Built
  unfolding after_keyring
  after_keyring_secret (err e) w = (err (read_keyring e), w)
  after_keyring_secret (ok raw) w = after_keyring (env.parse_keyring raw) w

  unfoldable pub after_bind : Result E Done → Action W (BuildError E) Built
  unfolding after_keyring_secret
  after_bind (err e) w = (err (r2_binding e), w)
  after_bind (ok store) w =
      let (r, w') = env.read_secret keyring_binding w in after_keyring_secret r w'

  unfoldable pub build_publish : Action W (BuildError E) Built
  unfolding after_bind
  build_publish w = let (r, w') = env.new_r2_store w in after_bind r w'

  module _ {F G : Type 0} (list_pending : Built → Action W F (List Text))
      (publish : Built → List Text → Action W G Done) where
    run_error : Option (RunError F G) → Result (TriggerError E F G) Done
    run_error none = ok tt
    run_error (some e) = err (run_failed e)

    unfoldable pub after_build :
        ℕ → Result (BuildError E) Built → Action W (TriggerError E F G) Done
    unfolding run_error
    after_build at (err e) w = (err (build_failed e), w)
    after_build at (ok built) w =
        let (ran, w') = run (list_pending built) (publish built) at (env.scheduled_context w) in
        (run_error ran.1, w')

    unfoldable pub after_event : Result E ℕ → Action W (TriggerError E F G) Done
    unfolding build_publish after_build
    after_event (err e) w = (err (no_event e), w)
    after_event (ok at) w =
        if is_friday_1700_central at
        then (let (r, w') = build_publish w in after_build at r w')
        else (ok tt, w)

    unfoldable pub run_weekly_trigger : Action W (TriggerError E F G) Done
    unfolding after_event
    run_weekly_trigger w = let (r, w') = env.new_event w in after_event r w'
