-- ===== src/Worker/Tests.antt =====
-- The Worker's entry points over small runtimes, and their theorems there.
use libre_mail_bug_report_in.Prelude.{
  ℕ, suc, ◌≡◌, ◌⊎◌, ◌↔◌, refl, ap, none, some, List, [], ◌∷◌, Result, ok, err, Done, arith,
}
use libre_mail_bug_report_in.Prelude.Text.{Text, codes}
use libre_mail_bug_report_in.Prelude.Text.Cut.{cut}
use libre_mail_bug_report_in.Prelude.Text.Spaces.{trim_space}
use libre_mail_bug_report_in.Storage.Store.{Bytes}
use libre_mail_bug_report_in.Storage.Memory.{MemoryStore, memory_object_store, put}
use libre_mail_bug_report_in.Crypto.Keyring.{Keyring, KeyringError}
use libre_mail_bug_report_in.Crypto.Frame.{seal, seal_with_nonce}
use libre_mail_bug_report_in.Crypto.Frame.Tests.{
  toy, toy-AeadLaws, old_ring, rotated_ring, first_key, found_old, found_rotated,
}
use libre_mail_bug_report_in.Storage.Sink.{Host, store, load_keyring, WorkerSink}
use libre_mail_bug_report_in.Publish.Batch.{parse_repo}
use libre_mail_bug_report_in.Worker.Scheduled.{
  Bindings, Built, build_publish, target_repo, bad_repo,
}
use libre_mail_bug_report_in.Worker.Scheduled.Weekly.{OnlyAt, trigger_once_a_friday}
use libre_mail_bug_report_in.Worker.Scheduled.Wiring.{Wired, build_publish_iff}
use libre_mail_bug_report_in.Worker.Backend.{worker_store}
use libre_mail_bug_report_in.Worker.Backend.Stored.{HoldsReport, worker_store-HoldsReport}
use libre_mail_bug_report_in.Storage.Memory.Laws.{memory_contents, memory_store-StoreLaws}
use libre_mail_bug_report_in.Storage.Sink.Stored.{OpensLater}
use libre_mail_bug_report_in.Schedule.Gate.Friday.{cron_fire}
use libre_mail_bug_report_in.Schedule.Calendar.{weekday_of_day}

-- a runtime that counts what is read of it; one repository is set
abbrev counted : Bindings ℕ Text
counted = record {
  new_event = λ n. (ok 0, n);
  new_r2_store = λ n. (ok tt, suc n);
  read_secret = λ name n. (ok name, suc n);
  getenv = λ name. codes " owner/repo ";
  parse_keyring = λ raw. ok old_ring;
  scheduled_context = λ n. n;
}

abbrev list_one : Built → ℕ → Result Text (List Text) × ℕ
list_one built n = (ok (built.owner ∷ []), suc n)

abbrev publish_all : Built → List Text → ℕ → Result Text Done × ℕ
publish_all built ids n = (ok tt, suc n)

trigger_once_a_friday_example :
    OnlyAt counted list_one publish_all (cron_fire 4 22) (cron_fire 4 23)
    ⊎ OnlyAt counted list_one publish_all (cron_fire 4 23) (cron_fire 4 22)
unfolding weekday_of_day
trigger_once_a_friday_example = trigger_once_a_friday counted list_one publish_all 4 refl

abbrev built : Built
built = record {
  keyring = old_ring;
  token = codes "GITHUB_TOKEN";
  owner = codes "owner";
  name = codes "repo";
}

build_publish_iff_example : (build_publish counted 0 ≡ (ok built, 3)) ↔ Wired counted built 0 3
build_publish_iff_example = build_publish_iff counted built 0 3

parts_by_hand : Wired counted built 0 3
unfolding build_publish target_repo parse_repo cut trim_space
parts_by_hand = build_publish_iff_example.0 refl

-- a slash in the name is refused
bad_name :
    (build_publish (record counted { getenv = λ name. codes "a/b/c" }) 0).0
    ≡ err (bad_repo (codes "a/b/c"))
unfolding build_publish target_repo parse_repo cut trim_space
bad_name = refl

abbrev start : MemoryStore × ℕ
start = (record { objects = [] }, 7)

abbrev bind_bucket : MemoryStore × ℕ → Result Text Done × (MemoryStore × ℕ)
bind_bucket w = (ok tt, (w.0, suc w.1))

abbrev counting : Host ℕ
counting = record {
  draw_nonce = λ n. (some (12 ∷ 12 ∷ 12 ∷ 12 ∷ 12 ∷ 12 ∷ 12 ∷ 12 ∷ 12 ∷ 12 ∷ 12 ∷ 12 ∷ []), suc n);
  draw_id = λ n. (n ∷ [], suc n);
  timestamp = λ n. codes "20260102T030405";
}

abbrev get_secret : MemoryStore × ℕ → Result Text Bytes × (MemoryStore × ℕ)
get_secret w = (ok (codes "{}"), w)

abbrev any_keyring : Bytes → Result KeyringError Keyring
any_keyring raw = ok old_ring

abbrev bad : KeyringError → Text
bad e = codes "bad"

abbrev cold : WorkerSink get_secret any_keyring bad
cold = record { world = start; cached = none }

abbrev after : WorkerSink get_secret any_keyring bad
after =
    (worker_store counting toy (λ raw. raw) memory_object_store bind_bucket get_secret any_keyring
      bad (codes "{}") cold).1

is_stored :
    (worker_store counting toy
      (λ raw. raw)
      memory_object_store
      bind_bucket
      get_secret
      any_keyring
      bad
      (codes "{}")
      cold).0
    ≡ ok tt
unfolding worker_store load_keyring store seal seal_with_nonce put
is_stored = refl

later_opens :
    OpensLater counting toy
      (λ raw. raw)
      memory_object_store
      old_ring
      memory_contents
      memory_store-StoreLaws
      rotated_ring
      first_key
later_opens = ((omega arith), found_old, found_rotated)

worker_store-HoldsReport_example :
    HoldsReport counting toy
      (λ raw. raw)
      memory_object_store
      bind_bucket
      get_secret
      any_keyring
      bad
      memory_contents
      memory_store-StoreLaws
      old_ring
      rotated_ring
      (codes "{}")
      after.world.0
worker_store-HoldsReport_example =
    worker_store-HoldsReport counting toy (λ raw. raw) memory_object_store bind_bucket get_secret
      any_keyring bad memory_contents memory_store-StoreLaws old_ring rotated_ring first_key
      (codes "{}") cold after toy-AeadLaws (codes "{}", refl, refl) later_opens
      (ap (λ r. (r, after)) is_stored)
