-- ===== src/Publish/Client/Tests.antt =====
-- The client over a small world: a clock that stops at the year 2242, a server that answers every
-- request alike, with a body that takes three seconds to read, and a log of the requests.
use libre_mail_bug_report_in.Prelude.{
  ℕ, ◌+◌, ◌-◌, ◌*◌, ◌^◌, ◌≡◌, ◌≤◌, ◌<◌, inl, inr, refl, min, Option, none, some, List, [], ◌∷◌,
  ◌++◌, ok, err, arith, length, if◌then◌else◌, leb, Action, Done, Bool-cases,
}
use libre_mail_bug_report_in.Prelude.Text.{Text, codes}
use libre_mail_bug_report_in.Publish.Client.{
  World, Config, Client, HttpHead, HttpResponse, nonneg, new_client, retry_decision,
}
use libre_mail_bug_report_in.Publish.Client.Requests.{
  CreatedIssue, Label, do_request, create_issue, repo_path,
}
use libre_mail_bug_report_in.Publish.Client.Pacing.{
  Interval, ClockLaws, IsPaced, do_request-IsPaced,
}
use libre_mail_bug_report_in.Publish.Client.Confirmed.{Answered, create_issue-Answered}

abbrev end_of_time : ℕ
end_of_time = 2 ^ 63 - 2 * 10 ^ 9

pub record Small : Type 0 where
  pub clock : ℕ
  pub log : List Interval

abbrev created : HttpHead
created = record { code = 201; retry_after = []; remaining = []; reset = [] }

abbrev time_of : Small → ℕ
time_of w = min end_of_time w.clock

abbrev small_sleep : ℕ → Action Small Text Done
small_sleep d w =
    if leb (time_of w + d) end_of_time
    then (ok tt, record w { clock = time_of w + d })
    else (err (codes "context cancelled"), w)

abbrev small : World Small Text
small = record {
  now = time_of;
  sleep = small_sleep;
  jitter = λ bound w. (bound, w);
  new_request = λ url. none;
  send = λ url body w.
      (ok created, record w { log = record { start = time_of w; finish = time_of w } ∷ w.log });
  read_all = λ head w. (ok (codes "{}"), record w { clock = time_of w + 3 * 10 ^ 9 });
  parse_int = λ v. some (nonneg 30);
}

abbrev config : Config
config = record {
  base_url = codes "https://api.github.com";
  owner = codes "o";
  repo = codes "r";
  min_spacing = 10 ^ 9;
  base_backoff = 10 ^ 9;
  cap_backoff = 60 * 10 ^ 9;
  secondary_min = 60 * 10 ^ 9;
  max_attempts = 5;
}

config_is_default : new_client (codes "o") (codes "r") ≡ config
unfolding new_client
config_is_default = refl

abbrev issued_in : Small → List Interval
issued_in w = w.log

sleep_lasts_small :
    (d : ℕ) (w : Small)
    → d < 2 ^ 63
    → (small_sleep d w).0 ≡ ok tt
    → time_of w + d ≤ time_of (small_sleep d w).1
sleep_lasts_small d w fits h = elim (Bool-cases (leb (time_of w + d) end_of_time)) [
  | inl e ↦ simp e (ground arith)
  | inr e ↦ let h' = simp e at h in cc
]

sleep_issues_small : (d : ℕ) (w : Small) → (small_sleep d w).1.log ≡ w.log
sleep_issues_small d w = elim (Bool-cases (leb (time_of w + d) end_of_time)) [
  | inl e ↦ simp e refl
  | inr e ↦ simp e refl
]

small-ClockLaws : ClockLaws small config issued_in
small-ClockLaws = record {
  sleep_lasts = sleep_lasts_small;
  sleep_issues = sleep_issues_small;
  jitter_issues = λ d w. refl;
  read_issues = λ head w. refl;
  send_issues = λ url body w. refl;
  now_fits = λ w. omega arith;
}

abbrev fresh : Client Small
fresh = record { world = record { clock = 10 ^ 18; log = [] }; last_mutation = none }

do_request-IsPaced_example :
    IsPaced small config issued_in (do_request small config (codes "/x") [] fresh).1
    × (length (do_request small config (codes "/x") [] fresh).1.world.log ≤ 5)
do_request-IsPaced_example =
    do_request-IsPaced small config issued_in small-ClockLaws (codes "/x") [] fresh (tt, tt)

abbrev limited : HttpResponse
limited = record {
  code = 403;
  body = codes "{}";
  retry_after = codes "30";
  remaining = [];
  reset = [];
}

abbrev issue : CreatedIssue
issue = record { number = 1; html_url = codes "https://github.com/o/r/issues/1" }

abbrev marshal_label : Label → Text
marshal_label l = l.name

abbrev marshal_issue : Text → Text → List Text → Text
marshal_issue title body labels = title

abbrev unmarshal_issue : Text → Option CreatedIssue
unmarshal_issue body = some issue

issue_is_created :
    (create_issue small config marshal_label marshal_issue unmarshal_issue
      (codes "t")
      (codes "b")
      []
      fresh).0
    ≡ ok issue
unfolding create_issue do_request retry_decision
issue_is_created = refl

create_issue-Answered_example :
    (answer : Text) × Answered small config
      (config.base_url ++ repo_path small config (codes "issues"))
      (codes "t")
      201
      answer
    × (unmarshal_issue answer ≡ some issue)
create_issue-Answered_example =
    create_issue-Answered small config marshal_label marshal_issue unmarshal_issue (codes "t")
      (codes "b") [] fresh issue issue_is_created
