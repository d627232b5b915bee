-- ===== src/Publish/Batch/Tests.antt =====
-- A run over the in-memory store, with a GitHub that creates every issue and counts them.
use libre_mail_bug_report_in.Prelude.{
  ℕ, suc, ◌≡◌, ◌⊎◌, inl, inr, refl, none, some, List, [], ◌∷◌, ok, arith, In,
}
use libre_mail_bug_report_in.Prelude.Text.{Text, codes, text_eq}
use libre_mail_bug_report_in.Prelude.Text.Spaces.{trim_space}
use libre_mail_bug_report_in.Prelude.Text.Cut.{cut}
use libre_mail_bug_report_in.Storage.Status.{pending, published, report_key}
use libre_mail_bug_report_in.Storage.Memory.{
  MemoryStore, memory_object_store, lookup, put, get, delete,
}
use libre_mail_bug_report_in.Storage.Memory.Laws.{memory_contents, memory_store-StoreLaws}
use libre_mail_bug_report_in.Lifecycle.{get_pending, mark_published, transition}
use libre_mail_bug_report_in.Publish.Client.Requests.{default_labels}
use libre_mail_bug_report_in.Publish.Batch.{
  IssueCreator, publish, publish_one, publish_each, capped, parse_repo, tally, unless_cancelled,
}
use libre_mail_bug_report_in.Publish.Batch.Wired.{Job, wired}
use libre_mail_bug_report_in.Publish.Batch.Marks.{IsHeld, IsPublished}
use libre_mail_bug_report_in.Publish.Batch.Outcomes.{publish-Held}
use libre_mail_bug_report_in.Publish.Batch.Complete.{publish_nil-Moved}
use libre_mail_bug_report_in.Publish.Batch.Confirmed.{Confirmed, publish_one-Confirmed}

abbrev counting : IssueCreator ℕ Text
counting = record {
  ensure_labels = λ labels n. (ok tt, n);
  create_issue = λ title body labels n. (ok (record { number = n; html_url = codes "u" }), suc n);
}

abbrev job : Job (MemoryStore × ℕ) Text
job = record {
  store_error = λ e. codes "store";
  lifecycle_error = λ e. codes "lifecycle";
  open_frame = λ frame. ok frame;
  format_issue = λ id plaintext. (id, plaintext);
  ctx_err = λ w. none;
  labels = default_labels;
  max_per_run = 1;
}

abbrev first_id : Text
first_id = codes "20260101T000000-aa"

abbrev second_id : Text
second_id = codes "20260102T000000-bb"

abbrev two_reports : MemoryStore × ℕ
two_reports = (
  record {
    objects =
        (report_key pending first_id, codes "crash")
        ∷ (report_key pending second_id, codes "hang")
        ∷ [];
  },
  0,
)

abbrev both : List Text
both = first_id ∷ second_id ∷ []

first_stored : lookup (report_key pending first_id) two_reports.0.objects ≡ some (codes "crash")
unfolding lookup report_key text_eq
first_stored = refl

batch_is_first : capped (wired memory_object_store counting job) both ≡ first_id ∷ []
unfolding capped
batch_is_first = refl

first_batched : In first_id (capped (wired memory_object_store counting job) both)
first_batched = rw batch_is_first (inl refl)

second_beyond : ¬ (In second_id (capped (wired memory_object_store counting job) both))
second_beyond m = elim (rw batch_is_first at m) [ inl e ↦ ground (arith, e) | inr h ↦ absurd h ]

no_errors : (publish (wired memory_object_store counting job) both two_reports).0.errors ≡ []
unfolding publish publish_each publish_one capped tally unless_cancelled get_pending mark_published
    transition get put delete lookup report_key text_eq
no_errors = refl

publish-Held_example :
    IsHeld memory_object_store memory_contents memory_store-StoreLaws first_id
      (codes "crash")
      (publish (wired memory_object_store counting job) both two_reports).1.0
publish-Held_example =
    publish-Held memory_object_store memory_contents memory_store-StoreLaws counting job both
      two_reports first_id (codes "crash") first_stored

publish_nil-Moved_example :
    IsPublished memory_object_store memory_contents memory_store-StoreLaws first_id
      (codes "crash")
      (publish (wired memory_object_store counting job) both two_reports).1.0
publish_nil-Moved_example =
    publish_nil-Moved memory_object_store memory_contents memory_store-StoreLaws counting job both
      two_reports first_id (codes "crash") first_stored first_batched no_errors

publish_one-Confirmed_example :
    (memory_contents
        (publish_one (wired memory_object_store counting job) first_id [] two_reports).1.0
        (report_key published first_id)
      ≡ memory_contents two_reports.0 (report_key published first_id))
    ⊎ Confirmed memory_object_store memory_contents memory_store-StoreLaws counting job first_id []
        two_reports
publish_one-Confirmed_example =
    publish_one-Confirmed memory_object_store memory_contents memory_store-StoreLaws counting job
      first_id [] two_reports (report_key published first_id)

repo_is_split : parse_repo (codes " JMR-dev/LibreMail ") ≡ some (codes "JMR-dev", codes "LibreMail")
unfolding parse_repo trim_space cut
repo_is_split = refl

repo_with_two_slashes : parse_repo (codes "a/b/c") ≡ none
unfolding parse_repo trim_space cut
repo_with_two_slashes = refl
