-- ===== src/Handler/Tests.antt =====
-- The service on concrete requests.
use libre_mail_bug_report_in.Prelude.{◌≡◌, ◌≢◌, ◌↔◌, refl, none, some, [], ◌∷◌, false, In}
use libre_mail_bug_report_in.Prelude.Text.{Text, codes, text_eq, has_prefix}
use libre_mail_bug_report_in.Prelude.Text.Spaces.{is_empty}
use libre_mail_bug_report_in.Prelude.Text.Cut.{cut, equal_fold, to_lower}
use libre_mail_bug_report_in.Storage.Status.{pending, report_key}
use libre_mail_bug_report_in.Storage.Memory.{
  MemoryStore, memory_object_store, lookup, put, get, delete, list,
}
use libre_mail_bug_report_in.Storage.Memory.Laws.{memory_store-StoreLaws, memory_contents}
use libre_mail_bug_report_in.Lifecycle.{list_pending, mark_removed, transition, trim_all}
use libre_mail_bug_report_in.Handler.Admin
use libre_mail_bug_report_in.Handler.Admin.{
  manager_backend, deny_all_backend, bearer_matches, refused, unauthorized, method_not_allowed,
  reports, remove, remove_via_post, remove_via_delete, admin_list,
}
use libre_mail_bug_report_in.Handler.Admin.Effects.{remove_via_post-reports}
use libre_mail_bug_report_in.Ingest.Serve
use libre_mail_bug_report_in.Handler.Routes.{HttpRequest}

abbrev secret : Text
secret = codes "s3cret"

abbrev listing : Admin.Request
listing = record { method = codes "GET"; authorization = codes "bEARER s3cret" }

abbrev removing : Admin.Request
removing = record { method = codes "POST"; authorization = codes "Bearer s3cret" }

abbrev intruder : Admin.Request
intruder = record { method = codes "GET"; authorization = codes "Bearer guess" }

abbrev one_id : Text
one_id = codes "20260101T000000-aa"

abbrev one_report : MemoryStore
one_report = record { objects = (report_key pending one_id, 1 ∷ []) ∷ [] }

abbrev no_ingest : Serve.Request → MemoryStore → Serve.Response × MemoryStore
no_ingest r m = (record { status = 503; allow = none; payload = Serve.accepted_body }, m)

abbrev intruding : HttpRequest
intruding = record {
  path = codes "v1" ∷ codes "admin" ∷ codes "reports" ∷ one_id ∷ [];
  authorization = codes "Bearer guess";
  report = record {
    method = codes "DELETE";
    content_type = [];
    content_length = none;
    body = record { sent = []; broken = false };
  };
}

abbrev admin_of_memory : Admin.AdminBackend MemoryStore
admin_of_memory = manager_backend memory_object_store secret

one_stored : lookup (report_key pending one_id) one_report.objects ≡ some (1 ∷ [])
unfolding lookup report_key text_eq
one_stored = refl

removal_answered : (remove_via_post admin_of_memory one_id removing one_report).0.status ≡ 200
unfolding remove_via_post remove refused bearer_matches cut equal_fold to_lower text_eq is_empty
    mark_removed transition put get delete lookup report_key Admin.from_lifecycle
removal_answered = refl

nothing_listed :
    (reports admin_of_memory listing
      (remove_via_post admin_of_memory one_id removing one_report).1).0.payload
    ≡ admin_list []
unfolding reports remove_via_post remove refused bearer_matches cut equal_fold to_lower text_eq
    is_empty mark_removed transition list_pending put get delete list lookup report_key has_prefix
    trim_all Admin.from_lifecycle
nothing_listed = refl

remove_via_post-reports_example :
    In one_id []
    ↔ ((one_id ≢ one_id) × (memory_contents one_report (report_key pending one_id) ≢ none))
remove_via_post-reports_example =
    remove_via_post-reports memory_object_store secret memory_contents memory_store-StoreLaws one_id
      one_id (1 ∷ []) one_report removing listing [] one_stored removal_answered nothing_listed
