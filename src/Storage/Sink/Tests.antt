-- ===== src/Storage/Sink/Tests.antt =====
-- The sink over the in-memory store, with the toy primitive of the frame's tests.
use libre_mail_bug_report_in.Prelude.{
  ℕ, suc, ◌≡◌, ◌≢◌, refl, Option, none, some, [], Bool, true, false, Result, ok, arith, replicate,
}
use libre_mail_bug_report_in.Prelude.Text.{Text, codes, text_eq}
use libre_mail_bug_report_in.Prelude.Text.Spaces.{trim_space, is_empty, byte_len}
use libre_mail_bug_report_in.Storage.Status.{pending, report_key}
use libre_mail_bug_report_in.Storage.Store.{Bytes}
use libre_mail_bug_report_in.Storage.Memory.{MemoryStore, memory_object_store, put}
use libre_mail_bug_report_in.Storage.Memory.Laws.{memory_contents, memory_store-StoreLaws}
use libre_mail_bug_report_in.Crypto.Keyring.{Keyring, KeyringError}
use libre_mail_bug_report_in.Crypto.Frame.{seal, seal_with_nonce}
use libre_mail_bug_report_in.Crypto.Frame.Tests.{
  toy, toy-AeadLaws, old_ring, rotated_ring, first_key, found_old, found_rotated,
}
use libre_mail_bug_report_in.Storage.Sink.{
  Host, store, new_report_id, hex, WorkerSink, load_keyring,
}
use libre_mail_bug_report_in.Storage.Sink.Stored.{id_of, OpensLater, HoldsPending}
use libre_mail_bug_report_in.Storage.Sink.Accepted.{as_sink, serve-HoldsPending}
use libre_mail_bug_report_in.Ingest.Report.{Report, parse_report, validate, more}
use libre_mail_bug_report_in.Ingest.Serve.{Request, serve, is_json_content_type}

abbrev counting : Host ℕ
counting = record {
  draw_nonce = λ n. (some (replicate 12 n), suc n);
  draw_id = λ n. (replicate 10 n, suc n);
  timestamp = λ n. codes "20260102T030405";
}

abbrev mask : Bytes → Bytes
mask raw = codes "[REDACTED]"

abbrev empty_store : MemoryStore × ℕ
empty_store = (record { objects = [] }, 7)

id_is_printed : id_of counting 7 ≡ codes "20260102T030405-08080808080808080808"
unfolding new_report_id hex
id_is_printed = refl

opens_later :
    OpensLater counting toy mask memory_object_store old_ring memory_contents memory_store-StoreLaws
      rotated_ring first_key
opens_later = ((omega arith), found_old, found_rotated)

stored :
    (store counting toy mask memory_object_store old_ring (codes "mail@x") empty_store).0 ≡ ok tt
unfolding store seal seal_with_nonce put
stored = refl

other_key : report_key pending (id_of counting 7) ≢ codes "x"
unfolding report_key
other_key = λ e. cc

abbrev json_media : Text → Option Text
json_media ct = some (codes "application/json")

abbrev any_timestamp : Text → Bool
any_timestamp t = true

abbrev decode_any : Bytes → Option (Report × Bytes)
decode_any raw = some (
  record {
    app_version = codes "1";
    platform = codes "android";
    report = codes "crash";
    os_version = [];
    device = [];
    client_timestamp = [];
  },
  [],
)

abbrev post : Request
post = record {
  method = codes "POST";
  content_type = codes "application/json";
  content_length = none;
  body = record { sent = codes "{}"; broken = false };
}

answered_202 :
    (serve json_media any_timestamp decode_any
      (as_sink counting toy mask memory_object_store old_ring)
      post
      empty_store).0.status
    ≡ 202
unfolding serve as_sink store seal seal_with_nonce put parse_report validate more trim_space
    is_empty byte_len text_eq is_json_content_type
answered_202 = refl

serve-HoldsPending_example :
    HoldsPending counting toy mask memory_object_store old_ring memory_contents
      memory_store-StoreLaws rotated_ring
      (id_of counting 7)
      (codes "[REDACTED]")
      (serve json_media any_timestamp decode_any
        (as_sink counting toy mask memory_object_store old_ring)
        post
        empty_store).1.0
serve-HoldsPending_example =
    serve-HoldsPending counting toy mask memory_object_store old_ring memory_contents
      memory_store-StoreLaws json_media any_timestamp decode_any rotated_ring first_key post
      empty_store toy-AeadLaws opens_later answered_202

abbrev read_secret : ℕ → Result Text Bytes × ℕ
read_secret n = (ok (codes "{}"), suc n)

abbrev parse_any : Bytes → Result KeyringError Keyring
parse_any raw = ok old_ring

abbrev bad : KeyringError → Text
bad e = codes "bad keyring"

abbrev cold : WorkerSink read_secret parse_any bad
cold = record { world = 0; cached = none }

loaded : (load_keyring read_secret parse_any bad cold).0 ≡ ok old_ring
unfolding load_keyring
loaded = refl
