-- ===== src/Storage/Sink.antt =====
-- internal/storage/sink.go: the sink that scrubs, seals and stores a report, and the loading of the
-- keyring by WorkerSink (worker_sink_wasm.go). scrub.Scrub, the formatted time and the random bytes
-- are parameters; a failed read of random bytes leaves zeros in an id, as in the source.
pub mod Stored
pub mod Accepted
mod Tests
use libre_mail_bug_report_in.Prelude.{
  ℕ, ◌+◌, ◌/◌, ◌%◌, Option, none, some, List, [], ◌∷◌, ◌++◌, Result, ok, err, Done, Action, wrap,
  ltb, if◌then◌else◌,
}
use libre_mail_bug_report_in.Prelude.Text.{Text, codes}
use libre_mail_bug_report_in.Storage.Status.{pending, report_key}
use libre_mail_bug_report_in.Storage.Store.{Bytes, StoreError, ObjectStore}
use libre_mail_bug_report_in.Crypto.Keyring.{Keyring, KeyringError}
use libre_mail_bug_report_in.Crypto.Primitive.{Aead}
use libre_mail_bug_report_in.Crypto.Frame.{SealError, seal}

pub data SinkError : Type 0 where
  seal_error : SealError → SinkError
  put_error : StoreError → SinkError

-- What the host gives: the nonce that Seal draws, the ten bytes of an id, and the time as
-- Format("20060102T150405") prints it.
pub record Host (R : Type 0) : Type 0 where
  pub draw_nonce : R → Option Bytes × R
  pub draw_id : R → Bytes × R
  pub timestamp : R → Text

unfoldable pub hex_digit : ℕ → ℕ
hex_digit n = if ltb n 10 then b'0' + n else n + 87

-- hex.EncodeToString
unfoldable pub hex : Bytes → Text
unfolding hex_digit
hex [] = []
hex (b ∷ bs) = hex_digit (b / 16 % 16) ∷ hex_digit (b % 16) ∷ hex bs

module _ {R : Type 0} (host : Host R) where
  unfoldable pub new_report_id : R → Text × R
  unfolding hex
  new_report_id r = let (b, r') = host.draw_id r in (host.timestamp r' ++ (b'-' ∷ hex b), r')

  unfoldable pub default_object_key : R → Text × R
  unfolding new_report_id
  default_object_key r = let (id, r') = new_report_id r in (report_key pending id, r')

  module _ (primitive : Aead) (scrub : Bytes → Bytes) (S : ObjectStore) (keyring : Keyring) where
    unfoldable pub after_seal : Result SealError Bytes → Action (S.State × R) SinkError Done
    unfolding default_object_key
    after_seal (err e) w = (err (seal_error e), w)
    after_seal (ok sealed) w =
        let (k, r) = default_object_key w.1 in
        let (result, s) = S.put k sealed w.0 in (wrap put_error result, (s, r))

    unfoldable pub store : Bytes → Action (S.State × R) SinkError Done
    unfolding after_seal
    store raw w =
        let scrubbed = scrub raw in
        let (nonce, r) = host.draw_nonce w.1 in
        after_seal (seal primitive keyring scrubbed nonce) (w.0, r)

-- WorkerSink's keyring: the secret is read and parsed until that has succeeded once.
module _ {W E : Type 0} (get_secret : Action W E Bytes)
    (parse_keyring : Bytes → Result KeyringError Keyring) (bad_keyring : KeyringError → E) where
  pub record WorkerSink : Type 0 where
    pub world : W
    pub cached : Option Keyring

  unfoldable pub cache_parsed : Result KeyringError Keyring → Action WorkerSink E Keyring
  cache_parsed (err e) w = (err (bad_keyring e), w)
  cache_parsed (ok kr) w = (ok kr, record w { cached = some kr })

  unfoldable pub after_secret : Result E Bytes → Action WorkerSink E Keyring
  unfolding cache_parsed
  after_secret (err e) w = (err e, w)
  after_secret (ok raw) w = cache_parsed (parse_keyring raw) w

  unfoldable pub load_from : Option Keyring → Action WorkerSink E Keyring
  unfolding after_secret
  load_from (some kr) w = (ok kr, w)
  load_from none w =
      let (r, world) = get_secret w.world in after_secret r (record w { world = world })

  unfoldable pub load_keyring : Action WorkerSink E Keyring
  unfolding load_from
  load_keyring w = load_from w.cached w
