-- ===== src/Storage/Sink/Stored.antt =====
-- What the sink leaves in the store.
use libre_mail_bug_report_in.Prelude.{
  ◌≡◌, ◌≢◌, ◌<◌, refl, Option, none, some, Result, ok, err, Done, Action, wrap,
}
use libre_mail_bug_report_in.Prelude.Text.{Text}
use libre_mail_bug_report_in.Storage.Status.{pending, report_key}
use libre_mail_bug_report_in.Storage.Store.{Bytes, StoreError, ObjectStore, StoreLaws}
use libre_mail_bug_report_in.Crypto.Keyring.{Keyring, KeyringError, find_key}
use libre_mail_bug_report_in.Crypto.Primitive.{Aead, AeadLaws}
use libre_mail_bug_report_in.Crypto.Frame.{SealError, seal, open_frame}
use libre_mail_bug_report_in.Crypto.Frame.RoundTrip.{open_frame-seal}
use libre_mail_bug_report_in.Storage.Sink.{
  Host, put_error, new_report_id, default_object_key, after_seal, store, WorkerSink, cache_parsed,
  after_secret, load_from, load_keyring,
}

module _ {R : Type 0} (host : Host R) where
  -- the id that a report is stored under, in a state of the host
  abbrev pub id_of : R → Text
  id_of r = (new_report_id host (host.draw_nonce r).1).0

  module _ (primitive : Aead) (scrub : Bytes → Bytes) (S : ObjectStore) (keyring : Keyring)
      (contents : S.State → Text → Option Bytes) (laws : StoreLaws S contents) where
    put_ok : (r : Result StoreError Done) → wrap put_error r ≡ ok tt → r ≡ ok tt
    put_ok (ok tt) h = refl
    put_ok (err e) h = cc

    after_seal_ok :
        (r : Result SealError Bytes) (w : S.State × R)
        → (after_seal host primitive scrub S keyring r w).0 ≡ ok tt
        → (frame : Bytes) × (r ≡ ok frame)
          × (contents
                (after_seal host primitive scrub S keyring r w).1.0
                (report_key pending (new_report_id host w.1).0)
              ≡ some frame)
    unfolding after_seal default_object_key
    after_seal_ok (err e) w h = cc
    after_seal_ok (ok frame) w h =
        let k = report_key pending (new_report_id host w.1).0 in
        (frame, refl, laws.put_ok k frame w.0 (put_ok (S.put k frame w.0).0 h))

    -- What a keyring must have for its frames to be opened again: its active version within 16 bits,
    -- with a key, which `later` still has.
    abbrev pub OpensLater : Keyring → Bytes → Type 0
    OpensLater later k =
        (keyring.active < 65536)
        × (find_key keyring.active keyring.keys ≡ some k)
        × (find_key keyring.active later.keys ≡ some k)

    -- The store holds, at a pending key, a frame that opens to these bytes.
    abbrev pub HoldsPending : Keyring → Text → Bytes → S.State → Type 0
    HoldsPending later id plaintext s =
        (frame : Bytes) × (contents s (report_key pending id) ≡ some frame)
        × (open_frame primitive later frame ≡ ok plaintext)

    seal_opens :
        (later : Keyring) (k plaintext frame : Bytes) (nonce : Option Bytes)
        → AeadLaws primitive
        → OpensLater later k
        → seal primitive keyring plaintext nonce ≡ ok frame
        → open_frame primitive later frame ≡ ok plaintext
    unfolding seal
    seal_opens later k plaintext frame none aead opens h = cc
    seal_opens later k plaintext frame (some nonce) aead opens h =
        open_frame-seal primitive aead keyring later k plaintext nonce frame opens.0 opens.1 opens.2
          h

    -- Where Store reports success, the store holds the report, scrubbed and sealed, under the pending
    -- key of its new id, and a keyring that still has the key opens it to the scrubbed bytes.
    pub store-HoldsPending :
        (later : Keyring) (k raw : Bytes) (w : S.State × R)
        → AeadLaws primitive
        → OpensLater later k
        → (store host primitive scrub S keyring raw w).0 ≡ ok tt
        → HoldsPending later
            (id_of w.1)
            (scrub raw)
            (store host primitive scrub S keyring raw w).1.0
    unfolding store
    store-HoldsPending later k raw w aead opens h =
        let (nonce, r) = host.draw_nonce w.1 in
        let (frame, sealed, held) =
          after_seal_ok (seal primitive keyring (scrub raw) nonce) (w.0, r) h in
        (frame, held, seal_opens later k (scrub raw) frame nonce aead opens sealed)

    after_seal_elsewhere :
        (r : Result SealError Bytes) (w : S.State × R) (j : Text)
        → report_key pending (new_report_id host w.1).0 ≢ j
        → contents (after_seal host primitive scrub S keyring r w).1.0 j ≡ contents w.0 j
    unfolding after_seal default_object_key
    after_seal_elsewhere (err e) w j h = refl
    after_seal_elsewhere (ok frame) w j h =
        laws.put_other (report_key pending (new_report_id host w.1).0) j frame w.0 h

    -- Whatever Store returns, every key but the pending key of the new id has the object it had.
    pub store_elsewhere :
        (raw : Bytes) (w : S.State × R) (j : Text)
        → report_key pending (id_of w.1) ≢ j
        → contents (store host primitive scrub S keyring raw w).1.0 j ≡ contents w.0 j
    unfolding store
    store_elsewhere raw w j h =
        let (nonce, r) = host.draw_nonce w.1 in
        after_seal_elsewhere (seal primitive keyring (scrub raw) nonce) (w.0, r) j h

module _ {W E : Type 0} (get_secret : Action W E Bytes)
    (parse_keyring : Bytes → Result KeyringError Keyring) (bad_keyring : KeyringError → E) where
  cache_parsed_ok :
      (p : Result KeyringError Keyring) (w : WorkerSink get_secret parse_keyring bad_keyring)
      (kr : Keyring)
      → (cache_parsed get_secret parse_keyring bad_keyring p w).0 ≡ ok kr
      → (cache_parsed get_secret parse_keyring bad_keyring p w).1.cached ≡ some kr
  unfolding cache_parsed
  cache_parsed_ok (ok found) w kr h = let same : found ≡ kr = cc in rw same refl
  cache_parsed_ok (err e) w kr h = cc

  after_secret_ok :
      (r : Result E Bytes) (w : WorkerSink get_secret parse_keyring bad_keyring) (kr : Keyring)
      → (after_secret get_secret parse_keyring bad_keyring r w).0 ≡ ok kr
      → (after_secret get_secret parse_keyring bad_keyring r w).1.cached ≡ some kr
  unfolding after_secret
  after_secret_ok (ok raw) w kr h = cache_parsed_ok (parse_keyring raw) w kr h
  after_secret_ok (err e) w kr h = cc

  load_from_ok :
      (o : Option Keyring) (w : WorkerSink get_secret parse_keyring bad_keyring) (kr : Keyring)
      → w.cached ≡ o
      → (load_from get_secret parse_keyring bad_keyring o w).0 ≡ ok kr
      → (load_from get_secret parse_keyring bad_keyring o w).1.cached ≡ some kr
  unfolding load_from
  load_from_ok (some found) w kr e h = let same : found ≡ kr = cc in rw (← same) e
  load_from_ok none w kr e h =
      let (r, world) = get_secret w.world in after_secret_ok r (record w { world = world }) kr h

  -- A keyring that was loaded once is what every later load returns, and no later load reads the
  -- secret or changes anything.
  pub load_keyring_once :
      (w : WorkerSink get_secret parse_keyring bad_keyring) (kr : Keyring)
      → (load_keyring get_secret parse_keyring bad_keyring w).0 ≡ ok kr
      → load_keyring get_secret parse_keyring bad_keyring
          (load_keyring get_secret parse_keyring bad_keyring w).1
        ≡ (ok kr, (load_keyring get_secret parse_keyring bad_keyring w).1)
  unfolding load_keyring load_from
  load_keyring_once w kr h = simp (load_from_ok w.cached w kr refl h) refl
