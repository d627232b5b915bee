-- ===== src/Worker/Backend/Stored.antt =====
-- What WorkerSink.Store of internal/storage/worker_sink_wasm.go leaves behind a nil error.
use libre_mail_bug_report_in.Prelude.{
  ◌≡◌, refl, sym, ap, ap₂, ◌∙◌, Option, none, some, Result, ok, err, Done, Action, wrap,
}
use libre_mail_bug_report_in.Prelude.Text.{Text}
use libre_mail_bug_report_in.Storage.Store.{Bytes, ObjectStore, StoreLaws}
use libre_mail_bug_report_in.Crypto.Keyring.{Keyring, KeyringError}
use libre_mail_bug_report_in.Crypto.Primitive.{Aead, AeadLaws}
use libre_mail_bug_report_in.Storage.Sink.{
  Host, SinkError, store, WorkerSink, cache_parsed, after_secret, load_from, load_keyring,
}
use libre_mail_bug_report_in.Storage.Sink.Stored.{
  OpensLater, HoldsPending, store-HoldsPending, id_of,
}
use libre_mail_bug_report_in.Worker.Backend.{
  WorkerSinkError, worker_store, store_failed, after_load, after_bucket,
}

module _ {W E : Type 0} (get_secret : Action W E Bytes)
    (parse_keyring : Bytes → Result KeyringError Keyring) (bad_keyring : KeyringError → E) where
  -- The keyring is the one that was kept, or where none was, the one that the secret parses to.
  abbrev pub IsKeyring : Option Keyring → W → Keyring → Type 0
  IsKeyring (some kept) w kr = kept ≡ kr
  IsKeyring none w kr =
      (secret : Bytes) × ((get_secret w).0 ≡ ok secret) × (parse_keyring secret ≡ ok kr)

  pub IsKeyring-unique :
      (o : Option Keyring) (w : W) (a b : Keyring) → IsKeyring o w a → IsKeyring o w b → a ≡ b
  IsKeyring-unique (some kept) w a b ha hb = sym ha ∙ hb
  IsKeyring-unique none w a b (s, read, parsed) (s', read', parsed') =
      let same : s ≡ s' = cc in let both = rw same at parsed in cc

  cache_parsed-IsKeyring :
      (p : Result KeyringError Keyring) (w : WorkerSink get_secret parse_keyring bad_keyring)
      (kr : Keyring)
      → (cache_parsed get_secret parse_keyring bad_keyring p w).0 ≡ ok kr
      → p ≡ ok kr
  unfolding cache_parsed
  cache_parsed-IsKeyring (ok found) w kr h = cc
  cache_parsed-IsKeyring (err e) w kr h = cc

  after_secret-IsKeyring :
      (r : Result E Bytes) (w : WorkerSink get_secret parse_keyring bad_keyring) (kr : Keyring)
      → (after_secret get_secret parse_keyring bad_keyring r w).0 ≡ ok kr
      → (secret : Bytes) × (r ≡ ok secret) × (parse_keyring secret ≡ ok kr)
  unfolding after_secret
  after_secret-IsKeyring (ok secret) w kr h =
      (secret, refl, cache_parsed-IsKeyring (parse_keyring secret) w kr h)
  after_secret-IsKeyring (err e) w kr h = cc

  load_from-IsKeyring :
      (o : Option Keyring) (w : WorkerSink get_secret parse_keyring bad_keyring) (kr : Keyring)
      → (load_from get_secret parse_keyring bad_keyring o w).0 ≡ ok kr
      → IsKeyring o w.world kr
  unfolding load_from
  load_from-IsKeyring (some kept) w kr h = cc
  load_from-IsKeyring none w kr h =
      let (r, world) = get_secret w.world in
      after_secret-IsKeyring r (record w { world = world }) kr h

  load_keyring-IsKeyring :
      (w : WorkerSink get_secret parse_keyring bad_keyring) (kr : Keyring)
      → (load_keyring get_secret parse_keyring bad_keyring w).0 ≡ ok kr
      → IsKeyring w.cached w.world kr
  unfolding load_keyring
  load_keyring-IsKeyring w kr h = load_from-IsKeyring w.cached w kr h

module _ {R E : Type 0} (host : Host R) (primitive : Aead) (scrub : Bytes → Bytes) (S : ObjectStore)
    (new_r2_store : Action (S.State × R) E Done) (get_secret : Action (S.State × R) E Bytes)
    (parse_keyring : Bytes → Result KeyringError Keyring) (bad_keyring : KeyringError → E) where
  abbrev Kept : Type 0
  Kept = WorkerSink get_secret parse_keyring bad_keyring

  -- A keyring was there or was loaded, the bucket was bound behind that, and the shared pipeline stored
  -- the report under that keyring.
  abbrev StoredUnder : Bytes → Kept → Kept → Type 0
  StoredUnder raw w w' =
      (kr : Keyring) × (loaded : Kept) × (world : S.State × R) × (load_keyring get_secret
          parse_keyring bad_keyring w
        ≡ (ok kr, loaded))
      × (new_r2_store loaded.world ≡ (ok tt, world))
      × (store host primitive scrub S kr raw world ≡ (ok tt, w'.world))

  worker_store-StoredUnder :
      (raw : Bytes) (w w' : Kept)
      → worker_store host primitive scrub S new_r2_store get_secret parse_keyring bad_keyring raw w
        ≡ (ok tt, w')
      → StoredUnder raw w w'
  unfolding worker_store after_load after_bucket
  worker_store-StoredUnder raw w w' h =
      load (load_keyring get_secret parse_keyring bad_keyring w).0
        (load_keyring get_secret parse_keyring bad_keyring w).1 refl h
    where
      stored :
          (r : Result SinkError Done)
          → Path (Result (WorkerSinkError E) Done) (wrap store_failed r) (ok tt)
          → r ≡ ok tt
      stored (ok _) e = refl
      stored (err x) e = cc

      bucket :
          (kr : Keyring) (v : Kept) (r : Result E Done) (world : S.State × R)
          → load_keyring get_secret parse_keyring bad_keyring w ≡ (ok kr, v)
          → new_r2_store v.world ≡ (r, world)
          → after_bucket host primitive scrub S new_r2_store get_secret parse_keyring bad_keyring kr
              raw r
              (record v { world = world })
            ≡ (ok tt, w')
          → StoredUnder raw w w'
      bucket kr v (err e) world l b h' = cc
      bucket kr v (ok _) world l b h' =
          let done = stored (store host primitive scrub S kr raw world).0 (ap (λ x. x.0) h') in
          (kr, v, world, l, b, ap₂ (λ r x. (r, x)) done (ap (λ x. x.1.world) h'))

      load :
          (r : Result E Keyring) (v : Kept)
          → load_keyring get_secret parse_keyring bad_keyring w ≡ (r, v)
          → after_load host primitive scrub S new_r2_store get_secret parse_keyring bad_keyring raw
              r v
            ≡ (ok tt, w')
          → StoredUnder raw w w'
      load (err e) v l h' = cc
      load (ok kr) v l h' = bucket kr v (new_r2_store v.world).0 (new_r2_store v.world).1 l refl h'

  module _ (contents : S.State → Text → Option Bytes) (laws : StoreLaws S contents) where
    -- The store holds, at the pending key of an id that the host has drawn, a frame that opens under
    -- this keyring to these bytes.
    abbrev pub HoldsReport : Keyring → Keyring → Bytes → S.State → Type 0
    HoldsReport kr later plaintext s =
        (r : R) × HoldsPending host primitive scrub S kr contents laws later (id_of host r)
          plaintext s

    -- Let the keyring be the one that is kept, or where none is, the one that the secret parses to.
    -- Where the Worker's Store returns nil, the store holds the report at the pending key of an id that
    -- was drawn: a frame that opens to the scrubbed bytes under any keyring that still has that
    -- keyring's active key.
    pub worker_store-HoldsReport :
        (kr later : Keyring) (k raw : Bytes) (w w' : Kept)
        → AeadLaws primitive
        → IsKeyring get_secret parse_keyring bad_keyring w.cached w.world kr
        → OpensLater host primitive scrub S kr contents laws later k
        → worker_store host primitive scrub S new_r2_store get_secret parse_keyring bad_keyring raw
            w
          ≡ (ok tt, w')
        → HoldsReport kr later (scrub raw) w'.world.0
    worker_store-HoldsReport kr later k raw w w' aead is_keyring opens h =
        let (found, loaded, world, load, bound, stored) = worker_store-StoredUnder raw w w' h in
        let same =
          IsKeyring-unique get_secret parse_keyring bad_keyring w.cached w.world found kr
            (load_keyring-IsKeyring get_secret parse_keyring bad_keyring w found
              (ap (λ x. x.0) load))
            is_keyring in
        let stored' = rw same at stored in
        (
          world.1,
          rw (ap (λ x. x.1.0) stored') at (
              store-HoldsPending host primitive scrub S kr contents laws later k raw world aead
                opens (ap (λ x. x.0) stored')),
        )
