-- ===== src/Crypto/Frame/RoundTrip.antt =====
-- Opening what was sealed.
use libre_mail_bug_report_in.Prelude.{
  ℕ, ◌+◌, ◌*◌, ◌/◌, ◌%◌, ◌≡◌, ◌≤◌, ◌<◌, ◌∙◌, refl, Option, none, some, ◌++◌, false, ok, ltb, ◌==◌,
  arith, length, length-append, append_assoc, take-length-append, drop-length-append, Bool-cases,
  inl, inr,
}
use libre_mail_bug_report_in.Crypto.Keyring.{Bytes, Keyring, find_key, key}
use libre_mail_bug_report_in.Crypto.Primitive.{Aead, AeadLaws}
use libre_mail_bug_report_in.Crypto.Frame.{
  header, key_id, nil_slice, or_seal_failed, or_auth, seal_with_nonce, seal, open_frame,
}
use libre_mail_bug_report_in.Prelude.Text.{text_eq}

module _ (a : Aead) where
  -- What a seal that succeeded has written.
  pub record Sealed (kr : Keyring) (plaintext nonce frame : Bytes) : Type 0 where
    pub sealed : Bytes
    pub nonce_sized : length nonce ≡ 12
    pub by_primitive :
        a.seal (nil_slice (find_key kr.active kr.keys)) nonce plaintext (header kr.active)
        ≡ some sealed
    pub layout : frame ≡ header kr.active ++ (nonce ++ sealed)

  seal_with_nonce_ok :
      (kr : Keyring) (plaintext nonce frame : Bytes)
      → seal_with_nonce a kr plaintext nonce ≡ ok frame
      → Sealed kr plaintext nonce frame
  unfolding seal_with_nonce
  seal_with_nonce_ok kr plaintext nonce frame h = elim (Bool-cases (length nonce == 12)) [
    | inr e ↦ let h' = rw e at h in cc
    | inl e ↦
        split (a.seal (nil_slice (find_key kr.active kr.keys)) nonce plaintext (header kr.active))
          refl (rw e at h)
  ]
    where
      split :
          (o : Option Bytes)
          → a.seal (nil_slice (find_key kr.active kr.keys)) nonce plaintext (header kr.active) ≡ o
          → or_seal_failed (header kr.active ++ nonce) o ≡ ok frame
          → Sealed kr plaintext nonce frame
      split none e' h' = cc
      split (some sealed) e' h' = record {
        sealed = sealed;
        nonce_sized = ground arith;
        by_primitive = e';
        layout =
            let e : frame ≡ (header kr.active ++ nonce) ++ sealed = cc in
            e ∙ append_assoc (header kr.active) nonce sealed;
      }

  pub seal_ok :
      (kr : Keyring) (plaintext nonce frame : Bytes)
      → seal a kr plaintext (some nonce) ≡ ok frame
      → Sealed kr plaintext nonce frame
  unfolding seal
  seal_ok kr plaintext nonce frame h = seal_with_nonce_ok kr plaintext nonce frame h

  -- A frame in the wire format is handed to the primitive part by part.
  pub open_frame-header :
      (kr : Keyring) (id : ℕ) (k nonce sealed : Bytes)
      → id < 65536
      → length nonce ≡ 12
      → 16 ≤ length sealed
      → find_key id kr.keys ≡ some k
      → open_frame a kr (header id ++ (nonce ++ sealed))
        ≡ or_auth (a.open_sealed k nonce sealed (header id))
  unfolding open_frame header key text_eq
  open_frame-header kr id k nonce sealed small nonce_sized long found =
      let version : id / 256 % 256 * 256 + id % 256 ≡ id = omega arith in
      let enough : ltb (length (header id ++ (nonce ++ sealed))) 35 ≡ false =
        ground (arith, length-append nonce sealed) in
      rw enough (
        rw (version) (
          rw (found) (
            rw (take-length-append 12 nonce sealed nonce_sized)
              (rw (drop-length-append 12 nonce sealed nonce_sized) refl))))

  module _ (laws : AeadLaws a) where
    -- A frame that Seal has written opens to the sealed bytes, also under another keyring, such as
    -- a later one with a new active version, if it still has the key of the frame's version.
    pub open_frame-seal :
        (kr later : Keyring) (k plaintext nonce frame : Bytes)
        → kr.active < 65536
        → find_key kr.active kr.keys ≡ some k
        → find_key kr.active later.keys ≡ some k
        → seal a kr plaintext (some nonce) ≡ ok frame
        → open_frame a later frame ≡ ok plaintext
    unfolding nil_slice or_auth
    open_frame-seal kr later k plaintext nonce frame small has_key kept h =
        let s : Sealed kr plaintext nonce frame = seal_ok kr plaintext nonce frame h in
        let by : a.seal k nonce plaintext (header kr.active) ≡ some s.sealed =
          rw has_key at s.by_primitive in
        let long : length s.sealed ≡ length plaintext + 16 =
          laws.length-seal k nonce plaintext (header kr.active) s.sealed by in
        rw s.layout (
          rw
            (open_frame-header later kr.active k nonce s.sealed small s.nonce_sized (omega arith)
              kept)
            (rw (laws.open_sealed-seal k nonce plaintext (header kr.active) s.sealed by) refl))

    -- A frame that Seal has written is 35 bytes longer than what was sealed, and KeyID reads the
    -- version it was sealed under.
    pub key_id-seal :
        (kr : Keyring) (k plaintext nonce frame : Bytes)
        → kr.active < 65536
        → find_key kr.active kr.keys ≡ some k
        → seal a kr plaintext (some nonce) ≡ ok frame
        → (length frame ≡ length plaintext + 35) × (key_id frame ≡ ok kr.active)
    unfolding nil_slice key_id header text_eq
    key_id-seal kr k plaintext nonce frame small has_key h =
        let s : Sealed kr plaintext nonce frame = seal_ok kr plaintext nonce frame h in
        let by : a.seal k nonce plaintext (header kr.active) ≡ some s.sealed =
          rw has_key at s.by_primitive in
        let long : length s.sealed ≡ length plaintext + 16 =
          laws.length-seal k nonce plaintext (header kr.active) s.sealed by in
        rw s.layout (omega (arith, length-append nonce s.sealed, s.nonce_sized), ground arith)
