-- ===== src/Crypto/Frame/Sound.antt =====
-- What an object that opens looks like.
use libre_mail_bug_report_in.Prelude.{
  ℕ, ◌≡◌, ◌≤◌, ◌<◌, sym, Option, some, ◌∷◌, ◌++◌, ok, arith, length, take, drop, get_or, All, inl,
  inr, take-append-drop, length-take, length-drop, Option-cases, drop-drop,
}
use libre_mail_bug_report_in.Prelude.Text.{text_eq_sound}
use libre_mail_bug_report_in.Crypto.Keyring.{Bytes, Keyring, find_key, key}
use libre_mail_bug_report_in.Crypto.Primitive.{Aead}
use libre_mail_bug_report_in.Crypto.Frame.{
  header, uint16_at, or_auth, open_body, open_frame, magic, key_id_offset,
}

abbrev pub IsByte : ℕ → Type 0
IsByte c = c < 256

module _ (a : Aead) (kr : Keyring) where
  -- The object is a frame of the wire format, under a version that the keyring has, and the
  -- primitive has authenticated its body together with its header.
  pub record Authentic (object plaintext : Bytes) : Type 0 where
    pub id : ℕ
    pub k : Bytes
    pub nonce : Bytes
    pub sealed : Bytes
    pub layout : object ≡ header id ++ (nonce ++ sealed)
    pub nonce_sized : length nonce ≡ 12
    pub tagged : 16 ≤ length sealed
    pub known : find_key id kr.keys ≡ some k
    pub opened : a.open_sealed k nonce sealed (header id) ≡ some plaintext

  or_auth_ok :
      (o : Option Bytes) (plaintext : Bytes) → or_auth o ≡ ok plaintext → o ≡ some plaintext
  unfolding or_auth
  or_auth_ok o plaintext h = ground arith

  open_body_ok :
      (object plaintext : Bytes)
      → open_body a kr object ≡ ok plaintext
      → (k : Bytes) × (find_key (uint16_at object key_id_offset) kr.keys ≡ some k)
        × (a.open_sealed k (take 12 (drop 7 object)) (drop 19 object) (take 7 object)
            ≡ some plaintext)
  unfolding open_body key
  open_body_ok object plaintext h =
      elim (Option-cases (find_key (uint16_at object key_id_offset) kr.keys)) [
        | inl e ↦ let h' = rw e at h in cc
        | inr (k, e) ↦ (k, e, or_auth_ok _ plaintext (rw e at h))
      ]

  -- what the three checks before the body have established
  pub record Checked (object : Bytes) : Type 0 where
    pub long : 35 ≤ length object
    pub magic_is : take 4 object ≡ magic
    pub version_is : get_or object 4 0 ≡ 1

  open_frame_ok :
      (object plaintext : Bytes)
      → open_frame a kr object ≡ ok plaintext
      → Checked object × (open_body a kr object ≡ ok plaintext)
  unfolding open_frame
  open_frame_ok object plaintext h = ground (arith, text_eq_sound (take 4 object) magic)

  -- the seven bytes of a checked object's head are the header of its version
  head-header :
      (object : Bytes)
      → All IsByte object
      → Checked object
      → take 7 object ≡ header (uint16_at object key_id_offset)
  unfolding header uint16_at
  head-header (c0 ∷ c1 ∷ c2 ∷ c3 ∷ c4 ∷ c5 ∷ c6 ∷ rest) bytes c = ground arith
  head-header _ bytes c = absurd (omega (arith, c.long))

  split : (object : Bytes) → object ≡ take 7 object ++ (take 12 (drop 7 object) ++ drop 19 object)
  split object =
      rw (← drop-drop 12 7 19 object (omega arith))
        (rw (take-append-drop 12 (drop 7 object)) (sym (take-append-drop 7 object)))

  -- An object that Open accepts is a frame of the wire format: the header of a version that the
  -- keyring has, a nonce of 12 bytes and a body of at least 16, which the primitive has
  -- authenticated together with that header and opened to the result.
  pub open_frame-Authentic :
      (object plaintext : Bytes)
      → All IsByte object
      → open_frame a kr object ≡ ok plaintext
      → Authentic object plaintext
  open_frame-Authentic object plaintext bytes h =
      let (c, body) = open_frame_ok object plaintext h in
      let (k, known, opened) = open_body_ok object plaintext body in
      let head : take 7 object ≡ header (uint16_at object key_id_offset) =
        head-header object bytes c in
      record {
        id = uint16_at object key_id_offset;
        k = k;
        nonce = take 12 (drop 7 object);
        sealed = drop 19 object;
        layout = rw (← head) (split object);
        nonce_sized = omega (arith, c.long, length-take 12 (drop 7 object), length-drop 7 object);
        tagged = omega (arith, c.long, length-drop 19 object);
        known = known;
        opened = rw head at opened;
      }
