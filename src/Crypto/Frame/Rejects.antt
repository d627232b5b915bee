-- ===== src/Crypto/Frame/Rejects.antt =====
-- Why Open rejects an object: the checks in their order.
use libre_mail_bug_report_in.Prelude.{
  ◌≡◌, ◌≢◌, ◌≤◌, ◌<◌, ◌↔◌, none, some, err, arith, length, take, drop, get_or,
}
use libre_mail_bug_report_in.Prelude.Text.{text_eq_iff}
use libre_mail_bug_report_in.Crypto.Keyring.{Bytes, Keyring, find_key, key}
use libre_mail_bug_report_in.Crypto.Primitive.{Aead}
use libre_mail_bug_report_in.Crypto.Frame.{
  uint16_at, or_auth, open_body, open_frame, magic, malformed, bad_magic, unsupported_version,
}

-- The version is in the keyring and the primitive does not open the body.
abbrev pub Unauthentic : Aead → Keyring → Bytes → Type 0
Unauthentic a kr object =
    (k : Bytes) × (find_key (uint16_at object 5) kr.keys ≡ some k)
    × (a.open_sealed k (take 12 (drop 7 object)) (drop 19 object) (take 7 object) ≡ none)

module _ (a : Aead) (kr : Keyring) (object : Bytes) where
  open_body_cases :
      (open_body a kr object ≢ err malformed)
      × (open_body a kr object ≢ err bad_magic)
      × (open_body a kr object ≢ err unsupported_version)
  unfolding open_body key or_auth
  open_body_cases = ground arith

  -- Open answers ErrMalformed exactly for objects shorter than 35 bytes, ErrBadMagic exactly for
  -- longer ones that do not begin with the magic, and ErrUnsupportedVersion exactly for those that
  -- do and whose version byte is not 1.
  pub open_frame_rejects :
      ((open_frame a kr object ≡ err malformed) ↔ (length object < 35))
      × ((open_frame a kr object ≡ err bad_magic)
          ↔ ((35 ≤ length object) × (take 4 object ≢ magic)))
      × ((open_frame a kr object ≡ err unsupported_version)
          ↔ ((35 ≤ length object) × (take 4 object ≡ magic) × (get_or object 4 0 ≢ 1)))
  unfolding open_frame
  open_frame_rejects = ground (arith, open_body_cases, text_eq_iff (take 4 object) magic)
