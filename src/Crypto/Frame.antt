-- ===== src/Crypto/Frame.antt =====
-- internal/crypto/frame.go: Seal, Open and KeyID over the wire format
--   magic "LMB1" | version | key_id (2, big-endian) | nonce (12) | ciphertext | tag (16).
-- `rand.Read` is the drawn nonce, or nothing where it failed.
pub mod RoundTrip
pub mod Rejects
pub mod Sound
pub mod Tests
use libre_mail_bug_report_in.Prelude.{
  ℕ, ◌+◌, ◌*◌, ◌/◌, ◌%◌, Option, none, some, List, [], ◌∷◌, ◌++◌, not, Result, ok, err, ltb, ◌==◌,
  if◌then◌else◌, length, take, drop, get_or, ◌>>=◌,
}
use libre_mail_bug_report_in.Prelude.Text.{Text, codes, text_eq}
use libre_mail_bug_report_in.Crypto.Keyring.{Bytes, Keyring, find_key, key}
use libre_mail_bug_report_in.Crypto.Primitive.{Aead}

abbrev pub magic : Bytes
magic = codes "LMB1"

abbrev pub format_version : ℕ
format_version = 1

abbrev pub nonce_size : ℕ
nonce_size = 12

abbrev pub tag_size : ℕ
tag_size = 16

abbrev pub header_size : ℕ
header_size = 7

abbrev pub magic_len : ℕ
magic_len = 4

abbrev pub key_id_offset : ℕ
key_id_offset = 5

abbrev pub body_offset : ℕ
body_offset = header_size + nonce_size

abbrev pub min_object_len : ℕ
min_object_len = header_size + nonce_size + tag_size

pub data FrameError : Type 0 where
  malformed bad_magic unsupported_version unknown_key_id auth : FrameError

pub data SealError : Type 0 where
  nonce_failed : SealError
  bad_nonce_size : ℕ → SealError
  seal_failed : SealError

-- binary.BigEndian.PutUint16 and Uint16
unfoldable pub put_uint16 : ℕ → Bytes
put_uint16 v = v / 256 % 256 ∷ v % 256 ∷ []

unfoldable pub uint16_at : Bytes → ℕ → ℕ
uint16_at b i = get_or b i 0 * 256 + get_or b (i + 1) 0

unfoldable pub header : ℕ → Bytes
unfolding put_uint16
header key_id = magic ++ (format_version ∷ put_uint16 key_id)

-- a missing active key reads as the nil slice of the map's zero value
unfoldable pub nil_slice : Option Bytes → Bytes
nil_slice none = []
nil_slice (some k) = k

unfoldable pub active_key : Keyring → Bytes × ℕ
unfolding nil_slice
active_key kr = (nil_slice (find_key kr.active kr.keys), kr.active)

-- the length check and the split of the frame that Open and KeyID share
unfoldable pub key_id : Bytes → Result FrameError ℕ
unfolding uint16_at
key_id object =
    if ltb (length object) header_size
    then err malformed
    else if not (text_eq (take magic_len object) magic)
    then err bad_magic
    else ok (uint16_at object key_id_offset)

unfoldable pub or_seal_failed : Bytes → Option Bytes → Result SealError Bytes
or_seal_failed prefix none = err seal_failed
or_seal_failed prefix (some ct_tag) = ok (prefix ++ ct_tag)

unfoldable pub or_auth : Option Bytes → Result FrameError Bytes
or_auth none = err auth
or_auth (some plaintext) = ok plaintext

module _ (primitive : Aead) where
  unfoldable pub seal_with_nonce : Keyring → Bytes → Bytes → Result SealError Bytes
  unfolding active_key or_seal_failed
  seal_with_nonce kr plaintext nonce =
      if not (length nonce == nonce_size)
      then err (bad_nonce_size (length nonce))
      else let (k, id) = active_key kr in
        or_seal_failed (header id ++ nonce) (primitive.seal k nonce plaintext (header id))

  unfoldable pub seal : Keyring → Bytes → Option Bytes → Result SealError Bytes
  seal kr plaintext none = err nonce_failed
  seal kr plaintext (some nonce) = seal_with_nonce kr plaintext nonce

  unfoldable pub open_body : Keyring → Bytes → Result FrameError Bytes
  unfolding uint16_at or_auth
  open_body kr object = do
    k ← key unknown_key_id kr (uint16_at object key_id_offset)
    or_auth (
        primitive.open_sealed k (take nonce_size (drop header_size object))
          (drop body_offset object) (take header_size object))

  unfoldable pub open_frame : Keyring → Bytes → Result FrameError Bytes
  unfolding open_body
  open_frame kr object =
      if ltb (length object) min_object_len
      then err malformed
      else if not (text_eq (take magic_len object) magic)
      then err bad_magic
      else if not (get_or object magic_len 0 == format_version)
      then err unsupported_version
      else open_body kr object
