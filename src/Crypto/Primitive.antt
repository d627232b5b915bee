-- ===== src/Crypto/Primitive.antt =====
-- internal/crypto/frame.go: the raw AES-256-GCM primitive, `aead`. Both providers are library code
-- (crypto/cipher on the host, SubtleCrypto in the Worker), so the interface is what is modelled.
use libre_mail_bug_report_in.Prelude.{◌+◌, ◌≡◌, Option, some, length}
use libre_mail_bug_report_in.Crypto.Keyring.{Bytes}

-- `none` is the error of the source.
pub record Aead : Type 0 where
  pub seal : Bytes → Bytes → Bytes → Bytes → Option Bytes
  pub open_sealed : Bytes → Bytes → Bytes → Bytes → Option Bytes

-- What GCM promises of its own output under one key, nonce and authenticated data.
pub record AeadLaws (a : Aead) : Type 0 where
  pub open_sealed-seal :
      (k nonce plaintext aad sealed : Bytes)
      → a.seal k nonce plaintext aad ≡ some sealed
      → a.open_sealed k nonce sealed aad ≡ some plaintext
  pub length-seal :
      (k nonce plaintext aad sealed : Bytes)
      → a.seal k nonce plaintext aad ≡ some sealed
      → length sealed ≡ length plaintext + 16
