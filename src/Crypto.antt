-- ===== src/Crypto.antt =====
-- internal/crypto/frame.go: the encrypted-at-rest object format. AES-256-GCM is the `aead` seam of
-- the source, an interface here too; bytes are numbers.
pub mod Keyring
pub mod Primitive
pub mod Frame
