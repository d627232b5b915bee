-- ===== src/Crypto/Frame/Tests.antt =====
-- Keyrings, and frames of a toy primitive that keeps the promises made of AES-256-GCM: its tag of
-- sixteen bytes stands before the text.
use libre_mail_bug_report_in.Prelude.{
  ◌+◌, ◌≡◌, ◌≢◌, ◌↔◌, refl, Option, none, some, [], ◌∷◌, ◌++◌, ok, err, arith, length, take, drop,
  replicate, get_or, All, ◌<◌, ◌≤◌,
}
use libre_mail_bug_report_in.Prelude.Text.{Text, codes}
use libre_mail_bug_report_in.Crypto.Keyring.{
  Bytes, Keyring, KeyringJson, find_key, new_keyring, parse_keyring, parse_entries, parse_uint16,
  set_key,
}
use libre_mail_bug_report_in.Crypto.Keyring.Validity.{IsValid, IsVersion, parse_keyring-IsValid}
use libre_mail_bug_report_in.Crypto.Primitive.{Aead, AeadLaws}
use libre_mail_bug_report_in.Crypto.Frame.{
  seal, seal_with_nonce, open_frame, header, malformed, bad_magic, unsupported_version,
}
use libre_mail_bug_report_in.Crypto.Frame.RoundTrip.{open_frame-seal}
use libre_mail_bug_report_in.Crypto.Frame.Sound.{Authentic, open_frame-Authentic}
use libre_mail_bug_report_in.Crypto.Frame.Rejects.{open_frame_rejects}

abbrev toy_tag : Bytes
toy_tag = replicate 16 7

abbrev pub toy : Aead
toy = record {
  seal = λ k nonce plaintext aad. some (toy_tag ++ plaintext);
  open_sealed = λ k nonce sealed aad. some (drop 16 sealed);
}

toy-open :
    (plaintext sealed : Bytes)
    → some (toy_tag ++ plaintext) ≡ some sealed
    → ◌≡◌ {A = Option Bytes} (some (drop 16 sealed)) (some plaintext)
toy-open plaintext sealed h = let e : toy_tag ++ plaintext ≡ sealed = cc in rw (← e) refl

toy-length :
    (plaintext sealed : Bytes)
    → some (toy_tag ++ plaintext) ≡ some sealed
    → length sealed ≡ length plaintext + 16
toy-length plaintext sealed h = let e : toy_tag ++ plaintext ≡ sealed = cc in rw (← e) (omega arith)

pub toy-AeadLaws : AeadLaws toy
toy-AeadLaws = record {
  open_sealed-seal = λ k nonce plaintext aad sealed h. toy-open plaintext sealed h;
  length-seal = λ k nonce plaintext aad sealed h. toy-length plaintext sealed h;
}

abbrev pub first_key : Bytes
first_key = replicate 32 1

abbrev second_key : Bytes
second_key = replicate 32 2

abbrev pub old_ring : Keyring
old_ring = record { active = 1; keys = (1, first_key) ∷ [] }

abbrev pub rotated_ring : Keyring
rotated_ring = record { active = 2; keys = (2, second_key) ∷ (1, first_key) ∷ [] }

abbrev nonce : Bytes
nonce = replicate 12 9

abbrev text : Bytes
text = codes "crash"

abbrev frame : Bytes
frame = codes "LMB1" ++ (1 ∷ 0 ∷ 1 ∷ nonce ++ (toy_tag ++ text))

sealed : seal toy old_ring text (some nonce) ≡ ok frame
unfolding seal seal_with_nonce header find_key
sealed = refl

pub found_old : find_key 1 old_ring.keys ≡ some first_key
unfolding find_key
found_old = refl

pub found_rotated : find_key 1 rotated_ring.keys ≡ some first_key
unfolding find_key
found_rotated = refl

-- A frame that was sealed before the rotation opens after it.
open_frame-seal_example : open_frame toy rotated_ring frame ≡ ok text
open_frame-seal_example =
    open_frame-seal toy toy-AeadLaws old_ring rotated_ring first_key text nonce frame (omega arith)
      found_old found_rotated sealed

open_frame-Authentic_example : Authentic toy rotated_ring frame text
open_frame-Authentic_example =
    open_frame-Authentic toy rotated_ring frame text (omega arith) open_frame-seal_example

open_frame_rejects_example :
    ((open_frame toy old_ring text ≡ err malformed) ↔ (length text < 35))
    × ((open_frame toy old_ring text ≡ err bad_magic)
        ↔ ((35 ≤ length text) × (take 4 text ≢ codes "LMB1")))
    × ((open_frame toy old_ring text ≡ err unsupported_version)
        ↔ ((35 ≤ length text) × (take 4 text ≡ codes "LMB1") × (get_or text 4 0 ≢ 1)))
open_frame_rejects_example = open_frame_rejects toy old_ring text

-- Decoders that know one secret each.
abbrev decode_json : Bytes → Option KeyringJson
decode_json raw = some (record { active = 1; keys = (codes "1", codes "AQ==") ∷ [] })

abbrev decode_text : Text → Option Bytes
decode_text b64 = some first_key

parsed : parse_keyring decode_json decode_text (codes "{}") ≡ ok old_ring
unfolding parse_keyring parse_entries parse_uint16 set_key new_keyring find_key
parsed = refl

parse_keyring-IsValid_example : IsValid old_ring × All IsVersion old_ring.keys
parse_keyring-IsValid_example =
    parse_keyring-IsValid decode_json decode_text (codes "{}") old_ring parsed

-- "65536" does not fit in 16 bits, "1 " is no number, and "007" is 7.
versions :
    (parse_uint16 (codes "65536") ≡ none)
    × (parse_uint16 (codes "1 ") ≡ none)
    × (parse_uint16 (codes "007") ≡ some 7)
unfolding parse_uint16
versions = (refl, refl, refl)
