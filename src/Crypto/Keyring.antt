-- ===== src/Crypto/Keyring.antt =====
-- internal/crypto/frame.go: the versioned keyring. The Go map is the list of its entries in the
-- order of the iteration; the JSON and base64 decoders are parameters.
pub mod Validity
use libre_mail_bug_report_in.Prelude.{
  ℕ, zero, ◌+◌, ◌-◌, ◌*◌, Option, none, some, List, [], ◌∷◌, Bool, true, false, not, ◌||◌, Result,
  ok, err, ltb, ◌==◌, if◌then◌else◌, length, ◌>>=◌,
}
use libre_mail_bug_report_in.Prelude.Text.{Text}

abbrev pub Bytes : Type 0
Bytes = List ℕ

abbrev pub key_size : ℕ
key_size = 32

abbrev pub KeyMap : Type 0
KeyMap = List (ℕ × Bytes)

pub record Keyring : Type 0 where
  pub active : ℕ
  pub keys : KeyMap

pub data KeyringError : Type 0 where
  no_keys bad_json : KeyringError
  bad_key_size : ℕ → KeyringError
  active_missing : ℕ → KeyringError
  bad_version : Text → KeyringError
  bad_base64 : Text → KeyringError

-- k, ok := kr.keys[id]
unfoldable pub find_key : ℕ → KeyMap → Option Bytes
find_key id [] = none
find_key id ((j, k) ∷ keys) = if j == id then some k else find_key id keys

-- the loop of NewKeyring over the map; each key is copied, and slices are values here
unfoldable pub check_sizes : KeyMap → Result KeyringError KeyMap
check_sizes [] = ok []
check_sizes ((id, k) ∷ keys) =
    let rest = check_sizes keys in
    if not (length k == key_size) then err (bad_key_size id) else rest >>= λ cp. ok ((id, k) ∷ cp)

unfoldable pub with_active : ℕ → KeyMap → Option Bytes → Result KeyringError Keyring
with_active active cp none = err (active_missing active)
with_active active cp (some _) = ok (record { active = active; keys = cp })

unfoldable pub new_keyring : ℕ → KeyMap → Result KeyringError Keyring
unfolding check_sizes with_active
new_keyring active [] = err no_keys
new_keyring active (entry ∷ keys) = do
  cp ← check_sizes (entry ∷ keys)
  with_active active cp (find_key active cp)

or_unknown : {E : Type 0} → E → Option Bytes → Result E Bytes
or_unknown e none = err e
or_unknown e (some k) = ok k

-- key(id), with the error of an absent version
unfoldable pub key : {E : Type 0} → E → Keyring → ℕ → Result E Bytes
unfolding or_unknown
key e kr id = or_unknown e (find_key id kr.keys)

-- strconv.ParseUint(s, 10, 16): one or more digits, at most 65535
unfoldable pub scan_digits : Text → ℕ → Option ℕ
scan_digits [] n = some n
scan_digits (c ∷ s) n =
    let rest = scan_digits s (n * 10 + (c - b'0')) in
    if ltb c b'0' || ltb b'9' c
    then none
    else if ltb 65535 (n * 10 + (c - b'0'))
    then none
    else rest

unfoldable pub parse_uint16 : Text → Option ℕ
unfolding scan_digits
parse_uint16 [] = none
parse_uint16 (c ∷ s) = scan_digits (c ∷ s) 0

-- keys[id] = key
unfoldable pub set_key : ℕ → Bytes → KeyMap → KeyMap
set_key id k [] = (id, k) ∷ []
set_key id k ((j, old) ∷ keys) = if j == id then (id, k) ∷ keys else (j, old) ∷ set_key id k keys

pub record KeyringJson : Type 0 where
  pub active : ℕ
  pub keys : List (Text × Text)

pub or_error : {E A : Type 0} → E → Option A → Result E A
or_error e none = err e
or_error e (some a) = ok a

module _ (unmarshal : Bytes → Option KeyringJson) (decode_base64 : Text → Option Bytes) where
  -- the loop of ParseKeyring over the decoded map; `keys` is what is built so far
  unfoldable pub parse_entries : List (Text × Text) → KeyMap → Result KeyringError KeyMap
  unfolding or_error
  parse_entries [] keys = ok keys
  parse_entries ((ver_str, b64) ∷ rest) keys = do
    ver ← or_error (bad_version ver_str) (parse_uint16 ver_str)
    k ← or_error (bad_base64 ver_str) (decode_base64 b64)
    parse_entries rest (set_key ver k keys)

  unfoldable pub from_json : KeyringJson → Result KeyringError Keyring
  from_json kj =
      if length kj.keys == 0
      then err no_keys
      else (parse_entries kj.keys [] >>= λ keys. new_keyring kj.active keys)

  unfoldable pub parse_keyring : Bytes → Result KeyringError Keyring
  unfolding or_error from_json
  parse_keyring raw = or_error bad_json (unmarshal raw) >>= from_json
