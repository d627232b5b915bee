-- ===== src/Crypto/Keyring/Validity.antt =====
-- What a keyring that was built is like, and when one is built.
use libre_mail_bug_report_in.Prelude.{
  ℕ, ◌≡◌, ◌≢◌, ◌↔◌, ◌∙◌, refl, sym, ap, Option, none, some, List, [], ◌∷◌, ◌≤◌, ok, arith, length,
  All, Result-cases, inl, inr, ◌+◌, ◌-◌, ◌*◌, both_ok, subst, Bool-cases, ◌==◌,
}
use libre_mail_bug_report_in.Prelude.Text.{Text}
use libre_mail_bug_report_in.Crypto.Keyring.{
  Bytes, key_size, KeyMap, Keyring, KeyringJson, find_key, check_sizes, with_active, new_keyring,
  parse_entries, from_json, parse_keyring, or_error, set_key, parse_uint16, scan_digits, bad_json,
}

abbrev pub IsKey : ℕ × Bytes → Type 0
IsKey e = length e.1 ≡ key_size

-- Every key has 32 bytes, and the active version is there.
pub record IsValid (kr : Keyring) : Type 0 where
  pub sized : All IsKey kr.keys
  pub has_active : find_key kr.active kr.keys ≢ none

check_sizes_ok : (keys cp : KeyMap) → check_sizes keys ≡ ok cp → (cp ≡ keys) × All IsKey keys
unfolding check_sizes
check_sizes_ok [] cp h = ground arith
check_sizes_ok ((id, k) ∷ keys) cp h = elim (Result-cases (check_sizes keys)) [
  | inl (cp', e) ↦
      let (same, sized) = check_sizes_ok keys cp' e in let h' = rw e at h in ground arith
  | inr (x, e) ↦ let h' = rw e at h in ground arith
]

check_sizes_complete : (keys : KeyMap) → All IsKey keys → check_sizes keys ≡ ok keys
unfolding check_sizes
check_sizes_complete [] h = refl
check_sizes_complete ((id, k) ∷ keys) h = ground (arith, check_sizes_complete keys h.1)

with_active_ok :
    (active : ℕ) (cp : KeyMap) (o : Option Bytes) (kr : Keyring)
    → with_active active cp o ≡ ok kr
    → (o ≢ none) × (kr ≡ record { active = active; keys = cp })
unfolding with_active
with_active_ok active cp o kr h = ground arith

new_keyring_ok :
    (active : ℕ) (keys : KeyMap) (kr : Keyring)
    → new_keyring active keys ≡ ok kr
    → (keys ≢ [])
      × All IsKey keys
      × (find_key active keys ≢ none)
      × (kr ≡ record { active = active; keys = keys })
unfolding new_keyring
new_keyring_ok active [] kr h = cc
new_keyring_ok active (entry ∷ keys) kr h =
    let (cp, e, built) =
      both_ok (check_sizes (entry ∷ keys)) (λ cp. with_active active cp (find_key active cp)) h in
    let (same, sized) = check_sizes_ok (entry ∷ keys) cp e in
    let (present, is) = with_active_ok active cp (find_key active cp) kr built in
    ((λ x. cc), sized, rw same at present, is ∙ rw same)

new_keyring_complete :
    (active : ℕ) (keys : KeyMap)
    → keys ≢ []
    → All IsKey keys
    → find_key active keys ≢ none
    → new_keyring active keys ≡ ok (record { active = active; keys = keys })
unfolding new_keyring
new_keyring_complete active [] ne sized present = absurd (ne refl)
new_keyring_complete active (entry ∷ keys) ne sized present =
    rw (check_sizes_complete (entry ∷ keys) sized) (ground arith)

-- NewKeyring returns a keyring exactly when the map is not empty, every key has 32 bytes and the
-- active version is in the map; the keyring then holds that version and those keys.
pub new_keyring_iff :
    (active : ℕ) (keys : KeyMap) (kr : Keyring)
    → (new_keyring active keys ≡ ok kr) ↔ (
        (keys ≢ [])
        × All IsKey keys
        × (find_key active keys ≢ none)
        × (kr ≡ record { active = active; keys = keys }))
new_keyring_iff active keys kr = (
  new_keyring_ok active keys kr,
  λ (ne, sized, present, is). new_keyring_complete active keys ne sized present ∙ ap ok (sym is),
)

pub new_keyring-IsValid :
    (active : ℕ) (keys : KeyMap) (kr : Keyring) → new_keyring active keys ≡ ok kr → IsValid kr
new_keyring-IsValid active keys kr h =
    let (ne, sized, present, is) = new_keyring_ok active keys kr h in
    rw is (record { sized = sized; has_active = present })

abbrev pub IsVersion : ℕ × Bytes → Type 0
IsVersion e = e.0 ≤ 65535

scan_digits-le : (s : Text) (n v : ℕ) → n ≤ 65535 → scan_digits s n ≡ some v → v ≤ 65535
unfolding scan_digits
scan_digits-le [] n v fits h = ground arith
scan_digits-le (c ∷ s) n v fits h = ground (arith, scan_digits-le s (n * 10 + (c - b'0')) v)

parse_uint16-le : (s : Text) (v : ℕ) → parse_uint16 s ≡ some v → v ≤ 65535
unfolding parse_uint16
parse_uint16-le [] v h = cc
parse_uint16-le (c ∷ s) v h = scan_digits-le (c ∷ s) 0 v (omega arith) h

set_key-IsVersion :
    (id : ℕ) (k : Bytes) (keys : KeyMap)
    → id ≤ 65535
    → All IsVersion keys
    → All IsVersion (set_key id k keys)
unfolding set_key
set_key-IsVersion id k [] h hs = (h, tt)
set_key-IsVersion id k ((j, old) ∷ keys) h hs = ground (arith, set_key-IsVersion id k keys h hs.1)

or_error_ok : {E A : Type 0} (e : E) (o : Option A) (a : A) → or_error e o ≡ ok a → o ≡ some a
unfolding or_error
or_error_ok e none a h = cc
or_error_ok e (some x) a h = cc

module _ (unmarshal : Bytes → Option KeyringJson) (decode_base64 : Text → Option Bytes) where
  parse_entries-IsVersion :
      (entries : List (Text × Text)) (keys out : KeyMap)
      → All IsVersion keys
      → parse_entries unmarshal decode_base64 entries keys ≡ ok out
      → All IsVersion out
  unfolding parse_entries
  parse_entries-IsVersion [] keys out hs h = subst (All IsVersion) (cc) hs
  parse_entries-IsVersion ((ver_str, b64) ∷ rest) keys out hs h =
      let (ver, e, h1) = both_ok (or_error _ (parse_uint16 ver_str)) _ h in
      let (k, e', h2) = both_ok (or_error _ (decode_base64 b64)) _ h1 in
      parse_entries-IsVersion rest (set_key ver k keys) out
        (set_key-IsVersion ver k keys (parse_uint16-le ver_str ver (or_error_ok _ _ _ e)) hs) h2

  from_json_ok :
      (kj : KeyringJson) (kr : Keyring)
      → from_json unmarshal decode_base64 kj ≡ ok kr
      → (keys : KeyMap) × (parse_entries unmarshal decode_base64 kj.keys [] ≡ ok keys)
        × (new_keyring kj.active keys ≡ ok kr)
  unfolding from_json
  from_json_ok kj kr h = elim (Bool-cases (length kj.keys == 0)) [
    | inl e ↦ let h' = rw e at h in cc
    | inr e ↦
        both_ok (parse_entries unmarshal decode_base64 kj.keys []) (new_keyring kj.active)
          (rw e at h)
  ]

  -- A keyring secret that ParseKeyring accepts gives a keyring in which every key has 32 bytes, the
  -- active version is present, and every version fits in 16 bits.
  pub parse_keyring-IsValid :
      (raw : Bytes) (kr : Keyring)
      → parse_keyring unmarshal decode_base64 raw ≡ ok kr
      → IsValid kr × All IsVersion kr.keys
  unfolding parse_keyring
  parse_keyring-IsValid raw kr h =
      let (kj, e, h1) = both_ok (or_error bad_json (unmarshal raw)) _ h in
      let (keys, e', built) = from_json_ok kj kr h1 in
      let (ne, sized, present, is) = new_keyring_ok kj.active keys kr built in
      (
        new_keyring-IsValid kj.active keys kr built,
        subst (λ (r : Keyring). All IsVersion r.keys) (sym is)
            (parse_entries-IsVersion kj.keys [] keys tt e'),
      )
