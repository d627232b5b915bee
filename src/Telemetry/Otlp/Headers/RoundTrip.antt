-- ===== src/Telemetry/Otlp/Headers/RoundTrip.antt =====
-- Headers that are written in the form of OTEL_EXPORTER_OTLP_HEADERS are read back.
use libre_mail_bug_report_in.Prelude.{
  ℕ, ◌≡◌, inl, inr, refl, sym, ap, ◌∙◌, List, [], ◌∷◌, ◌++◌, append_assoc, append-nil, map, true,
  false, arith, Bool-cases,
}
use libre_mail_bug_report_in.Prelude.Text.{Text, text_eq, text_eq_refl, text_eq_sound}
use libre_mail_bug_report_in.Prelude.Text.Spaces.{is_empty, trim_space}
use libre_mail_bug_report_in.Telemetry.Otlp.Headers.{
  Header, split, set_header, add_cut, add_pair, add_pairs, parse_headers, print_header,
  print_headers, contains, is_plain, is_listed, are_plain, split-none, split-append, cut-append,
}

text_eq_sym : (s t : Text) → text_eq s t ≡ false → text_eq t s ≡ false
text_eq_sym s t h = elim (Bool-cases (text_eq t s)) [
  | inr e ↦ e
  | inl e ↦
      let same = text_eq_sound t s e in let yes = text_eq_refl s in let h' = rw same at h in cc
]

set_header-new :
    (k v : Text) (headers : List Header)
    → is_listed k headers ≡ false
    → set_header k v headers ≡ headers ++ (k, v) ∷ []
unfolding set_header is_listed
set_header-new k v [] h = refl
set_header-new k v ((k', v') ∷ headers) h =
    let other : text_eq k' k ≡ false = ground arith in
    let rest : is_listed k headers ≡ false = ground arith in
    rw (other, set_header-new k v headers rest) refl

is_empty-append : (k : Text) (c : ℕ) (v : Text) → is_empty (k ++ c ∷ v) ≡ false
unfolding is_empty
is_empty-append [] c v = refl
is_empty-append (x ∷ k) c v = refl

add_pair-print_header :
    (k v : Text) (headers : List Header)
    → is_plain (k, v) ≡ true
    → add_pair (print_header (k, v)) headers ≡ set_header k v headers
unfolding add_pair add_cut is_plain print_header
add_pair-print_header k v headers h =
    let key : is_empty k ≡ false = ground arith in
    let no_sign : contains b'=' k ≡ false = ground arith in
    let trim_k : trim_space k ≡ k = text_eq_sound (trim_space k) k (ground arith) in
    let trim_v : trim_space v ≡ v = text_eq_sound (trim_space v) v (ground arith) in
    let trim_pair : trim_space (k ++ b'=' ∷ v) ≡ k ++ b'=' ∷ v =
      text_eq_sound (trim_space (k ++ b'=' ∷ v)) (k ++ b'=' ∷ v) (ground arith) in
    rw (trim_pair, is_empty-append k b'=' v, cut-append b'=' k v no_sign, trim_k, trim_v, key) refl

is_listed-later :
    (k0 k v : Text) (acc rest : List Header)
    → is_listed k0 (acc ++ (k, v) ∷ rest) ≡ false
    → text_eq k k0 ≡ false
unfolding is_listed
is_listed-later k0 k v [] rest h = ground arith
is_listed-later k0 k v ((k', v') ∷ acc) rest h = is_listed-later k0 k v acc rest (ground arith)

are_plain-new :
    (acc rest : List Header) (k v : Text)
    → are_plain (acc ++ (k, v) ∷ rest) ≡ true
    → is_listed k acc ≡ false
unfolding are_plain is_listed
are_plain-new [] rest k v h = refl
are_plain-new ((k', v') ∷ acc) rest k v h =
    let apart : is_listed k' (acc ++ (k, v) ∷ rest) ≡ false = ground arith in
    let other = text_eq_sym k k' (is_listed-later k' k v acc rest apart) in
    let new = are_plain-new acc rest k v (ground arith) in ground arith

are_plain-here :
    (acc rest : List Header) (k v : Text)
    → are_plain (acc ++ (k, v) ∷ rest) ≡ true
    → is_plain (k, v) ≡ true
unfolding are_plain
are_plain-here [] rest k v h = ground arith
are_plain-here ((k', v') ∷ acc) rest k v h = are_plain-here acc rest k v (ground arith)

add_pairs-print_header :
    (headers acc : List Header)
    → are_plain (acc ++ headers) ≡ true
    → add_pairs (map print_header headers) acc ≡ acc ++ headers
unfolding add_pairs
add_pairs-print_header [] acc h = sym (append-nil acc)
add_pairs-print_header ((k, v) ∷ headers) acc h =
    let set = add_pair-print_header k v acc (are_plain-here acc headers k v h) in
    let new = set_header-new k v acc (are_plain-new acc headers k v h) in
    let regroup = append_assoc acc ((k, v) ∷ []) headers in
    ap (λ a. add_pairs (map print_header headers) a) (set ∙ new)
    ∙ (add_pairs-print_header headers (acc ++ (k, v) ∷ []) (rw regroup h) ∙ regroup)

split-print_headers :
    (h : Header) (headers : List Header)
    → are_plain (h ∷ headers) ≡ true
    → split b',' (print_headers (h ∷ headers)) ≡ map print_header (h ∷ headers)
unfolding print_headers are_plain is_plain
split-print_headers (k, v) [] p = split-none b',' (print_header (k, v)) (ground arith)
split-print_headers (k, v) (h ∷ headers) p =
    split-append b',' (print_header (k, v)) (print_headers (h ∷ headers)) (ground arith)
    ∙ ap (◌∷◌ (print_header (k, v))) (split-print_headers h headers (ground arith))

-- Headers whose entries can be written and whose keys are different are read back as they are, in
-- order, from the list of key=value pairs with commas between them.
pub parse_headers-print_headers :
    (headers : List Header)
    → are_plain headers ≡ true
    → parse_headers (print_headers headers) ≡ headers
unfolding parse_headers print_headers is_empty trim_space
parse_headers-print_headers [] h = refl
parse_headers-print_headers (h ∷ headers) p =
    rw (split-print_headers h headers p) (add_pairs-print_header (h ∷ headers) [] p)
