-- ===== src/Telemetry/Otlp/Headers.antt =====
-- internal/telemetry/otlp.go: ParseHeaders. A map is a list of its entries, each key once.
pub mod RoundTrip
use libre_mail_bug_report_in.Prelude.{
  ℕ, ◌≡◌, ◌⊎◌, inl, inr, refl, sym, ap, ap₂, ◌∙◌, Option, none, some, List, [], ◌∷◌, ◌++◌,
  append_assoc, append-nil, Bool, true, false, not, ◌&&◌, ◌||◌, ◌==◌, if◌then◌else◌, arith, All,
  Bool-cases,
}
use libre_mail_bug_report_in.Prelude.Text.{Text, text_eq, text_eq_refl}
use libre_mail_bug_report_in.Prelude.Text.Spaces.{is_empty, trim_space}
use libre_mail_bug_report_in.Prelude.Text.Cut.{cut, cons_before}

abbrev pub Header : Type 0
Header = Text × Text

cons_first : ℕ → List Text → List Text
cons_first c [] = (c ∷ []) ∷ []
cons_first c (part ∷ parts) = (c ∷ part) ∷ parts

-- strings.Split at one rune
unfoldable pub split : ℕ → Text → List Text
unfolding cons_first
split sep [] = [] ∷ []
split sep (c ∷ s) = let rest = split sep s in if c == sep then [] ∷ rest else cons_first c rest

-- out[k] = v
unfoldable pub set_header : Text → Text → List Header → List Header
set_header k v [] = (k, v) ∷ []
set_header k v ((k', v') ∷ headers) =
    let rest = set_header k v headers in if text_eq k' k then (k, v) ∷ headers else (k', v') ∷ rest

unfoldable pub add_cut : Option (Text × Text) → List Header → List Header
unfolding set_header
add_cut none headers = headers
add_cut (some (k, v)) headers =
    if is_empty (trim_space k) then headers else set_header (trim_space k) (trim_space v) headers

unfoldable pub add_pair : Text → List Header → List Header
unfolding add_cut
add_pair pair headers =
    if is_empty (trim_space pair) then headers else add_cut (cut b'=' (trim_space pair)) headers

unfoldable pub add_pairs : List Text → List Header → List Header
unfolding add_pair
add_pairs [] headers = headers
add_pairs (pair ∷ pairs) headers = add_pairs pairs (add_pair pair headers)

unfoldable pub parse_headers : Text → List Header
unfolding split add_pairs
parse_headers s = add_pairs (split b',' s) []

-- the form that ParseHeaders reads
unfoldable pub print_header : Header → Text
print_header (k, v) = k ++ (b'=' ∷ v)

unfoldable pub print_headers : List Header → Text
unfolding print_header
print_headers [] = []
print_headers (h ∷ []) = print_header h
print_headers (h ∷ h' ∷ headers) = print_header h ++ (b',' ∷ print_headers (h' ∷ headers))

unfoldable pub contains : ℕ → Text → Bool
contains x [] = false
contains x (c ∷ s) = c == x || contains x s

-- whether an entry can be written: no separator in it, no blank at its ends, and a key
unfoldable pub is_plain : Header → Bool
unfolding contains print_header
is_plain (k, v) =
    not (is_empty k)
    && (not (contains b'=' k)
        && (not (contains b',' (print_header (k, v)))
            && (text_eq (trim_space k) k
                && (text_eq (trim_space v) v
                    && text_eq (trim_space (print_header (k, v))) (print_header (k, v))))))

unfoldable pub is_listed : Text → List Header → Bool
is_listed k [] = false
is_listed k ((k', v) ∷ headers) = text_eq k' k || is_listed k headers

-- whether each entry can be written, and no key comes twice
unfoldable pub are_plain : List Header → Bool
unfolding is_plain is_listed
are_plain [] = true
are_plain ((k, v) ∷ headers) = is_plain (k, v) && (not (is_listed k headers) && are_plain headers)

split-none : (sep : ℕ) (s : Text) → contains sep s ≡ false → split sep s ≡ s ∷ []
unfolding split contains cons_first
split-none sep [] h = refl
split-none sep (c ∷ s) h =
    let here : (c == sep) ≡ false = ground arith in
    let rest : contains sep s ≡ false = ground arith in rw (here, split-none sep s rest) refl

split-append :
    (sep : ℕ) (s t : Text) → contains sep s ≡ false → split sep (s ++ sep ∷ t) ≡ s ∷ split sep t
unfolding split contains cons_first
split-append sep [] t h = let e : (sep == sep) ≡ true = ground arith in rw e refl
split-append sep (c ∷ s) t h =
    let here : (c == sep) ≡ false = ground arith in
    let rest : contains sep s ≡ false = ground arith in rw (here, split-append sep s t rest) refl

cut-append : (sep : ℕ) (s t : Text) → contains sep s ≡ false → cut sep (s ++ sep ∷ t) ≡ some (s, t)
unfolding cut contains cons_before
cut-append sep [] t h = let e : (sep == sep) ≡ true = ground arith in rw e refl
cut-append sep (c ∷ s) t h =
    let here : (c == sep) ≡ false = ground arith in
    let rest : contains sep s ≡ false = ground arith in rw (here, cut-append sep s t rest) refl
