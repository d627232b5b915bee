-- ===== src/Storage/Memory/Lookup.antt =====
-- The map behind the in-memory store, as seen through lookups.
use libre_mail_bug_report_in.Prelude.{
  ◌≡◌, ◌≢◌, refl, List, [], ◌∷◌, none, true, In, arith, if◌then◌else◌,
}
use libre_mail_bug_report_in.Prelude.Text.{Text, text_eq, text_eq_iff, has_prefix}
use libre_mail_bug_report_in.Storage.Memory.{Entry, lookup, without, matching}

pub lookup-without :
    (k j : Text) (m : List Entry)
    → lookup j (without k m) ≡ (if text_eq k j then none else lookup j m)
unfolding lookup without
lookup-without k j [] = ground arith
lookup-without k j ((i, d) ∷ m) =
    ground (arith, lookup-without k j m, text_eq_iff i k, text_eq_iff i j, text_eq_iff k j)

-- The loop of List visits exactly the keys that are present and start with the prefix.
pub In-matching :
    (k p : Text) (m : List Entry)
    → In k (matching p m)
    → (has_prefix k p ≡ true) × (lookup k m ≢ none)
unfolding lookup matching
In-matching k p [] h = absurd h
In-matching k p ((i, d) ∷ m) h = ground (arith, In-matching k p m, text_eq_iff i k)

pub matching-In :
    (k p : Text) (m : List Entry) → has_prefix k p ≡ true → lookup k m ≢ none → In k (matching p m)
unfolding lookup matching
matching-In k p [] h present = absurd (present refl)
matching-In k p ((i, d) ∷ m) h present = ground (arith, matching-In k p m, text_eq_iff i k)
