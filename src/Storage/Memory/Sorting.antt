-- ===== src/Storage/Memory/Sorting.antt =====
-- sort.Strings: the result has the same members, in ascending order.
use libre_mail_bug_report_in.Prelude.{
  ◌≡◌, ◌⊎◌, inl, inr, List, [], ◌∷◌, In, All, IsOrdered, arith, Bool-cases,
}
use libre_mail_bug_report_in.Prelude.Text.{Text, text_le, text_le_total, text_le_trans}
use libre_mail_bug_report_in.Storage.Store.{TextLe}
use libre_mail_bug_report_in.Storage.Memory.{insert_sorted, sort_texts}

In-insert_sorted : (a k : Text) (ks : List Text) → In a (insert_sorted k ks) → (a ≡ k) ⊎ In a ks
unfolding insert_sorted
In-insert_sorted a k [] h = h
In-insert_sorted a k (j ∷ ks) h = ground (arith, In-insert_sorted a k ks)

insert_sorted-In : (a k : Text) (ks : List Text) → (a ≡ k) ⊎ In a ks → In a (insert_sorted k ks)
unfolding insert_sorted
insert_sorted-In a k [] h = h
insert_sorted-In a k (j ∷ ks) h = ground (arith, insert_sorted-In a k ks)

pub In-sort_texts : (a : Text) (ks : List Text) → In a (sort_texts ks) → In a ks
unfolding sort_texts
In-sort_texts a [] h = h
In-sort_texts a (k ∷ ks) h =
    ground (arith, In-insert_sorted a k (sort_texts ks) h, In-sort_texts a ks)

pub sort_texts-In : (a : Text) (ks : List Text) → In a ks → In a (sort_texts ks)
unfolding sort_texts
sort_texts-In a [] h = h
sort_texts-In a (k ∷ ks) (inl e) = insert_sorted-In a k (sort_texts ks) (inl e)
sort_texts-In a (k ∷ ks) (inr m) = insert_sorted-In a k (sort_texts ks) (inr (sort_texts-In a ks m))

All-insert_sorted :
    (x k : Text) (ks : List Text)
    → TextLe x k
    → All (TextLe x) ks
    → All (TextLe x) (insert_sorted k ks)
unfolding insert_sorted
All-insert_sorted x k [] h hs = (h, tt)
All-insert_sorted x k (j ∷ ks) h hs = ground (arith, All-insert_sorted x k ks)

All-le_trans : (x y : Text) (ks : List Text) → TextLe x y → All (TextLe y) ks → All (TextLe x) ks
All-le_trans x y [] h hs = tt
All-le_trans x y (k ∷ ks) h hs = (text_le_trans x y k h hs.0, All-le_trans x y ks h hs.1)

IsOrdered-insert_sorted :
    (k : Text) (ks : List Text) → IsOrdered TextLe ks → IsOrdered TextLe (insert_sorted k ks)
unfolding insert_sorted
IsOrdered-insert_sorted k [] h = (tt, tt)
IsOrdered-insert_sorted k (j ∷ ks) h = elim (Bool-cases (text_le k j)) [
  | inl before ↦ rw before ((before, All-le_trans k j ks before h.0), h)
  | inr after ↦ rw after (
    All-insert_sorted j k ks (ground (arith, text_le_total k j)) h.0,
    IsOrdered-insert_sorted k ks h.1,
  )
]

pub IsOrdered-sort_texts : (ks : List Text) → IsOrdered TextLe (sort_texts ks)
unfolding sort_texts
IsOrdered-sort_texts [] = tt
IsOrdered-sort_texts (k ∷ ks) = IsOrdered-insert_sorted k (sort_texts ks) (IsOrdered-sort_texts ks)
