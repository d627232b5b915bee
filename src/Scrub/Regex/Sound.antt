-- ===== src/Scrub/Regex/Sound.antt =====
-- The texts that an expression accepts, apart from any search; the search finds only these.
use libre_mail_bug_report_in.Prelude.{
  ℕ, suc, ◌-◌, ◌≡◌, ◌≤◌, ◌⊎◌, inl, inr, refl, sym, ap, ◌∙◌, Option, none, some, [], ◌∷◌, ◌++◌, Bool,
  true, ◌&&◌, ◌==◌, arith, All, length, append_assoc, Bool-cases,
}
use libre_mail_bug_report_in.Prelude.Text.{Text}
use libre_mail_bug_report_in.Scrub.Regex.{
  Regex, nothing, boundary, one, many, seq, alt, is_boundary, less, has_room, Next, or_else, stop,
  run_many, run_one, run,
}

abbrev pub IsAtMost : ℕ → Option ℕ → Type 0
IsAtMost n none = Unit
IsAtMost n (some hi) = n ≤ hi

abbrev pub InClass : (ℕ → Bool) → ℕ → Type 0
InClass f c = f c ≡ true

abbrev pub Accepts : Regex → Text → Type 0
Accepts nothing u = u ≡ []
Accepts boundary u = u ≡ []
Accepts (one f) u = (c : ℕ) × (u ≡ c ∷ []) × (f c ≡ true)
Accepts (many f lo hi) u = All (InClass f) u × (lo ≤ length u) × IsAtMost (length u) hi
Accepts (seq a b) u = (v : Text) × (w : Text) × (u ≡ v ++ w) × Accepts a v × Accepts b w
Accepts (alt a b) u = Accepts a u ⊎ Accepts b u

less-IsAtMost :
    (n : ℕ) (hi : Option ℕ) → has_room hi ≡ true → IsAtMost n (less hi) → IsAtMost (suc n) hi
less-IsAtMost n none r h = tt
less-IsAtMost n (some m) r h = ground arith

module _ {A : Type 0} where
  -- A prefix in `P`, behind which the search went on to this result.
  abbrev pub Consumed : (Text → Type 0) → Text → Next A → A → Type 0
  Consumed P s k a =
      (u : Text) × (rest : Text) × (before : Option ℕ) × (s ≡ u ++ rest)
      × P u
      × (k before rest ≡ some a)

  or_else-some : (x y : Option A) (a : A) → or_else x y ≡ some a → (x ≡ some a) ⊎ (y ≡ some a)
  or_else-some (some b) y a h = inl h
  or_else-some none y a h = inr h

  stop-Consumed :
      (f : ℕ → Bool) (lo : ℕ) (hi : Option ℕ) (before : Option ℕ) (s : Text) (k : Next A) (a : A)
      → stop lo before s k ≡ some a
      → Consumed (Accepts (many f lo hi)) s k a
  stop-Consumed f lo hi before s k a h = elim (Bool-cases (lo == 0)) [
    | inl e ↦ ([], s, before, refl, (tt, ground arith, at_most hi), rw e at h)
    | inr e ↦ let h' = rw e at h in cc
  ]
    where
      at_most : (o : Option ℕ) → IsAtMost 0 o
      at_most none = tt
      at_most (some n) = omega arith

  run_many-Consumed :
      (f : ℕ → Bool) (lo : ℕ) (hi : Option ℕ) (before : Option ℕ) (s : Text) (k : Next A) (a : A)
      → run_many f lo hi before s k ≡ some a
      → Consumed (Accepts (many f lo hi)) s k a
  unfolding run_many
  run_many-Consumed f lo hi before [] k a h = stop-Consumed f lo hi before [] k a h
  run_many-Consumed f lo hi before (c ∷ s) k a h = elim (Bool-cases (f c && has_room hi)) [
    | inr e ↦ stop-Consumed f lo hi before (c ∷ s) k a (rw (e, run_many) at h)
    | inl e ↦
        elim (or_else-some (run_many f (lo - 1) (less hi) (some c) s k) (stop lo before (c ∷ s) k) a
          (rw (e, run_many) at h)) [
            | inr h' ↦ stop-Consumed f lo hi before (c ∷ s) k a h'
            | inl h' ↦
                let (u, rest, before', split, (all, low, high), found) =
                  run_many-Consumed f (lo - 1) (less hi) (some c) s k a h' in
                let both : (f c ≡ true) × (has_room hi ≡ true) = ground arith in
                (
                  c ∷ u,
                  rest,
                  before',
                  ap (◌∷◌ c) split,
                  ((both.0, all), (omega arith), less-IsAtMost (length u) hi both.1 high),
                  found,
                )
          ]
  ]

  run_one-Consumed :
      (f : ℕ → Bool) (s : Text) (k : Next A) (a : A)
      → run_one f s k ≡ some a
      → Consumed (Accepts (one f)) s k a
  unfolding run_one
  run_one-Consumed f [] k a h = cc
  run_one-Consumed f (c ∷ s) k a h = elim (Bool-cases (f c)) [
    | inl e ↦ (c ∷ [], s, some c, refl, (c, refl, e), rw e at h)
    | inr e ↦ let h' = rw e at h in cc
  ]

  -- What the search finds is a prefix that the expression accepts, behind which the continuation
  -- succeeded.
  pub run-Consumed :
      (r : Regex) (before : Option ℕ) (s : Text) (k : Next A) (a : A)
      → run r before s k ≡ some a
      → Consumed (Accepts r) s k a
  unfolding run
  run-Consumed nothing before s k a h = ([], s, before, refl, refl, h)
  run-Consumed boundary before s k a h = elim (Bool-cases (is_boundary before s)) [
    | inl e ↦ ([], s, before, refl, refl, rw e at h)
    | inr e ↦ let h' = rw e at h in cc
  ]
  run-Consumed (one f) before s k a h = run_one-Consumed f s k a h
  run-Consumed (many f lo hi) before s k a h = run_many-Consumed f lo hi before s k a h
  run-Consumed (seq x y) before s k a h =
      let (u, rest, before', split, accepted, h') =
        run-Consumed x before s (λ b t. run y b t k) a h in
      let (v, rest', before'', split', accepted', found) = run-Consumed y before' rest k a h' in
      (
        u ++ v,
        rest',
        before'',
        split ∙ (ap (◌++◌ u) split' ∙ sym (append_assoc u v rest')),
        (u, v, refl, accepted, accepted'),
        found,
      )
  run-Consumed (alt x y) before s k a h =
      elim (or_else-some (run x before s k) (run y before s k) a h) [
        | inl h' ↦
            let (u, rest, before', split, accepted, found) = run-Consumed x before s k a h' in
            (u, rest, before', split, inl accepted, found)
        | inr h' ↦
            let (u, rest, before', split, accepted, found) = run-Consumed y before s k a h' in
            (u, rest, before', split, inr accepted, found)
      ]
