-- ===== src/Scrub/Regex/Complete.antt =====
-- The converse for expressions without \b: where a prefix is accepted, the search finds a match. So a
-- run of the search decides whether a text is free of an expression.
use libre_mail_bug_report_in.Prelude.{
  ℕ, suc, ◌-◌, ◌≡◌, inl, inr, refl, Option, none, some, [], ◌∷◌, ◌++◌, Bool, true, false, ◌&&◌,
  arith, length, append_assoc, Bool-cases,
}
use libre_mail_bug_report_in.Prelude.Text.{Text}
use libre_mail_bug_report_in.Scrub.Regex.{
  Regex, nothing, boundary, one, many, seq, alt, less, has_room, Next, or_else, stop, run_many,
  run_one, run,
}
use libre_mail_bug_report_in.Scrub.Regex.Sound.{IsAtMost, Accepts}

unfoldable pub is_literal : Regex → Bool
is_literal nothing = true
is_literal boundary = false
is_literal (one f) = true
is_literal (many f lo hi) = true
is_literal (seq a b) = is_literal a && is_literal b
is_literal (alt a b) = is_literal a && is_literal b

abbrev pub Found : {A : Type 0} → Option A → Type 0
Found {A = A} o = (a : A) × (o ≡ some a)

pub has_room-IsAtMost : (n : ℕ) (hi : Option ℕ) → IsAtMost (suc n) hi → has_room hi ≡ true
has_room-IsAtMost n none h = refl
has_room-IsAtMost n (some m) h = ground arith

pub less-IsAtMost-back : (n : ℕ) (hi : Option ℕ) → IsAtMost (suc n) hi → IsAtMost n (less hi)
less-IsAtMost-back n none h = tt
less-IsAtMost-back n (some m) h = ground arith

module _ {A : Type 0} where
  pub or_else-Found-left : (x y : Option A) → Found x → Found (or_else x y)
  or_else-Found-left (some a) y h = (a, refl)
  or_else-Found-left none y (a, e) = cc

  pub or_else-Found-right : (x y : Option A) → Found y → Found (or_else x y)
  or_else-Found-right (some a) y h = (a, refl)
  or_else-Found-right none y h = h

  pub run_many-stops :
      (f : ℕ → Bool) (hi : Option ℕ) (before : Option ℕ) (s : Text) (k : Next A)
      → Found (k before s)
      → Found (run_many f 0 hi before s k)
  unfolding run_many
  run_many-stops f hi before [] k h = h
  run_many-stops f hi before (c ∷ s) k h = elim (Bool-cases (f c && has_room hi)) [
    | inl e ↦
        rw (e, run_many)
          (or_else-Found-right (run_many f (0 - 1) (less hi) (some c) s k) (stop 0 before (c ∷ s) k)
            h)
    | inr e ↦ rw (e, run_many) h
  ]

  run_many-Found :
      (f : ℕ → Bool) (lo : ℕ) (hi : Option ℕ) (before : Option ℕ) (c rest : Text) (k : Next A)
      → Accepts (many f lo hi) c
      → ((b : Option ℕ) → Found (k b rest))
      → Found (run_many f lo hi before (c ++ rest) k)
  unfolding run_many
  run_many-Found f lo hi before [] rest k (all, low, high) h =
      let e : lo ≡ 0 = omega arith in rw e (run_many-stops f hi before rest k (h before))
  run_many-Found f lo hi before (x ∷ c) rest k ((fx, all), low, high) h =
      let room = has_room-IsAtMost (length c) hi high in
      let e : (f x && has_room hi) ≡ true = ground arith in
      rw (e, run_many)
        (or_else-Found-left (run_many f (lo - 1) (less hi) (some x) (c ++ rest) k)
          (stop lo before (x ∷ (c ++ rest)) k)
          (run_many-Found f (lo - 1) (less hi) (some x) c rest k
            (all, (omega arith), less-IsAtMost-back (length c) hi high) h))

  run_one-Found :
      (f : ℕ → Bool) (c rest : Text) (k : Next A)
      → Accepts (one f) c
      → ((b : Option ℕ) → Found (k b rest))
      → Found (run_one f (c ++ rest) k)
  unfolding run_one
  run_one-Found f c rest k (x, e, fx) h = rw (e, fx) (h (some x))

  -- Where a prefix is accepted and the search succeeds behind it, the search succeeds.
  pub run-Found :
      (r : Regex) (before : Option ℕ) (c rest : Text) (k : Next A)
      → is_literal r ≡ true
      → Accepts r c
      → ((b : Option ℕ) → Found (k b rest))
      → Found (run r before (c ++ rest) k)
  unfolding run is_literal
  run-Found nothing before c rest k literal e h = rw e (h before)
  run-Found boundary before c rest k literal e h = cc
  run-Found (one f) before c rest k literal accepted h = run_one-Found f c rest k accepted h
  run-Found (many f lo hi) before c rest k literal accepted h =
      run_many-Found f lo hi before c rest k accepted h
  run-Found (seq x y) before c rest k literal (v, w, e, accepted, accepted') h =
      let both : (is_literal x ≡ true) × (is_literal y ≡ true) = ground arith in
      rw (e, append_assoc v w rest)
        (run-Found x before v (w ++ rest) (λ b t. run y b t k) both.0 accepted
          (λ b. run-Found y b w rest k both.1 accepted' h))
  run-Found (alt x y) before c rest k literal (inl accepted) h =
      let both : (is_literal x ≡ true) × (is_literal y ≡ true) = ground arith in
      or_else-Found-left (run x before (c ++ rest) k) (run y before (c ++ rest) k)
        (run-Found x before c rest k both.0 accepted h)
  run-Found (alt x y) before c rest k literal (inr accepted) h =
      let both : (is_literal x ≡ true) × (is_literal y ≡ true) = ground arith in
      or_else-Found-right (run x before (c ++ rest) k) (run y before (c ++ rest) k)
        (run-Found y before c rest k both.1 accepted h)
