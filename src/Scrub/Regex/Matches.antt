-- ===== src/Scrub/Regex/Matches.antt =====
-- What an expression matches at a place: \b looks at the rune before the place and at the text behind.
-- Where there is a match, the search finds one.
use libre_mail_bug_report_in.Prelude.{
  ℕ, ◌-◌, ◌≡◌, ◌⊎◌, inl, inr, refl, Option, some, [], ◌∷◌, ◌++◌, Bool, true, ◌&&◌, arith, length,
  append_assoc,
}
use libre_mail_bug_report_in.Prelude.Text.{Text}
use libre_mail_bug_report_in.Scrub.Regex.{
  Regex, nothing, boundary, one, many, seq, alt, is_boundary, less, has_room, Next, stop, run_many,
  run_one, run,
}
use libre_mail_bug_report_in.Scrub.Regex.Sound.{Accepts}
use libre_mail_bug_report_in.Scrub.Regex.Complete.{
  Found, or_else-Found-left, or_else-Found-right, has_room-IsAtMost, less-IsAtMost-back,
  run_many-stops,
}

-- the rune before the place behind a text
abbrev pub last_of : Option ℕ → Text → Option ℕ
last_of before [] = before
last_of before (c ∷ s) = last_of (some c) s

pub last_of-append :
    (before : Option ℕ) (v w : Text) → last_of (last_of before v) w ≡ last_of before (v ++ w)
last_of-append before [] w = refl
last_of-append before (c ∷ v) w = last_of-append (some c) v w

-- The expression matches `u` between the rune before it and the text behind it.
abbrev pub Matches : Regex → Option ℕ → Text → Text → Type 0
Matches nothing before u rest = u ≡ []
Matches boundary before u rest = (u ≡ []) × (is_boundary before rest ≡ true)
Matches (one f) before u rest = Accepts (one f) u
Matches (many f lo hi) before u rest = Accepts (many f lo hi) u
Matches (seq a b) before u rest =
    (v : Text) × (w : Text) × (u ≡ v ++ w)
    × Matches a before v (w ++ rest)
    × Matches b (last_of before v) w rest
Matches (alt a b) before u rest = Matches a before u rest ⊎ Matches b before u rest

module _ {A : Type 0} where
  run_many-Found-at :
      (f : ℕ → Bool) (lo : ℕ) (hi : Option ℕ) (before : Option ℕ) (c rest : Text) (k : Next A)
      → Accepts (many f lo hi) c
      → Found (k (last_of before c) rest)
      → Found (run_many f lo hi before (c ++ rest) k)
  unfolding run_many
  run_many-Found-at f lo hi before [] rest k (all, low, high) h =
      let e : lo ≡ 0 = omega arith in rw e (run_many-stops f hi before rest k h)
  run_many-Found-at f lo hi before (x ∷ c) rest k ((fx, all), low, high) h =
      let room = has_room-IsAtMost (length c) hi high in
      let e : (f x && has_room hi) ≡ true = ground arith in
      rw (e, run_many)
        (or_else-Found-left (run_many f (lo - 1) (less hi) (some x) (c ++ rest) k)
          (stop lo before (x ∷ (c ++ rest)) k)
          (run_many-Found-at f (lo - 1) (less hi) (some x) c rest k
            (all, (omega arith), less-IsAtMost-back (length c) hi high) h))

  -- Where the expression matches a prefix and the search succeeds behind it, the search succeeds.
  pub run-Found-at :
      (r : Regex) (before : Option ℕ) (c rest : Text) (k : Next A)
      → Matches r before c rest
      → Found (k (last_of before c) rest)
      → Found (run r before (c ++ rest) k)
  unfolding run run_one
  run-Found-at nothing before c rest k e h = rw e (rw e at h)
  run-Found-at boundary before c rest k (e, b) h = rw (e, b) (rw e at h)
  run-Found-at (one f) before c rest k (x, e, fx) h = rw (e, fx) (rw e at h)
  run-Found-at (many f lo hi) before c rest k accepted h =
      run_many-Found-at f lo hi before c rest k accepted h
  run-Found-at (seq x y) before c rest k (v, w, e, first, second) h =
      let h' : Found (k (last_of (last_of before v) w) rest) =
        rw (last_of-append before v w) (rw e at h) in
      rw (e, append_assoc v w rest)
        (run-Found-at x before v (w ++ rest) (λ b t. run y b t k) first
          (run-Found-at y (last_of before v) w rest k second h'))
  run-Found-at (alt x y) before c rest k (inl match) h =
      or_else-Found-left (run x before (c ++ rest) k) (run y before (c ++ rest) k)
        (run-Found-at x before c rest k match h)
  run-Found-at (alt x y) before c rest k (inr match) h =
      or_else-Found-right (run x before (c ++ rest) k) (run y before (c ++ rest) k)
        (run-Found-at y before c rest k match h)
