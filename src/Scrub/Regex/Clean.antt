-- ===== src/Scrub/Regex/Clean.antt =====
-- Texts no stretch of which an expression accepts, and how they are joined: a mask between two of
-- them keeps them apart if it holds a rune that the expression does not use.
use libre_mail_bug_report_in.Prelude.{
  ℕ, ◌≡◌, inl, inr, refl, ap, Option, none, some, [], ◌∷◌, ◌++◌, Bool, true, false, not, ◌&&◌, ◌||◌,
  arith, All,
}
use libre_mail_bug_report_in.Prelude.Text.{Text}
use libre_mail_bug_report_in.Scrub.Regex.{Regex, nothing, boundary, one, many, seq, alt, run}
use libre_mail_bug_report_in.Scrub.Regex.Sound.{Accepts}
use libre_mail_bug_report_in.Scrub.Regex.Complete.{is_literal, run-Found}

-- the runes that an expression's texts are made of
unfoldable pub uses : Regex → ℕ → Bool
uses nothing x = false
uses boundary x = false
uses (one f) x = f x
uses (many f lo hi) x = f x
uses (seq a b) x = uses a x || uses b x
uses (alt a b) x = uses a x || uses b x

abbrev pub Uses : Regex → ℕ → Type 0
Uses r x = uses r x ≡ true

All-append : (P : ℕ → Type 0) (v w : Text) → All P v → All P w → All P (v ++ w)
All-append P [] w h h' = h'
All-append P (x ∷ v) w (px, h) h' = (px, All-append P v w h h')

All-weaken : (P Q : ℕ → Type 0) (v : Text) → ((x : ℕ) → P x → Q x) → All P v → All Q v
All-weaken P Q [] imp h = tt
All-weaken P Q (x ∷ v) imp (px, h) = (imp x px, All-weaken P Q v imp h)

pub Accepts-Uses : (r : Regex) (u : Text) → Accepts r u → All (Uses r) u
unfolding uses
Accepts-Uses nothing u e = rw e tt
Accepts-Uses boundary u e = rw e tt
Accepts-Uses (one f) u (x, e, fx) = rw e (fx, tt)
Accepts-Uses (many f lo hi) u (all, low, high) = all
Accepts-Uses (seq a b) u (v, w, e, accepted, accepted') = rw e (
    All-append (Uses (seq a b)) v w
      (All-weaken (Uses a) (Uses (seq a b)) v (λ x h. ground arith) (Accepts-Uses a v accepted))
      (All-weaken (Uses b) (Uses (seq a b)) w (λ x h. ground arith) (Accepts-Uses b w accepted')))
Accepts-Uses (alt a b) u (inl accepted) =
    All-weaken (Uses a) (Uses (alt a b)) u (λ x h. ground arith) (Accepts-Uses a u accepted)
Accepts-Uses (alt a b) u (inr accepted) =
    All-weaken (Uses b) (Uses (alt a b)) u (λ x h. ground arith) (Accepts-Uses b u accepted)

-- A prefix is accepted.
abbrev pub Starts : Regex → Text → Type 0
Starts r s = (c : Text) × (rest : Text) × (s ≡ c ++ rest) × Accepts r c

-- No stretch is accepted.
abbrev pub Clean : Regex → Text → Type 0
Clean r [] = ¬ Starts r []
Clean r (x ∷ s) = (¬ Starts r (x ∷ s)) × Clean r s

pub Clean-here : (r : Regex) (s : Text) → Clean r s → ¬ Starts r s
Clean-here r [] h = h
Clean-here r (x ∷ s) h = h.0

-- The same, said of each stretch.
pub Clean-stretch :
    (r : Regex) (s before c rest : Text) → Clean r s → s ≡ before ++ (c ++ rest) → ¬ Accepts r c
Clean-stretch r s [] c rest h e accepted = Clean-here r s h (c, rest, e, accepted)
Clean-stretch r [] (x ∷ before) c rest h e accepted = cc
Clean-stretch r (y ∷ s) (x ∷ before) c rest h e accepted =
    Clean-stretch r s before c rest h.1 (cc) accepted

unfoldable pub is_some : {A : Type 0} → Option A → Bool
is_some none = false
is_some (some a) = true

-- the search at one place, with nothing behind it
unfoldable pub found : Regex → Option ℕ → Text → Bool
unfolding run is_some
found r before s = is_some (run r before s (λ b rest. some tt))

pub Starts-found :
    (r : Regex) (before : Option ℕ) (s : Text)
    → is_literal r ≡ true
    → Starts r s
    → found r before s ≡ true
unfolding found is_some
Starts-found r before s literal (c, rest, e, accepted) =
    let (a, e') = run-Found r before c rest (λ b t. some tt) literal accepted (λ b. (tt, refl)) in
    rw (e, e') refl

unfoldable pub has_stop : Regex → Text → Bool
unfolding uses
has_stop r [] = false
has_stop r (x ∷ s) = not (uses r x) || has_stop r s

-- whether a mask is free of an expression, and keeps what is before it from what is behind it
unfoldable pub is_barrier : Regex → Text → Bool
unfolding found has_stop
is_barrier r [] = true
is_barrier r (x ∷ m) = not (found r none (x ∷ m)) && (has_stop r (x ∷ m) && is_barrier r m)

-- A prefix of runes in use ends before a rune that is not in use.
prefix-has_stop :
    (r : Regex) (m t c rest : Text)
    → has_stop r m ≡ true
    → m ++ t ≡ c ++ rest
    → All (Uses r) c
    → (rest' : Text) × (m ≡ c ++ rest')
unfolding has_stop
prefix-has_stop r m t [] rest h e all = (m, refl)
prefix-has_stop r [] t (y ∷ c) rest h e all = cc
prefix-has_stop r (x ∷ m) t (y ∷ c) rest h e (uy, all) =
    let ex : x ≡ y = cc in
    let et : m ++ t ≡ c ++ rest = cc in
    let h' : has_stop r m ≡ true = ground arith in
    let (rest', e') = prefix-has_stop r m t c rest h' et all in (rest', rw ex (ap (◌∷◌ y) e'))

pub is_barrier-Clean :
    (r : Regex) (m t : Text)
    → is_literal r ≡ true
    → is_barrier r m ≡ true
    → Clean r t
    → Clean r (m ++ t)
unfolding is_barrier
is_barrier-Clean r [] t literal h clean = clean
is_barrier-Clean r (x ∷ m) t literal h clean =
    let free : found r none (x ∷ m) ≡ false = ground arith in
    let stop : has_stop r (x ∷ m) ≡ true = ground arith in
    let h' : is_barrier r m ≡ true = ground arith in
    (
      (λ starts.
          let (c, rest, e, accepted) = starts in
          let (rest', e') = prefix-has_stop r (x ∷ m) t c rest stop e (Accepts-Uses r c accepted) in
          let yes = Starts-found r none (x ∷ m) literal (c, rest', e', accepted) in cc),
      is_barrier-Clean r m t literal h' clean,
    )
