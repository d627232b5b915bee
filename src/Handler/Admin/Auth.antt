-- ===== src/Handler/Admin/Auth.antt =====
-- Who is let in.
use libre_mail_bug_report_in.Prelude.{
  ◌≡◌, ◌≢◌, ◌↔◌, inl, inr, refl, Option, none, some, [], ◌∷◌, ◌++◌, map, true, ok, arith, All,
  Bool-cases,
}
use libre_mail_bug_report_in.Prelude.Text.{Text, codes, text_eq_iff, text_eq_sound}
use libre_mail_bug_report_in.Prelude.Text.Spaces.{is_empty}
use libre_mail_bug_report_in.Prelude.Text.Cut.{cut, cut_sound, equal_fold, to_lower}
use libre_mail_bug_report_in.Handler.Admin.{
  AdminBackend, Request, unauthorized, cut_matches, bearer_matches, refused, reports, remove,
}

abbrev pub NoSpace : Text → Type 0
NoSpace = All (λ c. c ≢ b' ')

cut_complete : (s after : Text) → NoSpace s → cut b' ' (s ++ b' ' ∷ after) ≡ some (s, after)
unfolding cut
cut_complete [] after h = refl
cut_complete (c ∷ s) after h = ground (arith, cut_complete s after h.1)

lower-NoSpace : (s t : Text) → map to_lower s ≡ t → NoSpace t → NoSpace s
unfolding to_lower
lower-NoSpace [] t e h = tt
lower-NoSpace (c ∷ s) [] e h = cc
lower-NoSpace (c ∷ s) (d ∷ t) e h = ground (arith, lower-NoSpace s t)

bearer-NoSpace : (s : Text) → equal_fold s (codes "Bearer") ≡ true → NoSpace s
unfolding equal_fold
bearer-NoSpace s h =
    lower-NoSpace s (codes "bearer") (text_eq_sound (map to_lower s) (codes "bearer") h)
      (omega arith)

-- The header is a scheme that is "Bearer" in any case, a space, and exactly the secret.
abbrev pub BearsSecret : Text → Text → Type 0
BearsSecret header secret =
    (scheme : Text) × (header ≡ scheme ++ b' ' ∷ secret)
    × (equal_fold scheme (codes "Bearer") ≡ true)

cut_matches-BearsSecret :
    (header secret : Text) (o : Option (Text × Text))
    → cut b' ' header ≡ o
    → cut_matches o secret ≡ true
    → BearsSecret header secret
unfolding cut_matches
cut_matches-BearsSecret header secret none e h = cc
cut_matches-BearsSecret header secret (some (scheme, token)) e h =
    elim (Bool-cases (equal_fold scheme (codes "Bearer"))) [
      | inl bearer ↦
          let same : token ≡ secret = text_eq_sound token secret (rw bearer at h) in
          (scheme, rw (← same) (cut_sound b' ' header scheme token e), bearer)
      | inr other ↦ let h' = rw other at h in cc
    ]

-- A header passes exactly if it is a scheme that is "Bearer" in any case, one space, and exactly
-- the secret.
pub bearer_matches_iff :
    (header secret : Text) → (bearer_matches header secret ≡ true) ↔ BearsSecret header secret
unfolding bearer_matches cut_matches
bearer_matches_iff header secret = (
  cut_matches-BearsSecret header secret (cut b' ' header) refl,
  λ (scheme, e, bearer). rw e (
      rw (cut_complete scheme secret (bearer-NoSpace scheme bearer))
        (rw bearer ((text_eq_iff secret secret).1 refl))),
)

module _ {W : Type 0} (backend : AdminBackend W) where
  pub refused_closed :
      (r : Request) (secret : Text)
      → ¬ ((secret ≢ []) × BearsSecret r.authorization secret)
      → refused backend r (ok secret) ≡ some unauthorized
  unfolding refused is_empty
  refused_closed r [] h = refl
  refused_closed r (c ∷ secret) h =
      elim (Bool-cases (bearer_matches r.authorization (c ∷ secret))) [
        | inl passes ↦
            absurd (h ((λ e. cc), (bearer_matches_iff r.authorization (c ∷ secret)).0 passes))
        | inr fails ↦ rw fails refl
      ]

  -- Where no secret is configured, or the request does not bear it, listing and removing answer 401
  -- with the Bearer challenge and do nothing but read the token.
  pub unauthorized_closed :
      (id : Text) (r : Request) (w : W) (secret : Text)
      → (backend.admin_token w).0 ≡ ok secret
      → ¬ ((secret ≢ []) × BearsSecret r.authorization secret)
      → r.method ≡ codes "GET"
      → (reports backend r w ≡ (unauthorized, (backend.admin_token w).1))
        × (remove backend id r w ≡ (unauthorized, (backend.admin_token w).1))
  unfolding reports remove
  unauthorized_closed id r w secret token h get =
      let same = (text_eq_iff r.method (codes "GET")).1 get in
      (
        rw same (simp token (rw (refused_closed r secret h) refl)),
        simp token (rw (refused_closed r secret h) refl),
      )
