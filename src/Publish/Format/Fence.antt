-- ===== src/Publish/Format/Fence.antt =====
-- Why the report's text cannot close its code block.
use libre_mail_bug_report_in.Prelude.{
  ℕ, zero, suc, ◌+◌, ◌-◌, ◌≡◌, ◌≢◌, ◌≤◌, ◌<◌, max, refl, [], ◌∷◌, ◌++◌, ltb, ◌==◌, if◌then◌else◌,
  length, take, replicate, arith, All, Bool-cases, inl, inr,
}
use libre_mail_bug_report_in.Prelude.Text.{Text}
use libre_mail_bug_report_in.Publish.Format.{
  longest_run, fence_for, fitted, truncate_runes, truncation_marker,
}
use libre_mail_bug_report_in.Publish.Format.Limits.{truncate_runes-take}

longest_run_grows : (l r : ℕ) (s : Text) → l ≤ longest_run l r s
unfolding longest_run
longest_run_grows l r [] = omega arith
longest_run_grows l r (c ∷ s) =
    let r' = if c == b'`' then r + 1 else 0 in omega (arith, longest_run_grows (max l r') r' s)

longest_run-replicate :
    (n l r : ℕ) (b : Text) → r ≤ l → r + n ≤ longest_run l r (replicate n b'`' ++ b)
unfolding longest_run
longest_run-replicate zero l r b h = omega (arith, longest_run_grows l r b)
longest_run-replicate (suc n) l r b h =
    omega (arith, longest_run-replicate n (max l (r + 1)) (r + 1) b (omega arith))

longest_run-inside :
    (n l r : ℕ) (a b : Text) → r ≤ l → n ≤ longest_run l r (a ++ (replicate n b'`' ++ b))
unfolding longest_run
longest_run-inside n l r [] b h = omega (arith, longest_run-replicate n l r b h)
longest_run-inside n l r (c ∷ a) b h =
    let r' = if c == b'`' then r + 1 else 0 in longest_run-inside n (max l r') r' a b (omega arith)

longest_run-take : (k l r : ℕ) (s : Text) → longest_run l r (take k s) ≤ longest_run l r s
unfolding longest_run
longest_run-take zero l r s = longest_run_grows l r s
longest_run-take (suc k) l r [] = omega arith
longest_run-take (suc k) l r (c ∷ s) =
    let r' = if c == b'`' then r + 1 else 0 in longest_run-take k (max l r') r' s

longest_run-plain : (l r : ℕ) (s : Text) → All (λ c. c ≢ b'`') s → longest_run l r s ≡ l
unfolding longest_run
longest_run-plain l r [] h = refl
longest_run-plain l r (c ∷ s) h = ground (arith, longest_run-plain l 0 s)

longest_run-append :
    (l r : ℕ) (s t : Text) → All (λ c. c ≢ b'`') t → longest_run l r (s ++ t) ≡ longest_run l r s
unfolding longest_run
longest_run-append l r [] t h = longest_run-plain l r t h
longest_run-append l r (c ∷ s) t h =
    let r' = if c == b'`' then r + 1 else 0 in longest_run-append (max l r') r' s t h

longest_run-fitted : (s : Text) (around : ℕ) → longest_run 0 0 (fitted s around) ≤ longest_run 0 0 s
unfolding fitted
longest_run-fitted s around = elim (Bool-cases (ltb 65536 (around + length s))) [
  | inl e ↦ rw e (
      let cut : ℕ = 65536 - around - length truncation_marker in
      rw (longest_run-append 0 0 (truncate_runes s cut) truncation_marker (omega arith))
        (rw (truncate_runes-take s cut) (longest_run-take cut 0 0 s)))
  | inr e ↦ rw e (omega arith)
]

-- The text as it stands in the body, whole or cut, nowhere contains the fence that was chosen for
-- the report, so nothing in a report closes its code block.
pub fitted-Unfenced :
    (s : Text) (around : ℕ) (a b : Text) → fitted s around ≢ a ++ (fence_for s ++ b)
unfolding fence_for
fitted-Unfenced s around a b e =
    let n : ℕ = if ltb (longest_run 0 0 s + 1) 3 then 3 else longest_run 0 0 s + 1 in
    let inside = longest_run-inside n 0 0 a b (omega arith) in
    let bound = longest_run-fitted s around in
    let long : longest_run 0 0 s < n = ground arith in absurd (omega (arith, rw e at bound))
