-- ===== src/Worker/Scheduled/Wiring.antt =====
-- What a publisher is built from: buildPublish of worker/scheduled_wasm.go.
use libre_mail_bug_report_in.Prelude.{
  ◌≡◌, ◌≢◌, ◌↔◌, sym, [], ◌∷◌, ◌⊎◌, inl, inr, refl, ap, ap₂, ◌∙◌, Option, none, some, Result, ok,
  err, Done,
}
use libre_mail_bug_report_in.Prelude.Text.{Text, codes}
use libre_mail_bug_report_in.Crypto.Keyring.{Bytes, Keyring, KeyringError}
use libre_mail_bug_report_in.Publish.Batch.{parse_repo}
use libre_mail_bug_report_in.Publish.Batch.Repo.{NamesRepo, parse_repo_iff}
use libre_mail_bug_report_in.Prelude.Text.Spaces.{is_empty}
use libre_mail_bug_report_in.Worker.Scheduled.{
  Bindings, Built, BuildError, keyring_binding, github_token_binding, target_repo, built_from,
  after_token, after_keyring, after_keyring_secret, after_bind, build_publish,
}

module _ {W E : Type 0} (env : Bindings W E) where
  -- The repository is the variable's where it is set, and the app's where it is not.
  abbrev pub IsTarget : Text → Type 0
  IsTarget repo =
      ((env.getenv (codes "GITHUB_REPO") ≢ []) × (repo ≡ env.getenv (codes "GITHUB_REPO")))
      ⊎ ((env.getenv (codes "GITHUB_REPO") ≡ []) × (repo ≡ codes "JMR-dev/LibreMail"))

  -- What a publisher is wired with: the store, both secrets in order, and the target repository.
  abbrev pub Wired : Built → W → W → Type 0
  Wired built w w' =
      (w1 : W) × (w2 : W) × (raw : Bytes) × (repo : Text) × (env.new_r2_store w ≡ (ok tt, w1))
      × (env.read_secret (codes "BUGREPORT_ENC_KEYRING") w1 ≡ (ok raw, w2))
      × (env.parse_keyring raw ≡ ok built.keyring)
      × (env.read_secret (codes "GITHUB_TOKEN") w2 ≡ (ok built.token, w'))
      × IsTarget repo
      × NamesRepo repo built.owner built.name

  target_repo-IsTarget : IsTarget (target_repo env)
  unfolding target_repo is_empty
  target_repo-IsTarget = by_value (env.getenv (codes "GITHUB_REPO")) refl
    where
      by_value : (v : Text) → env.getenv (codes "GITHUB_REPO") ≡ v → IsTarget (target_repo env)
      by_value [] e = inr (e, rw e refl)
      by_value (c ∷ v) e = inl ((λ h. cc), rw e refl)

  IsTarget-target_repo : (repo : Text) → IsTarget repo → target_repo env ≡ repo
  unfolding target_repo is_empty
  IsTarget-target_repo repo (inr (e, same)) = rw (e, same) refl
  IsTarget-target_repo repo (inl (set, same)) = by_value (env.getenv (codes "GITHUB_REPO")) refl
    where
      by_value : (v : Text) → env.getenv (codes "GITHUB_REPO") ≡ v → target_repo env ≡ repo
      by_value [] e = absurd (set e)
      by_value (c ∷ v) e = rw e (sym e ∙ sym same)

  built_from_ok :
      (kr : Keyring) (token : Bytes) (o : Option (Text × Text)) (built : Built)
      → built_from env kr token o ≡ ok built
      → (o ≡ some (built.owner, built.name)) × ((kr ≡ built.keyring) × (token ≡ built.token))
  unfolding built_from
  built_from_ok kr token none built h = cc
  built_from_ok kr token (some (owner, name)) built h = (
    ap (λ b. some (b.owner, b.name)) (same h),
    (ap (λ b. b.keyring) (same h), ap (λ b. b.token) (same h)),
  )
    where
      same : {a b : Built} → Path (Result (BuildError E) Built) (ok a) (ok b) → a ≡ b
      same e = cc

  after_token_ok :
      (kr : Keyring) (r : Result E Bytes) (built : Built)
      → after_token env kr r ≡ ok built
      → (r ≡ ok built.token)
        × ((kr ≡ built.keyring) × (parse_repo (target_repo env) ≡ some (built.owner, built.name)))
  unfolding after_token
  after_token_ok kr (err e) built h = cc
  after_token_ok kr (ok token) built h =
      let (repo, (keyring, same)) = built_from_ok kr token (parse_repo (target_repo env)) built h in
      (ap ok same, (keyring, repo))

  after_keyring_ok :
      (r : Result KeyringError Keyring) (built : Built) (w w' : W)
      → after_keyring env r w ≡ (ok built, w')
      → (r ≡ ok built.keyring)
        × ((env.read_secret github_token_binding w ≡ (ok built.token, w'))
            × (parse_repo (target_repo env) ≡ some (built.owner, built.name)))
  unfolding after_keyring
  after_keyring_ok (err e) built w w' h = cc
  after_keyring_ok (ok kr) built w w' h =
      let (token, (keyring, repo)) =
        after_token_ok kr (env.read_secret github_token_binding w).0 built (ap (λ x. x.0) h) in
      (ap ok keyring, (ap₂ (λ r v. (r, v)) token (ap (λ x. x.1) h), repo))

  build_publish-Wired :
      (built : Built) (w w' : W) → build_publish env w ≡ (ok built, w') → Wired built w w'
  unfolding build_publish after_bind after_keyring_secret after_keyring after_token built_from
  build_publish-Wired built w w' h = bound (env.new_r2_store w).0 (env.new_r2_store w).1 refl h
    where
      secret :
          (w1 : W) (r : Result E Bytes) (w2 : W)
          → env.new_r2_store w ≡ (ok tt, w1)
          → env.read_secret keyring_binding w1 ≡ (r, w2)
          → after_keyring_secret env r w2 ≡ (ok built, w')
          → Wired built w w'
      secret w1 (err e) w2 store read h' = cc
      secret w1 (ok raw) w2 store read h' =
          let (parsed, (token, repo)) = after_keyring_ok (env.parse_keyring raw) built w2 w' h' in
          let named = (parse_repo_iff (target_repo env) built.owner built.name).0 repo in
          (w1, w2, raw, target_repo env, store, read, parsed, token, target_repo-IsTarget, named)

      bound :
          (r : Result E Done) (w1 : W)
          → env.new_r2_store w ≡ (r, w1)
          → after_bind env r w1 ≡ (ok built, w')
          → Wired built w w'
      bound (err e) w1 store h' = cc
      bound (ok _) w1 store h' =
          secret w1 (env.read_secret keyring_binding w1).0 (env.read_secret keyring_binding w1).1
            store refl h'

  Wired-build_publish :
      (built : Built) (w w' : W) → Wired built w w' → build_publish env w ≡ (ok built, w')
  unfolding build_publish after_bind after_keyring_secret after_keyring after_token built_from
  Wired-build_publish built w w' (w1, w2, raw, repo, store, read, parsed, token, target, named) =
      let same = IsTarget-target_repo repo target in
      let found = (parse_repo_iff repo built.owner built.name).1 named in
      rw (store, read, parsed, token, same, found) refl

  -- buildPublish succeeds with these parts exactly if the store binds, the keyring secret is read next
  -- and parses to the keyring, the token is read behind it, and the repository variable, or the app's
  -- repository where that is empty, is the owner and the name with one slash between them.
  pub build_publish_iff :
      (built : Built) (w w' : W) → (build_publish env w ≡ (ok built, w')) ↔ Wired built w w'
  build_publish_iff built w w' = (build_publish-Wired built w w', Wired-build_publish built w w')
