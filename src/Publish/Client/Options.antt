-- ===== src/Publish/Client/Options.antt =====
-- internal/publish/github.go: the options of NewClient, setHeaders, and the excerpt of a body
-- in an error. A spacing is not negative here; an attempt cap of 0 stands for one below 1.
use libre_mail_bug_report_in.Prelude.{
  ℕ, ◌≤◌, Option, none, some, List, [], ◌∷◌, ◌++◌, Action, Done, ltb, ◌==◌, if◌then◌else◌, arith,
  length, length-append, length-take, take, map, Bool-cases, inl, inr,
}
use libre_mail_bug_report_in.Prelude.Text.{Text, codes}
use libre_mail_bug_report_in.Telemetry.Otlp.Post.{trim_slashes}
use libre_mail_bug_report_in.Publish.Client.{Config, World, HttpHead, new_client}

pub data ClientOption (W E : Type 0) : Type 0 where
  with_base_url : Text → ClientOption W E
  -- what the client does, and how its responses' bodies are read
  with_http_client :
      (Text → Text → Action W E HttpHead) → (HttpHead → Action W E Text) → ClientOption W E
  with_clock : Option (W → ℕ) → Option (ℕ → Action W E Done) → ClientOption W E
  with_rand : Option (ℕ → W → ℕ × W) → ClientOption W E
  with_max_attempts : ℕ → ClientOption W E
  with_spacing : ℕ → ClientOption W E

keep_or : {A : Type 0} → A → Option A → A
keep_or old none = old
keep_or old (some new) = new

module _ {W E : Type 0} where
  unfoldable pub apply_client_option : ClientOption W E → World W E × Config → World W E × Config
  unfolding keep_or trim_slashes
  apply_client_option (with_base_url u) (world, c) = (world, record c { base_url = trim_slashes u })
  apply_client_option (with_http_client send read_all) (world, c) =
      (record world { send = send; read_all = read_all }, c)
  apply_client_option (with_clock now sleep) (world, c) =
      (record world { now = keep_or world.now now; sleep = keep_or world.sleep sleep }, c)
  apply_client_option (with_rand jitter) (world, c) =
      (record world { jitter = keep_or world.jitter jitter }, c)
  apply_client_option (with_max_attempts n) (world, c) =
      (world, record c { max_attempts = if ltb 0 n then n else c.max_attempts })
  apply_client_option (with_spacing d) (world, c) = (world, record c { min_spacing = d })

  unfoldable pub apply_client_options :
      List (ClientOption W E) → World W E × Config → World W E × Config
  unfolding apply_client_option
  apply_client_options [] x = x
  apply_client_options (o ∷ opts) x = apply_client_options opts (apply_client_option o x)

  -- the default world is the host's
  unfoldable pub new_client_with :
      World W E → Text → Text → List (ClientOption W E) → World W E × Config
  unfolding apply_client_options new_client
  new_client_with world owner repo opts = apply_client_options opts (world, new_client owner repo)

  apply_client_options-max_attempts :
      (opts : List (ClientOption W E)) (world : World W E) (c : Config)
      → 1 ≤ c.max_attempts
      → 1 ≤ (apply_client_options opts (world, c)).1.max_attempts
  unfolding apply_client_options apply_client_option
  apply_client_options-max_attempts [] world c h = h
  apply_client_options-max_attempts (with_base_url u ∷ opts) world c h =
      apply_client_options-max_attempts opts _ _ h
  apply_client_options-max_attempts (with_http_client send read_all ∷ opts) world c h =
      apply_client_options-max_attempts opts _ _ h
  apply_client_options-max_attempts (with_clock now sleep ∷ opts) world c h =
      apply_client_options-max_attempts opts _ _ h
  apply_client_options-max_attempts (with_rand jitter ∷ opts) world c h =
      apply_client_options-max_attempts opts _ _ h
  apply_client_options-max_attempts (with_max_attempts n ∷ opts) world c h =
      apply_client_options-max_attempts opts world
        (record c { max_attempts = if ltb 0 n then n else c.max_attempts }) (ground arith)
  apply_client_options-max_attempts (with_spacing d ∷ opts) world c h =
      apply_client_options-max_attempts opts _ _ h

  -- Whatever the options are, a client makes at least one attempt, so do never returns without one.
  pub new_client_with-max_attempts :
      (world : World W E) (owner repo : Text) (opts : List (ClientOption W E))
      → 1 ≤ (new_client_with world owner repo opts).1.max_attempts
  unfolding new_client_with new_client
  new_client_with-max_attempts world owner repo opts =
      apply_client_options-max_attempts opts world (new_client owner repo) (omega arith)

abbrev pub api_version : Text
api_version = codes "2022-11-28"

abbrev pub user_agent : Text
user_agent = codes "LibreMail-Bug-Report-Ingest"

-- the headers of every request
unfoldable pub github_headers : Text → List (Text × Text)
github_headers token =
    (codes "Authorization", codes "Bearer " ++ token)
    ∷ (codes "Accept", codes "application/vnd.github+json")
    ∷ (codes "X-GitHub-Api-Version", api_version)
    ∷ (codes "Content-Type", codes "application/json")
    ∷ (codes "User-Agent", user_agent)
    ∷ []

-- the bytes of … in UTF-8
abbrev pub ellipsis : List ℕ
ellipsis = 226 ∷ 128 ∷ 166 ∷ []

unfoldable pub one_line_byte : ℕ → ℕ
one_line_byte b = if b == 10 then b' ' else b

-- On bytes; strings.TrimSpace of the bytes of UTF-8 is a parameter.
module _ (trim_bytes : List ℕ → List ℕ) where
  unfoldable pub snippet : List ℕ → List ℕ
  unfolding one_line_byte
  snippet body =
      let s = map one_line_byte (trim_bytes body) in
      if ltb 200 (length s) then take 200 s ++ ellipsis else s

  -- An excerpt has at most 200 bytes and the ellipsis.
  pub snippet-length : (body : List ℕ) → length (snippet body) ≤ 203
  unfolding snippet
  snippet-length body =
      let s = map one_line_byte (trim_bytes body) in
      elim (Bool-cases (ltb 200 (length s))) [
        | inl e ↦ rw e (omega (arith, length-append (take 200 s) ellipsis, length-take 200 s))
        | inr e ↦ rw e (ground arith)
      ]
