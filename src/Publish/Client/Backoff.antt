-- ===== src/Publish/Client/Backoff.antt =====
-- When a response is retried, and how long the client waits.
use libre_mail_bug_report_in.Prelude.{ℕ, ◌*◌, ◌^◌, ◌≡◌, ◌≢◌, ◌≤◌, ◌<◌, ◌⊎◌, min, none, false, arith}
use libre_mail_bug_report_in.Prelude.Text.{codes, text_eq}
use libre_mail_bug_report_in.Publish.Client.{
  World, Config, HttpResponse, parse_retry_after, backoff_bound, is_secondary_rate_limit,
}

module _ {W E : Type 0} (world : World W E) (config : Config) where
  -- The bound of the jitter is the base times two to the attempt, up to the cap, and the cap itself
  -- where the product overflows.
  pub backoff_bound-min :
      (attempt : ℕ)
      → 0 < config.base_backoff * 2 ^ attempt
      → config.base_backoff * 2 ^ attempt < 2 ^ 63
      → backoff_bound world config attempt
        ≡ min config.cap_backoff (config.base_backoff * 2 ^ attempt)
  unfolding backoff_bound
  backoff_bound-min attempt positive fits =
      let backoff = config.base_backoff * 2 ^ attempt in ground arith

  backoff_bound-cap : (attempt : ℕ) → backoff_bound world config attempt ≤ config.cap_backoff
  unfolding backoff_bound
  backoff_bound-cap attempt = ground arith

  -- A response that is final: neither a server error nor a sign of a rate limit.
  abbrev pub IsFinal : HttpResponse → Type 0
  IsFinal resp =
      (resp.code < 500)
      × (((resp.code ≢ 403) × (resp.code ≢ 429))
          ⊎ ((resp.code ≡ 403)
              × (parse_retry_after world resp.retry_after ≡ none)
              × (text_eq resp.remaining (codes "0") ≡ false)
              × (is_secondary_rate_limit resp.body ≡ false)))
