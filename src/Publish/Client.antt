-- ===== src/Publish/Client.antt =====
-- internal/publish/github.go: the client, its retry policy; Requests has its requests. What the client calls outside is a record of parameters
-- over a state `W`: the clock (nanoseconds since 1970), the sleep, the jitter (the random factor
-- times a bound, cut to whole nanoseconds), a request, and the reading of a response's body behind it.
-- A time.Duration is
-- 64 bits: from 2^63 on it stands for a negative one. A response body is text by runes.
pub mod Requests
pub mod Backoff
pub mod Attempts
pub mod Pacing
pub mod Confirmed
pub mod Options
mod Tests
use libre_mail_bug_report_in.Prelude.{
  ℕ, zero, suc, ◌+◌, ◌-◌, ◌*◌, ◌^◌, ◌%◌, min, max, Option, none, some, List, [], ◌∷◌, ◌++◌, map,
  Bool, true, false, not, ◌||◌, ◌&&◌, Result, ok, err, Done, Action, ltb, leb, ◌==◌, if◌then◌else◌,
}
use libre_mail_bug_report_in.Prelude.Text.{Text, codes, text_eq, has_prefix}
use libre_mail_bug_report_in.Prelude.Text.Spaces.{trim_space, is_empty}

abbrev pub second : ℕ
second = 10 ^ 9

-- a response as it stands before its body is read: the status and the three headers that are consulted
pub record HttpHead : Type 0 where
  pub code : ℕ
  pub retry_after : Text
  pub remaining : Text
  pub reset : Text

-- a response with its body read
pub record HttpResponse : Type 0 where
  pub code : ℕ
  pub body : Text
  pub retry_after : Text
  pub remaining : Text
  pub reset : Text

-- the seconds from the year 1 to 1970, which a time.Time counts from
abbrev unix_to_internal : ℕ
unix_to_internal = 62135596800

-- a signed 64-bit integer as strconv reads it
pub data Int64 : Type 0 where
  nonneg neg : ℕ → Int64

pub record World (W E : Type 0) : Type 0 where
  pub now : W → ℕ
  pub sleep : ℕ → Action W E Done
  pub jitter : ℕ → W → ℕ × W
  -- NewRequestWithContext: the error of a request that cannot be built
  pub new_request : Text → Option E
  -- httpClient.Do
  pub send : Text → Text → Action W E HttpHead
  -- io.ReadAll of the response's body
  pub read_all : HttpHead → Action W E Text
  pub parse_int : Text → Option Int64

pub record Config : Type 0 where
  pub base_url : Text
  pub owner : Text
  pub repo : Text
  pub min_spacing : ℕ
  pub base_backoff : ℕ
  pub cap_backoff : ℕ
  pub secondary_min : ℕ
  pub max_attempts : ℕ

-- NewClient without options, at the public API
unfoldable pub new_client : Text → Text → Config
new_client owner repo = record {
  base_url = codes "https://api.github.com";
  owner = owner;
  repo = repo;
  min_spacing = second;
  base_backoff = second;
  cap_backoff = 60 * second;
  secondary_min = 60 * second;
  max_attempts = 5;
}

-- The client's own state, lastMutation, beside the state of the world.
pub record Client (W : Type 0) : Type 0 where
  pub world : W
  pub last_mutation : Option ℕ

-- bytes.Contains
unfoldable pub contains : Text → Text → Bool
unfolding has_prefix
contains [] pattern = has_prefix [] pattern
contains (c ∷ s) pattern = has_prefix (c ∷ s) pattern || contains s pattern

-- unicode.ToLower, as far as its result is ASCII
unfoldable pub lower : ℕ → ℕ
lower c =
    if leb b'A' c && leb c b'Z'
    then c + 32
    else if c == 0x130
    then b'i'
    else if c == 0x212A
    then b'k'
    else c

unfoldable pub is_secondary_rate_limit : Text → Bool
unfolding contains lower
is_secondary_rate_limit body =
    contains (map lower body) (codes "secondary rate limit")
    || contains (map lower body) (codes "abuse detection")

module _ {W E : Type 0} (world : World W E) where
  unfoldable pub seconds : Option Int64 → Option ℕ
  seconds (some (nonneg n)) = some (n * second % 2 ^ 64)
  seconds _ = none

  unfoldable pub parse_retry_after : Text → Option ℕ
  unfolding seconds
  parse_retry_after v =
      if is_empty (trim_space v) then none else seconds (world.parse_int (trim_space v))

  -- the wait until an instant, with a buffer of one second; Sub saturates, and an instant whose count
  -- of seconds since the year 1 does not fit 63 bits wraps to one long past
  unfoldable pub until_epoch : ℕ → Option Int64 → Option ℕ
  until_epoch now none = none
  until_epoch now (some (neg n)) = some second
  until_epoch now (some (nonneg n)) =
      if leb (2 ^ 63) (n + unix_to_internal)
      then some second
      else some ((min (n * second - now) (2 ^ 63 - 1) + second) % 2 ^ 64)

  unfoldable pub until_reset : Text → ℕ → Option ℕ
  unfolding until_epoch
  until_reset reset now =
      if is_empty reset then none else until_epoch now (world.parse_int (trim_space reset))

  module _ (config : Config) where
    -- the bound of the jitter; a shift that overflows 64 bits is cut off
    unfoldable pub backoff_bound : ℕ → ℕ
    backoff_bound attempt =
        let backoff = config.base_backoff * 2 ^ attempt % 2 ^ 64 in
        if backoff == 0 || (leb (2 ^ 63) backoff || ltb config.cap_backoff backoff)
        then config.cap_backoff
        else backoff

    unfoldable pub jittered_backoff : ℕ → W → ℕ × W
    unfolding backoff_bound
    jittered_backoff attempt w = world.jitter (backoff_bound attempt) w

    -- the wait, or none where the response is not to be retried, and the state the jitter leaves
    abbrev pub Decision : Type 0
    Decision = Option ℕ × W

    unfoldable pub backed_off : ℕ → W → Decision
    backed_off attempt w = let (d, w') = jittered_backoff attempt w in (some d, w')

    unfoldable pub at_least_secondary : ℕ × W → Decision
    at_least_secondary (d, w) =
        (some (if ltb d config.secondary_min then config.secondary_min else d), w)

    -- the wait that a header asks for, or the next rule
    unfoldable pub or_else : Option ℕ → W → Decision → Decision
    or_else (some d) w next = (some d, w)
    or_else none w next = next

    unfoldable pub retry_decision : HttpResponse → ℕ → W → Decision
    unfolding backed_off at_least_secondary or_else parse_retry_after until_reset
        is_secondary_rate_limit
    retry_decision resp attempt w =
        if leb 500 resp.code
        then backed_off attempt w
        else if not (resp.code == 403) && not (resp.code == 429)
        then (none, w)
        else or_else (parse_retry_after resp.retry_after) w (
            if text_eq resp.remaining (codes "0")
            then or_else (until_reset resp.reset (world.now w)) w (backed_off attempt w)
            else if resp.code == 429
            then backed_off attempt w
            else if is_secondary_rate_limit resp.body
            then at_least_secondary (jittered_backoff attempt w)
            else (none, w))
