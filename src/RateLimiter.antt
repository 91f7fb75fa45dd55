-- ===== src/RateLimiter.antt =====
-- The in-memory rate limiter of the RPC endpoints (src/rpc/rate_limiter.rs). An `Instant` is a
-- number of nanoseconds of the monotonic clock; each call takes the readings that its body makes.
pub mod Clients
pub mod Isolation
pub mod Lockout
pub mod Waits
mod Tests
use mostro.Prelude.{
  ℕ, ◌+◌, ◌-◌, ◌*◌, ◌/◌, ◌%◌, ◌^◌, ◌≤◌, String, Bool, true, false, ◌||◌, Option, none, some, [],
  ltb, leb, if◌then◌else◌,
}
use mostro.Prelude.Equality.{string_eq}
use mostro.Prelude.Map.{Map, lookup, insert, remove, retain}

abbrev pub max_attempts : ℕ
max_attempts = 5

-- `Duration::from_millis`
abbrev pub from_millis : ℕ → ℕ
from_millis n = n * 1000000

-- `Duration::as_secs`
abbrev pub as_secs : ℕ → ℕ
as_secs n = n / 1000000000

abbrev pub lockout_duration : ℕ
lockout_duration = 300000000000

abbrev pub base_delay_ms : ℕ
base_delay_ms = 1000

abbrev pub default_retention : ℕ
default_retention = 3600000000000

pub record ClientState : Type 0 where
  pub failed_attempts : ℕ  -- u32
  pub last_attempt : ℕ
  pub locked_until : Option ℕ

-- `ClientState::new`, which reads the clock.
abbrev pub new_client : ℕ → ClientState
new_client now = record { failed_attempts = 0; last_attempt = now; locked_until = none }

pub record RateLimiter : Type 0 where
  pub clients : Map String ClientState
  pub retention : ℕ

abbrev pub new : ℕ → RateLimiter
new retention = record { clients = []; retention = retention }

-- `RateLimiter::default`
abbrev pub default : RateLimiter
default = new default_retention

abbrev pub still_locked : ℕ → Option ℕ → Bool
still_locked now none = false
still_locked now (some until) = ltb now until

-- The test of the closure in `evict_stale`; `duration_since` stops at zero, as `-` does.
abbrev pub is_fresh : ℕ → ℕ → ClientState → Bool
is_fresh retention now s = leb (now - s.last_attempt) retention || still_locked now s.locked_until

unfoldable pub evict_stale : ℕ → ℕ → Map String ClientState → Map String ClientState
evict_stale retention now clients = retain (λ _ s. is_fresh retention now s) clients

-- `entry(key).or_insert_with(ClientState::new)`
abbrev pub or_new : ℕ → Option ClientState → ClientState
or_new now none = new_client now
or_new now (some s) = s

-- `BASE_DELAY_MS * 2u64.pow(failed_attempts.saturating_sub(1))`, in 64 bits.
unfoldable pub delay_ms : ℕ → ℕ
delay_ms failed = base_delay_ms * (2 ^ (failed - 1) % 2 ^ 64) % 2 ^ 64

-- The two messages of `check_rate_limit`, with the seconds that they name.
pub data Verdict : Type 0 where
  allowed : Verdict
  locked_out : ℕ → Verdict
  rate_limited : ℕ → Verdict

-- The readings of one `check_rate_limit`: in `evict_stale`, `ClientState::new`, the lockout test,
-- the remaining time, and the backoff test.
pub record CheckClock : Type 0 where
  pub evicted : ℕ
  pub created : ℕ
  pub lock_test : ℕ
  pub lock_rest : ℕ
  pub backoff_test : ℕ

-- The end of `check_rate_limit`: the exponential backoff.
unfoldable pub check_backoff : CheckClock → ClientState → Verdict
check_backoff t s =
    let deadline = s.last_attempt + from_millis (delay_ms s.failed_attempts) in
    if ltb 0 s.failed_attempts
    then (if ltb t.backoff_test deadline
        then rate_limited (as_secs (deadline - t.backoff_test) + 1)
        else allowed)
    else allowed

abbrev pub lockout_over : ClientState → ClientState
lockout_over s = record s { failed_attempts = 0; locked_until = none }

-- What `check_rate_limit` does with the entry of the client.
unfoldable pub check_client : CheckClock → ClientState → Verdict × ClientState
check_client t s = elim s.locked_until [
  | none ↦ (check_backoff t s, s)
  | some until ↦
      if ltb t.lock_test until
      then (locked_out (as_secs (until - t.lock_rest)), s)
      else (check_backoff t (lockout_over s), lockout_over s)
]

-- `key` is the text of the client's address.
unfoldable pub check_rate_limit : RateLimiter → String → CheckClock → Verdict × RateLimiter
unfolding evict_stale
check_rate_limit self key t =
    let clients = evict_stale self.retention t.evicted self.clients in
    let (verdict, state) = check_client t (or_new t.created (lookup key clients)) in
    (verdict, record self { clients = insert key state clients })

-- The readings of one `record_failure`: in `evict_stale`, `ClientState::new`, `last_attempt`, and
-- the lockout's start.
pub record FailureClock : Type 0 where
  pub evicted : ℕ
  pub created : ℕ
  pub attempted : ℕ
  pub lock_start : ℕ

abbrev pub counted : FailureClock → ClientState → ClientState
counted t s = record s {
  failed_attempts = (s.failed_attempts + 1) % 2 ^ 32;
  last_attempt = t.attempted;
}

-- The new entry, and the milliseconds that the call sleeps once the lock is released.
unfoldable pub fail_client : FailureClock → ClientState → ClientState × Option ℕ
fail_client t s =
    let c = counted t s in
    if leb max_attempts c.failed_attempts
    then (record c { locked_until = some (t.lock_start + lockout_duration) }, none)
    else (c, some (delay_ms c.failed_attempts))

unfoldable pub record_failure : RateLimiter → String → FailureClock → RateLimiter × Option ℕ
unfolding evict_stale
record_failure self key t =
    let clients = evict_stale self.retention t.evicted self.clients in
    let (state, slept) = fail_client t (or_new t.created (lookup key clients)) in
    (record self { clients = insert key state clients }, slept)

-- Takes the reading of `evict_stale`.
unfoldable pub record_success : RateLimiter → String → ℕ → RateLimiter
unfolding evict_stale
record_success self key now = record self {
  clients = remove key (evict_stale self.retention now self.clients);
}
