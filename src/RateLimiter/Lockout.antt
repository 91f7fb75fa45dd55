-- ===== src/RateLimiter/Lockout.antt =====
-- How failed attempts lead to a lockout, and how long a client can be told to wait
-- (src/rpc/rate_limiter.rs).
use mostro.Prelude.{
  ℕ, suc, ◌+◌, ◌-◌, ◌^◌, ◌≤◌, ◌<◌, ◌≡◌, refl, String, some, List, [], ◌∷◌, arith, length, ◌∙◌, ap,
}
use mostro.Prelude.Equality.{string_eq}
use mostro.Prelude.Map.{lookup, Distinct}
use mostro.RateLimiter.{
  ClientState, RateLimiter, lockout_duration, as_secs, max_attempts, or_new, locked_out,
  check_client, CheckClock, check_rate_limit, FailureClock, fail_client, record_failure,
}
use mostro.RateLimiter.Clients.{
  entry, check_rate_limit_verdict, lookup-record_failure, record_failure-Distinct,
}

-- The failures of one client, one at each set of readings.
unfoldable pub failures : RateLimiter → String → FailureClock → List FailureClock → RateLimiter
failures l key t [] = (record_failure l key t).0
failures l key t (t' ∷ ts) = failures (record_failure l key t).0 key t' ts

abbrev pub last_of : FailureClock → List FailureClock → FailureClock
last_of t [] = t
last_of t (t' ∷ ts) = last_of t' ts

-- Each failure comes within the retention of the one before it.
abbrev pub Spaced : ℕ → FailureClock → List FailureClock → Type 0
Spaced retention t [] = Unit
Spaced retention t (t' ∷ ts) = (t'.evicted - t.attempted ≤ retention) × Spaced retention t' ts

fail_client-counts :
    (t : FailureClock) (s : ClientState)
    → s.failed_attempts + 1 < 2 ^ 32
    → ((fail_client t s).0.failed_attempts ≡ s.failed_attempts + 1)
      × ((fail_client t s).0.last_attempt ≡ t.attempted)
unfolding fail_client
fail_client-counts t s h = ground arith

fail_client-locks :
    (t : FailureClock) (s : ClientState)
    → s.failed_attempts + 1 < 2 ^ 32
    → max_attempts ≤ s.failed_attempts + 1
    → (fail_client t s).0.locked_until ≡ some (t.lock_start + lockout_duration)
unfolding fail_client
fail_client-locks t s h k = ground arith

-- The state that the next call of this client finds, if it comes within the retention.
unfoldable pub found : RateLimiter → String → FailureClock → ClientState
found l key t = or_new t.created (entry l key t.evicted)

record_failure-retention :
    (l : RateLimiter) (key : String) (t : FailureClock)
    → (record_failure l key t).0.retention ≡ l.retention
unfolding record_failure
record_failure-retention l key t = refl

found_of_fresh :
    (l : RateLimiter) (key : String) (s : ClientState) (t : FailureClock)
    → lookup key l.clients ≡ some s
    → t.evicted - s.last_attempt ≤ l.retention
    → found l key t ≡ s
unfolding found
found_of_fresh l key s t e near = rw e (ground arith)

found-failure :
    (l : RateLimiter) (key : String) (t t' : FailureClock)
    → Distinct l.clients
    → (found l key t).failed_attempts + 1 < 2 ^ 32
    → t'.evicted - t.attempted ≤ l.retention
    → (found (record_failure l key t).0 key t').failed_attempts
      ≡ (found l key t).failed_attempts + 1
found-failure l key t t' d small near =
    let s' = (fail_client t (found l key t)).0 in
    let (count, last) = fail_client-counts t (found l key t) small in
    let e =
      found_of_fresh (record_failure l key t).0 key s' t'
        (unfold found in lookup-record_failure l key t d)
        (rw (record_failure-retention l key t, last) near) in
    ap (λ c. ClientState.failed_attempts c) e ∙ count

failures-Distinct :
    (l : RateLimiter) (key : String) (t : FailureClock) (ts : List FailureClock)
    → Distinct l.clients
    → Distinct (failures l key t ts).clients
unfolding failures
failures-Distinct l key t [] d = record_failure-Distinct l key t d
failures-Distinct l key t (t' ∷ ts) d =
    failures-Distinct (record_failure l key t).0 key t' ts (record_failure-Distinct l key t d)

check_locked :
    (l : RateLimiter) (key : String) (s : ClientState) {until : ℕ} (u : CheckClock)
    → Distinct l.clients
    → lookup key l.clients ≡ some s
    → s.locked_until ≡ some until
    → u.evicted ≤ u.lock_test
    → u.lock_test < until
    → (check_rate_limit l key u).0 ≡ locked_out (as_secs (until - u.lock_rest))
unfolding check_client
check_locked l key s u d e locked order soon =
    rw (check_rate_limit_verdict l key u d, e) (ground arith)

module _ (key : String) where
  failures-locks :
      (l : RateLimiter) (t : FailureClock) (ts : List FailureClock)
      → Distinct l.clients
      → Spaced l.retention t ts
      → (found l key t).failed_attempts + suc (length ts) < 2 ^ 32
      → max_attempts ≤ (found l key t).failed_attempts + suc (length ts)
      → (s : ClientState) × (lookup key (failures l key t ts).clients ≡ some s)
        × (s.locked_until ≡ some ((last_of t ts).lock_start + lockout_duration))
  unfolding failures
  failures-locks l t [] d sp small many = (
    (fail_client t (found l key t)).0,
    unfold found in lookup-record_failure l key t d,
    fail_client-locks t (found l key t) (omega arith) (omega arith),
  )
  failures-locks l t (t' ∷ ts) d sp small many =
      let step = found-failure l key t t' d (omega arith) sp.0 in
      failures-locks (record_failure l key t).0 t' ts (record_failure-Distinct l key t d)
        (rw record_failure-retention sp.1) (omega (arith, step)) (omega (arith, step))

  -- After five failures or more of one client since it was last clean (counting those that its
  -- entry already holds, and fewer than 2^32), each within the retention of the one before it, a
  -- check that comes less than 300 s after the last one's lockout began answers `locked_out`, with
  -- the seconds that are left; no key of the limiter is listed twice.
  pub failures_lock_out :
      (l : RateLimiter) (t : FailureClock) (ts : List FailureClock) (u : CheckClock)
      → Distinct l.clients
      → Spaced l.retention t ts
      → (found l key t).failed_attempts + suc (length ts) < 2 ^ 32
      → max_attempts ≤ (found l key t).failed_attempts + suc (length ts)
      → u.evicted ≤ u.lock_test
      → u.lock_test < (last_of t ts).lock_start + lockout_duration
      → (check_rate_limit (failures l key t ts) key u).0
        ≡ locked_out (as_secs ((last_of t ts).lock_start + lockout_duration - u.lock_rest))
  failures_lock_out l t ts u d sp small many order soon =
      let (s, e, locked) = failures-locks l t ts d sp small many in
      check_locked (failures l key t ts) key s u (failures-Distinct l key t ts d) e locked order
        soon
