-- ===== src/RateLimiter/Tests.antt =====
-- Runs of the limiter on small inputs, and instances of its theorems.
use Prim.Native.String.{String}
use text.Mathlib.TextEquality.{eq_iff}
use mostro.Prelude.{ℕ, ◌≡◌, refl, ◌≢◌, [], ◌∷◌, List, arith}
use mostro.Prelude.Map.{lookup, insert, remove, retain}
use mostro.RateLimiter.{
  RateLimiter, new, default, default_retention, allowed, locked_out, rate_limited, CheckClock,
  FailureClock, check_rate_limit, record_failure, record_success, check_client, check_backoff,
  fail_client, delay_ms,
}
use mostro.RateLimiter.Isolation.{check_rate_limit_isolated}
use mostro.RateLimiter.Lockout.{found, failures, failures_lock_out}
use mostro.RateLimiter.Waits.{
  perform_all-ShortWait, ShortWait, ShortSleep, perform_all, Call, check, failure, done, next,
}

abbrev check_at : ℕ → CheckClock
check_at t = record { evicted = t; created = t; lock_test = t; lock_rest = t; backoff_test = t }

abbrev fail_at : ℕ → FailureClock
fail_at t = record { evicted = t; created = t; attempted = t; lock_start = t }

abbrev later_failures : List FailureClock
later_failures = fail_at 1 ∷ fail_at 2 ∷ fail_at 3 ∷ fail_at 4 ∷ []

abbrev brute_forced : RateLimiter
brute_forced = failures default "10.0.0.1" (fail_at 0) later_failures

five_failures : (check_rate_limit brute_forced "10.0.0.1" (check_at 1000000004)).0 ≡ locked_out 299
unfolding failures check_rate_limit record_failure check_client check_backoff lookup insert retain
    fail_client delay_ms
five_failures = refl

one_failure :
    (check_rate_limit (record_failure default "10.0.0.1" (fail_at 0)).0 "10.0.0.1" (check_at 1)).0
    ≡ rate_limited 1
unfolding check_rate_limit record_failure check_client check_backoff lookup insert retain
    fail_client delay_ms
one_failure = refl

success_forgives :
    (check_rate_limit (record_success brute_forced "10.0.0.1" 5) "10.0.0.1" (check_at 6)).0
    ≡ allowed
unfolding failures check_rate_limit record_failure record_success check_client check_backoff lookup
    insert retain remove fail_client delay_ms
success_forgives = refl

failures_lock_out_example :
    (check_rate_limit brute_forced "10.0.0.1" (check_at 1000000004)).0 ≡ locked_out 299
unfolding found lookup
failures_lock_out_example =
    failures_lock_out "10.0.0.1" default (fail_at 0) later_failures (check_at 1000000004) tt
      (omega arith) (omega arith) (omega arith) (omega arith) (omega arith)

distinct_clients : ◌≢◌ {A = String} "10.0.0.2" "10.0.0.1"
distinct_clients e = cc ((eq_iff "10.0.0.2" "10.0.0.1").1 e)

-- Another client's failure changes nothing for "10.0.0.2".
check_rate_limit_isolated_example :
    let l = default in
    let u = check_at 9 in
    ((check_rate_limit (check_rate_limit l "10.0.0.1" (check_at 1)).1 "10.0.0.2" u).0
      ≡ (check_rate_limit l "10.0.0.2" u).0)
    × ((check_rate_limit (record_failure l "10.0.0.1" (fail_at 2)).0 "10.0.0.2" u).0
        ≡ (check_rate_limit l "10.0.0.2" u).0)
    × ((check_rate_limit (record_success l "10.0.0.1" 3) "10.0.0.2" u).0
        ≡ (check_rate_limit l "10.0.0.2" u).0)
check_rate_limit_isolated_example =
    check_rate_limit_isolated default "10.0.0.2" "10.0.0.1" tt distinct_clients (check_at 1)
      (fail_at 2) 3 (check_at 9) (omega arith) (omega arith) (omega arith)

abbrev history : List Call
history =
    check "10.0.0.1" (check_at 1)
    ∷ failure "10.0.0.1" (fail_at 2)
    ∷ check "10.0.0.2" (check_at 3)
    ∷ []

perform_all-ShortWait_example :
    ShortWait
      (check_rate_limit (perform_all (new default_retention) history) "10.0.0.1" (check_at 4)).0
    × ShortSleep
        (record_failure (perform_all (new default_retention) history) "10.0.0.1" (fail_at 5)).1
perform_all-ShortWait_example =
    perform_all-ShortWait default_retention history {start = 0} {now = 3}
      (next 1 (omega arith) (next 2 (omega arith) (next 3 (omega arith) (done (omega arith)))))
      "10.0.0.1" (check_at 4) (fail_at 5) (omega arith) (omega arith) (omega arith)
