-- ===== src/RateLimiter/Isolation.antt =====
-- One client's calls and another client's answers (src/rpc/rate_limiter.rs).
use mostro.Prelude.{ℕ, ◌≤◌, ◌≡◌, ◌≢◌, String, Option, none, some, arith}
use mostro.Prelude.Equality.{string_eq, beq_ne}
use mostro.Prelude.Map.{retained, lookup, Distinct, lookup-insert, lookup-remove}
use mostro.RateLimiter.{
  ClientState, RateLimiter, is_fresh, CheckClock, check_rate_limit, FailureClock, record_failure,
  record_success,
}
use mostro.RateLimiter.Clients.{
  entry, lookup-evict_stale, check_rate_limit_verdict, check_rate_limit-Distinct,
  record_failure-Distinct, record_success-Distinct,
}

-- What an earlier eviction removes, a later one would.
retained_twice :
    (retention t u : ℕ) (key : String) (o : Option ClientState)
    → t ≤ u
    → retained
        (λ (_ : String) s. is_fresh retention u s)
        key
        (retained (λ (_ : String) s. is_fresh retention t s) key o)
      ≡ retained (λ (_ : String) s. is_fresh retention u s) key o
retained_twice retention t u key none h = ground arith
retained_twice retention t u key (some s) h = ground arith

module _ (l : RateLimiter) (j k : String) (valid : Distinct l.clients) (other : j ≢ k) where
  entry-check :
      (t : CheckClock) (u : ℕ) → t.evicted ≤ u → entry (check_rate_limit l k t).1 j u ≡ entry l j u
  unfolding check_rate_limit
  entry-check t u h =
      rw (lookup-insert, beq_ne j k other, lookup-evict_stale l j t.evicted valid)
        (retained_twice l.retention t.evicted u j (lookup j l.clients) h)

  entry-failure :
      (t : FailureClock) (u : ℕ) → t.evicted ≤ u → entry (record_failure l k t).0 j u ≡ entry l j u
  unfolding record_failure
  entry-failure t u h =
      rw (lookup-insert, beq_ne j k other, lookup-evict_stale l j t.evicted valid)
        (retained_twice l.retention t.evicted u j (lookup j l.clients) h)

  entry-success : (t u : ℕ) → t ≤ u → entry (record_success l k t) j u ≡ entry l j u
  unfolding record_success
  entry-success t u h =
      rw (lookup-remove, beq_ne j k other, lookup-evict_stale l j t valid)
        (retained_twice l.retention t u j (lookup j l.clients) h)

  -- Whatever client `k` does before, a check, a failure or a success, the verdict that client `j`
  -- gets at `u` is the one that it would have got without that call, provided that no key of the
  -- limiter is listed twice, the two keys differ, and the call's eviction read the clock no later
  -- than the check's.
  pub check_rate_limit_isolated :
      (c : CheckClock) (f : FailureClock) (s : ℕ) (u : CheckClock)
      → c.evicted ≤ u.evicted
      → f.evicted ≤ u.evicted
      → s ≤ u.evicted
      → ((check_rate_limit (check_rate_limit l k c).1 j u).0 ≡ (check_rate_limit l j u).0)
        × ((check_rate_limit (record_failure l k f).0 j u).0 ≡ (check_rate_limit l j u).0)
        × ((check_rate_limit (record_success l k s) j u).0 ≡ (check_rate_limit l j u).0)
  check_rate_limit_isolated c f s u hc hf hs = (
    rw (
      check_rate_limit_verdict (check_rate_limit l k c).1 j u
          (check_rate_limit-Distinct l k c valid),
      check_rate_limit_verdict l j u valid,
      entry-check c u.evicted hc,
    ),
    rw (
      check_rate_limit_verdict (record_failure l k f).0 j u (record_failure-Distinct l k f valid),
      check_rate_limit_verdict l j u valid,
      entry-failure f u.evicted hf,
    ),
    rw (
      check_rate_limit_verdict (record_success l k s) j u (record_success-Distinct l k s valid),
      check_rate_limit_verdict l j u valid,
      entry-success s u.evicted hs,
    ),
  )
