-- ===== src/RateLimiter/Clients.antt =====
-- The well-formed limiter, and what each operation leaves under each client's key
-- (src/rpc/rate_limiter.rs).
use mostro.Prelude.{ℕ, ◌≡◌, String, Option, some}
use mostro.Prelude.Equality.{string_eq, beq_refl}
use mostro.Prelude.Map.{
  Map, retained, lookup, Distinct, lookup-insert, lookup-retain, insert-Distinct, remove-Distinct,
  retain-Distinct,
}
use mostro.RateLimiter.{
  ClientState, RateLimiter, is_fresh, evict_stale, or_new, check_client, CheckClock,
  check_rate_limit, FailureClock, fail_client, record_failure, record_success,
}

-- The client's entry, as an operation that begins at `now` finds it.
abbrev pub entry : RateLimiter → String → ℕ → Option ClientState
entry l key now = retained (λ (_ : String) s. is_fresh l.retention now s) key (lookup key l.clients)

pub lookup-evict_stale :
    (l : RateLimiter) (key : String) (now : ℕ)
    → Distinct l.clients
    → lookup key (evict_stale l.retention now l.clients) ≡ entry l key now
unfolding evict_stale
lookup-evict_stale l key now d = lookup-retain (λ _ s. is_fresh l.retention now s) key l.clients d

pub check_rate_limit_verdict :
    (l : RateLimiter) (key : String) (t : CheckClock)
    → Distinct l.clients
    → (check_rate_limit l key t).0 ≡ (check_client t (or_new t.created (entry l key t.evicted))).0
unfolding check_rate_limit
check_rate_limit_verdict l key t d = rw (lookup-evict_stale l key t.evicted d)

pub lookup-record_failure :
    (l : RateLimiter) (key : String) (t : FailureClock)
    → Distinct l.clients
    → lookup key (record_failure l key t).0.clients
      ≡ some (fail_client t (or_new t.created (entry l key t.evicted))).0
unfolding record_failure
lookup-record_failure l key t d =
    rw (lookup-evict_stale l key t.evicted d, lookup-insert, beq_refl key)

pub evict_stale-Distinct :
    (retention now : ℕ) (m : Map String ClientState)
    → Distinct m
    → Distinct (evict_stale retention now m)
unfolding evict_stale
evict_stale-Distinct retention now m d = retain-Distinct (λ _ s. is_fresh retention now s) m d

module _ (l : RateLimiter) (key : String) where
  pub check_rate_limit-Distinct :
      (t : CheckClock) → Distinct l.clients → Distinct (check_rate_limit l key t).1.clients
  unfolding check_rate_limit
  check_rate_limit-Distinct t d =
      insert-Distinct key _ _
        (retain-Distinct (λ _ s. is_fresh l.retention t.evicted s) l.clients d)

  pub record_failure-Distinct :
      (t : FailureClock) → Distinct l.clients → Distinct (record_failure l key t).0.clients
  unfolding record_failure
  record_failure-Distinct t d =
      insert-Distinct key _ _
        (retain-Distinct (λ _ s. is_fresh l.retention t.evicted s) l.clients d)

  pub record_success-Distinct :
      (now : ℕ) → Distinct l.clients → Distinct (record_success l key now).clients
  unfolding record_success
  record_success-Distinct now d =
      remove-Distinct key _ (retain-Distinct (λ _ s. is_fresh l.retention now s) l.clients d)
