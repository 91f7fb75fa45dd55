-- ===== src/RateLimiter/Waits.antt =====
-- The waits that the limiter imposes, over every history of calls (src/rpc/rate_limiter.rs).
use mostro.Prelude.{
  ℕ, zero, suc, ◌+◌, ◌^◌, ◌%◌, ◌≤◌, ◌<◌, ◌≡◌, sym, ◌∙◌, String, Option, none, some, List, [], ◌∷◌,
  arith, inl, inr, Option-cases, Bool,
}
use mostro.Prelude.Equality.{string_eq}
use mostro.Prelude.Map.{retained, lookup, insert, Distinct, lookup-insert_cases, lookup-remove-some}
use mostro.RateLimiter.{
  ClientState, RateLimiter, new, lockout_duration, max_attempts, delay_ms, is_fresh, or_new,
  Verdict, allowed, locked_out, rate_limited, check_client, check_backoff, evict_stale,
  lockout_over, CheckClock, check_rate_limit, FailureClock, fail_client, record_failure,
  record_success,
}
use mostro.RateLimiter.Clients.{
  entry, check_rate_limit_verdict, lookup-evict_stale, check_rate_limit-Distinct,
  record_failure-Distinct, record_success-Distinct,
}

abbrev pub LocksBefore : ℕ → Option ℕ → Type 0
LocksBefore limit none = Unit
LocksBefore limit (some until) = until ≤ limit

-- An entry that was last written at `now` or before.
pub record IsSound (now : ℕ) (s : ClientState) : Type 0 where
  pub past : s.last_attempt ≤ now
  pub lock_near : LocksBefore (now + lockout_duration) s.locked_until
  pub exhausted : s.locked_until ≡ none → s.failed_attempts < max_attempts

pub record IsValid (now : ℕ) (l : RateLimiter) : Type 0 where
  pub distinct : Distinct l.clients
  pub sound : (key : String) (s : ClientState) → lookup key l.clients ≡ some s → IsSound now s

IsSound-later : {now later : ℕ} (s : ClientState) → now ≤ later → IsSound now s → IsSound later s
IsSound-later s h g = ground arith

IsValid-later : {now later : ℕ} (l : RateLimiter) → now ≤ later → IsValid now l → IsValid later l
IsValid-later l h v = record {
  distinct = v.distinct;
  sound = λ key s e. IsSound-later s h (v.sound key s e);
}

check_client-IsSound :
    (now : ℕ) (t : CheckClock) (s : ClientState) → IsSound now s → IsSound now (check_client t s).1
unfolding check_client
check_client-IsSound now t s g = ground arith

fail_client-IsSound :
    (now : ℕ) (t : FailureClock) (s : ClientState)
    → t.attempted ≤ now
    → t.lock_start ≤ now
    → IsSound now s
    → IsSound now (fail_client t s).0
unfolding fail_client
fail_client-IsSound now t s ha hl g = ground arith

retained-some :
    (p : String → ClientState → Bool) (key : String) (o : Option ClientState) {s : ClientState}
    → retained p key o ≡ some s
    → o ≡ some s
retained-some p key none e = e
retained-some p key (some s) e = ground arith

module _ (l : RateLimiter) (now : ℕ) (valid : IsValid now l) where
  found-IsSound :
      (key : String) (evicted created : ℕ)
      → now ≤ created
      → IsSound created (or_new created (entry l key evicted))
  found-IsSound key evicted created h = elim (Option-cases (lookup key l.clients)) [
    | inl e ↦ rw e (ground arith)
    | inr (s, e) ↦ let g = IsSound-later s h (valid.sound key s e) in rw e (ground (arith, g))
  ]

  evicted-IsSound :
      (key : String) (t : ℕ) (s : ClientState)
      → lookup key (evict_stale l.retention t l.clients) ≡ some s
      → IsSound now s
  evicted-IsSound key t s e = valid.sound key s (
      retained-some (λ _ s. is_fresh l.retention t s) key (lookup key l.clients)
        (sym (lookup-evict_stale l key t valid.distinct) ∙ e))

  insert-IsSound :
      (later t : ℕ) (key : String) (new_state : ClientState)
      → now ≤ later
      → IsSound later new_state
      → (k : String) (s : ClientState)
      → lookup k (insert key new_state (evict_stale l.retention t l.clients)) ≡ some s
      → IsSound later s
  insert-IsSound later t key new_state h g k s e =
      elim (lookup-insert_cases k key new_state (evict_stale l.retention t l.clients) e) [
        | inl q ↦ rw (← q) g
        | inr old ↦ IsSound-later s h (evicted-IsSound k t s old)
      ]

  check-IsValid :
      (key : String) (t : CheckClock) (later : ℕ)
      → now ≤ t.created
      → t.created ≤ later
      → IsValid later (check_rate_limit l key t).1
  unfolding check_rate_limit
  check-IsValid key t later h h' = record {
    distinct = check_rate_limit-Distinct l key t valid.distinct;
    sound = insert-IsSound later t.evicted key _ (omega arith) (
        check_client-IsSound later t _ (
          rw (lookup-evict_stale l key t.evicted valid.distinct)
            (IsSound-later _ h' (found-IsSound key t.evicted t.created h))));
  }

  failure-IsValid :
      (key : String) (t : FailureClock) (later : ℕ)
      → now ≤ t.created
      → t.created ≤ later
      → t.attempted ≤ later
      → t.lock_start ≤ later
      → IsValid later (record_failure l key t).0
  unfolding record_failure
  failure-IsValid key t later h h' ha hl = record {
    distinct = record_failure-Distinct l key t valid.distinct;
    sound = insert-IsSound later t.evicted key _ (omega arith) (
        fail_client-IsSound later t _ ha hl (
          rw (lookup-evict_stale l key t.evicted valid.distinct)
            (IsSound-later _ h' (found-IsSound key t.evicted t.created h))));
  }

  success-IsValid : (key : String) (t : ℕ) → now ≤ t → IsValid t (record_success l key t)
  unfolding record_success
  success-IsValid key t h = record {
    distinct = record_success-Distinct l key t valid.distinct;
    sound = λ k s e. IsSound-later s h (evicted-IsSound k t s (lookup-remove-some k key _ e));
  }

-- The calls of a client, each with its readings of the clock.
pub data Call : Type 0 where
  check : String → CheckClock → Call
  failure : String → FailureClock → Call
  success : String → ℕ → Call

unfoldable pub perform : RateLimiter → Call → RateLimiter
perform l (check key t) = (check_rate_limit l key t).1
perform l (failure key t) = (record_failure l key t).0
perform l (success key t) = record_success l key t

unfoldable pub perform_all : RateLimiter → List Call → RateLimiter
perform_all l [] = l
perform_all l (c ∷ cs) = perform_all (perform l c) cs

-- The readings of the call lie between `now` and `later`.
abbrev pub During : ℕ → Call → ℕ → Type 0
During now (check key t) later = (now ≤ t.created) × (t.created ≤ later)
During now (failure key t) later =
    (now ≤ t.created) × (t.created ≤ later) × (t.attempted ≤ later) × (t.lock_start ≤ later)
During now (success key t) later = (now ≤ t) × (t ≤ later)

-- The calls follow one another on a clock that does not go back, and end by `later`.
pub data Timeline : ℕ → List Call → ℕ → Type 0 where
  done : {now later : ℕ} → now ≤ later → Timeline now [] later
  next :
      {now later : ℕ} {c : Call} {cs : List Call} (after : ℕ)
      → During now c after
      → Timeline after cs later
      → Timeline now (c ∷ cs) later

perform-IsValid :
    (l : RateLimiter) (c : Call) (now later : ℕ)
    → IsValid now l
    → During now c later
    → IsValid later (perform l c)
unfolding perform
perform-IsValid l (check key t) now later v d = check-IsValid l now v key t later d.0 d.1
perform-IsValid l (failure key t) now later v d =
    failure-IsValid l now v key t later d.0 d.1 d.2 d.3
perform-IsValid l (success key t) now later v d =
    IsValid-later _ d.1 (success-IsValid l now v key t d.0)

perform_all-IsValid :
    (l : RateLimiter) {now later : ℕ} {cs : List Call}
    → IsValid now l
    → Timeline now cs later
    → IsValid later (perform_all l cs)
unfolding perform_all
perform_all-IsValid l v (done h) = IsValid-later l h v
perform_all-IsValid l v (next after d rest) =
    perform_all-IsValid (perform l _) (perform-IsValid l _ _ after v d) rest

new-IsValid : (retention now : ℕ) → IsValid now (new retention)
unfolding lookup
new-IsValid retention now = record { distinct = tt; sound = λ key s e. cc }

-- Up to four failures the delay is computed without wrapping.
delay_ms_small : (n : ℕ) → n < max_attempts → delay_ms n ≤ 8000
unfolding delay_ms
delay_ms_small zero h = omega arith
delay_ms_small (suc zero) h = omega arith
delay_ms_small (suc (suc zero)) h = omega arith
delay_ms_small (suc (suc (suc zero))) h = omega arith
delay_ms_small (suc (suc (suc (suc zero)))) h = omega arith
delay_ms_small (suc (suc (suc (suc (suc n))))) h = absurd (omega arith)

-- The seconds that a verdict names.
abbrev pub ShortWait : Verdict → Type 0
ShortWait allowed = Unit
ShortWait (locked_out n) = n ≤ 300
ShortWait (rate_limited n) = n ≤ 9

abbrev pub ShortSleep : Option ℕ → Type 0
ShortSleep none = Unit
ShortSleep (some n) = n ≤ 8000

check_backoff-ShortWait :
    (now : ℕ) (t : CheckClock) (s : ClientState)
    → s.failed_attempts < max_attempts
    → s.last_attempt ≤ now
    → now ≤ t.backoff_test
    → ShortWait (check_backoff t s)
unfolding check_backoff
check_backoff-ShortWait now t s few past h = ground (arith, delay_ms_small s.failed_attempts few)

check_client-ShortWait :
    (now : ℕ) (t : CheckClock) (s : ClientState)
    → IsSound now s
    → now ≤ t.lock_rest
    → now ≤ t.backoff_test
    → ShortWait (check_client t s).0
unfolding check_client
check_client-ShortWait now t s g hl hb =
    ground (arith, check_backoff-ShortWait now t s, check_backoff-ShortWait now t (lockout_over s))

-- A failure sleeps at most eight seconds, whatever the entry holds.
fail_client-ShortSleep : (t : FailureClock) (s : ClientState) → ShortSleep (fail_client t s).1
unfolding fail_client
fail_client-ShortSleep t s = ground (arith, delay_ms_small ((s.failed_attempts + 1) % 2 ^ 32))

-- Start a new limiter and let any clients make any calls, on a clock that does not go back. Then a
-- check whose readings come later, in the order of the code, is never told to wait more than 300
-- seconds for a lockout or 9 for a backoff, and a failure sleeps at most 8000 ms.
pub perform_all-ShortWait :
    (retention : ℕ) (cs : List Call) {start now : ℕ}
    → Timeline start cs now
    → (key : String) (t : CheckClock) (f : FailureClock) → now ≤ t.created
    → t.created ≤ t.lock_rest
    → t.created ≤ t.backoff_test
    → ShortWait (check_rate_limit (perform_all (new retention) cs) key t).0
      × ShortSleep (record_failure (perform_all (new retention) cs) key f).1
perform_all-ShortWait retention cs {start} time key t f h hl hb =
    let l = perform_all (new retention) cs in
    let v = perform_all-IsValid (new retention) (new-IsValid retention start) time in
    (
      rw (check_rate_limit_verdict l key t v.distinct) (
          check_client-ShortWait t.created t _ (found-IsSound l _ v key t.evicted t.created h) hl
            hb),
      unfold record_failure in fail_client-ShortSleep f _,
    )
