-- ===== src/RateLimit/Guard/Path.antt =====
-- internal/ratelimit/guard.go: what the limiter and the breaker make of each other.
use whois_mcp.Prelude.{
  ℕ, ◌+◌, ◌≤◌, ◌<◌, ◌≡◌, ◌∙◌, refl, ap, Bool, true, false, some, Text, lookup, insert,
  lookup-insert_self, Result, ok, err, Result-cases, inl, inr, arith,
}
use whois_mcp.RateLimit.HostKey.{host_key}
use whois_mcp.RateLimit.Limiter.{
  Buckets, Context, AcquireError, throttled, Sources, Limiter, acquire, observe, is_failure,
  failures_of,
}
use whois_mcp.RateLimit.Limiter.Asked.{Asks, pause_for-Asks}
use whois_mcp.RateLimit.Limiter.Pauses.{acquire-observe, acquire_key_paused}
use whois_mcp.RateLimit.Breaker.{
  closed, half_open, BreakerState, Breaker, CircuitOpen, allow, host_allow, record_outcome,
  host_record, record_success, state_of, reported, entry_of,
}
use whois_mcp.RateLimit.Guard.{
  Outcome, Ending, circuit_open, not_admitted, called, Guard, guard_do, admit, call_upstream,
}

abbrev pub was_called : Ending → Bool
was_called (circuit_open _) = false
was_called (not_admitted _) = false
was_called (called _) = true

module _ (ops : Buckets) (env : Sources) (fn : ℕ → Outcome × ℕ) where
  -- A call that was made leaves the limiter as `observe` does.
  guard_do_called :
      (g : Guard ops) (host : Text) (ctx : Context) (now start : ℕ)
      → was_called (guard_do ops env fn g host ctx now start).1 ≡ true
      → (guard_do ops env fn g host ctx now start).0.limiter
        ≡ observe ops env
            (acquire ops g.limiter host ctx now).0
            host
            (fn start).0.status
            (fn start).0.retry_after
            (fn start).1
  unfolding guard_do admit call_upstream
  guard_do_called g host ctx now start h = elim (Result-cases (allow g.breaker host now).1) [
    | inr (r, e) ↦ absurd (ground arith)
    | inl (key, e) ↦ elim (Result-cases (acquire ops g.limiter host ctx now).1) [
      | inr (r, f) ↦ let refused = rw (e, guard_do, f, admit) at h in absurd (ground arith)
      | inl (_, f) ↦ rw (e, guard_do, f, admit) refl
    ]
  ]

  -- A host that the limiter refuses is not called.
  guard_do_refused :
      (g : Guard ops) (host : Text) (ctx : Context) (now start : ℕ) (e : AcquireError)
      → (acquire ops g.limiter host ctx now).1 ≡ err e
      → was_called (guard_do ops env fn g host ctx now start).1 ≡ false
  unfolding guard_do admit call_upstream
  guard_do_refused g host ctx now start e h = elim (Result-cases (allow g.breaker host now).1) [
    | inr (r, f) ↦ rw (f, guard_do) refl
    | inl (key, f) ↦ rw (f, guard_do, h, admit) refl
  ]

-- After a call that a 429 or a 5xx answered, a second one through the guard is not made before the
-- pause that the answer asks for is over: the seconds of its Retry-After or the time up to its date,
-- each up to fifteen minutes and where it fits an int64 of nanoseconds, or else, where it names
-- neither, a drawn time below the back-off's ceiling.
pub guard_do-guard_do :
    (ops : Buckets) (env : Sources) (fn again : ℕ → Outcome × ℕ) (g : Guard ops) (host : Text)
    (ctx : Context) (now start : ℕ) (ctx' : Context) (later : ℕ) (start' pause : ℕ)
    → let first = guard_do ops env fn g host ctx now start in
      let (out, done) = fn start in
      let failures = failures_of ops (acquire ops g.limiter host ctx now).0 host + 1 in
      was_called first.1 ≡ true
      → is_failure out.status ≡ true
      → 0 < out.status
      → Asks env out.retry_after done failures pause
      → later < done + pause
      → was_called (guard_do ops env again first.0 host ctx' later start').1 ≡ false
guard_do-guard_do ops env fn again g host ctx now start ctx' later start' pause made failed answered
      asks early =
    let first = guard_do ops env fn g host ctx now start in
    let l = (acquire ops g.limiter host ctx now).0 in
    let (out, done) = fn start in
    let e =
      pause_for-Asks env out.retry_after done (failures_of ops l host + 1) pause (omega arith)
        asks in
    guard_do_refused ops env again first.0 host ctx' later start' _ (
      ap (λ (m : Limiter ops). (acquire ops m host ctx' later).1)
        (guard_do_called ops env fn g host ctx now start made)
      ∙ ap (λ (r : Limiter ops × Result AcquireError (Unit {0})). r.1)
          (acquire-observe ops env l host out.status out.retry_after done ctx' later failed answered
            (rw e early)))

guard_do_not_admitted :
    (ops : Buckets) (env : Sources) (fn : ℕ → Outcome × ℕ) (g : Guard ops) (host key : Text)
    (ctx : Context) (now start : ℕ) (b : Breaker) (l : Limiter ops) (e : AcquireError)
    → allow g.breaker host now ≡ (b, ok key)
    → acquire ops g.limiter host ctx now ≡ (l, err e)
    → guard_do ops env fn g host ctx now start
      ≡ (record { limiter = l; breaker = record_outcome b key true now }, not_admitted e)
unfolding guard_do admit
guard_do_not_admitted ops env fn g host key ctx now start b l e h k =
    rw (h, guard_do, k, admit)
      (ap
          (λ (r : Breaker × Result CircuitOpen Text). (
            record {
              limiter = (acquire ops g.limiter host ctx now).0;
              breaker = record_outcome r.0 key true now;
            },
            not_admitted e,
          ))
          h
        ∙ ap
            (λ (r : Limiter ops × Result AcquireError (Unit {0})).
              (record { limiter = r.0; breaker = record_outcome b key true now }, not_admitted e))
            k)

allow_probe :
    (b : Breaker) (host : Text) (now : ℕ) (st : BreakerState)
    → lookup (host_key host) b.hosts ≡ some st
    → st.state ≡ half_open
    → st.in_flight_probe ≡ false
    → allow b host now ≡ (
      record b { hosts = insert (host_key host) (record st { in_flight_probe = true }) b.hosts },
      ok (host_key host),
    )
unfolding allow host_allow entry_of
allow_probe b host now st known half idle = rw (known, allow, half, idle) refl

record_last_probe :
    (b : Breaker) (key : Text) (now : ℕ) (st : BreakerState)
    → lookup key b.hosts ≡ some st
    → st.state ≡ half_open
    → b.options.probes ≤ st.successes + 1
    → (after : BreakerState) × (lookup key (record_outcome b key true now).hosts ≡ some after)
      × (after.state ≡ closed)
unfolding record_outcome host_record record_success
record_last_probe b key now st known half last = (
  host_record b.options st true now,
  rw (known, record_outcome) (lookup-insert_self key _ b.hosts),
  ground arith,
)

state_of_closed :
    (b : Breaker) (host : Text) (now : ℕ) (st : BreakerState)
    → lookup (host_key host) b.hosts ≡ some st
    → st.state ≡ closed
    → state_of b host now ≡ closed
unfolding state_of reported
state_of_closed b host now st known shut = rw (known, state_of, shut) refl

-- A call that the limiter refuses is released to the breaker as a success: a half-open circuit that
-- waits for its last probe is closed by a call that reaches no upstream.
pub guard_do_throttled :
    (ops : Buckets) (env : Sources) (fn : ℕ → Outcome × ℕ) (g : Guard ops) (host : Text)
    (ctx : Context) (now start until : ℕ) (st : BreakerState)
    → lookup (host_key host) g.limiter.pauses ≡ some until
    → now < until
    → lookup (host_key host) g.breaker.hosts ≡ some st
    → st.state ≡ half_open
    → st.in_flight_probe ≡ false
    → g.breaker.options.probes ≤ st.successes + 1
    → let (after, ending) = guard_do ops env fn g host ctx now start in
      (ending ≡ not_admitted (throttled (host_key host) until))
      × (state_of after.breaker host now ≡ closed)
unfolding acquire
guard_do_throttled ops env fn g host ctx now start until st paused early known half idle last =
    let key = host_key host in
    let busy = record st { in_flight_probe = true } in
    let b = record g.breaker { hosts = insert key busy g.breaker.hosts } in
    let done =
      guard_do_not_admitted ops env fn g host key ctx now start b g.limiter _
        (allow_probe g.breaker host now st known half idle)
        (acquire_key_paused ops g.limiter key ctx now until paused early) in
    let (after, found, shut) =
      record_last_probe b key now busy (lookup-insert_self key busy g.breaker.hosts) half last in
    (
      ap (λ (r : Guard ops × Ending). r.1) done,
      ap (λ (r : Guard ops × Ending). state_of r.0.breaker host now) done
          ∙ state_of_closed (record_outcome b key true now) host now after found shut,
    )
