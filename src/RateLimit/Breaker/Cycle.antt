-- ===== src/RateLimit/Breaker/Cycle.antt =====
-- internal/ratelimit/breaker.go: what every sequence of calls and releases keeps
-- of one host's entry, and the single probe.
use whois_mcp.Prelude.{
  All, refl, is_ok, if◌then◌else◌, ◌++◌, lt→ltb, ◌≤◌, ℕ, ◌+◌, ◌<◌, ◌≡◌, ◌⊎◌, inl, inr, Bool, true,
  false, List, [], ◌∷◌, ok, err, ltb, leb, Bool-cases, arith,
}
use whois_mcp.RateLimit.Breaker.{
  closed, open_circuit, half_open, BreakerState, new_state, Options, host_allow, host_record,
  record_success, record_failure,
}

-- A count is kept below what would end its state, and only a half-open circuit has a probe out.
pub data IsValid (o : Options) : BreakerState → Type 0 where
  valid_closed :
      (f u : ℕ)
      → f < o.threshold
      → IsValid o (record {
        state = closed;
        failures = f;
        successes = 0;
        open_until = u;
        in_flight_probe = false;
      })
  valid_open :
      (f u : ℕ)
      → IsValid o (record {
        state = open_circuit;
        failures = f;
        successes = 0;
        open_until = u;
        in_flight_probe = false;
      })
  valid_half_open :
      (f s u : ℕ) (probe : Bool)
      → s < o.probes
      → IsValid o (record {
        state = half_open;
        failures = f;
        successes = s;
        open_until = u;
        in_flight_probe = probe;
      })

-- The calls on one entry, in any order: a release may come at any time.
pub data Call : Type 0 where
  allow_call : ℕ → Call
  record_call : Bool → ℕ → Call

unfoldable pub step : Options → BreakerState → Call → BreakerState
step o st (allow_call now) = (host_allow o st now).0
step o st (record_call success now) = host_record o st success now

unfoldable pub run : Options → BreakerState → List Call → BreakerState
run o st [] = st
run o st (c ∷ calls) = run o (step o st c) calls

host_allow-IsValid :
    (o : Options) (st : BreakerState) (now : ℕ)
    → 0 < o.probes
    → IsValid o st
    → IsValid o (host_allow o st now).0
unfolding host_allow
host_allow-IsValid o st now some_probe (valid_closed f u h) = valid_closed f u h
host_allow-IsValid o st now some_probe (valid_open f u) = elim (Bool-cases (ltb now u)) [
  | inl e ↦ rw e (valid_open f u)
  | inr e ↦ rw e (valid_half_open f 0 u true some_probe)
]
host_allow-IsValid o st now some_probe (valid_half_open f s u true h) = valid_half_open f s u true h
host_allow-IsValid o st now some_probe (valid_half_open f s u false h) =
    valid_half_open f s u true h

host_record-IsValid :
    (o : Options) (st : BreakerState) (success : Bool) (now : ℕ)
    → 0 < o.threshold
    → IsValid o st
    → IsValid o (host_record o st success now)
unfolding host_record record_success record_failure
host_record-IsValid o st true now some (valid_closed f u h) = valid_closed 0 u some
host_record-IsValid o st false now some (valid_closed f u h) =
    elim (Bool-cases (leb o.threshold (f + 1))) [
      | inl e ↦ rw e (valid_open (f + 1) (now + o.cooldown))
      | inr e ↦ rw e (valid_closed (f + 1) u (ground arith))
    ]
host_record-IsValid o st true now some (valid_open f u) = valid_closed 0 u some
host_record-IsValid o st false now some (valid_open f u) =
    elim (Bool-cases (leb o.threshold (f + 1))) [
      | inl e ↦ rw e (valid_open (f + 1) (now + o.cooldown))
      | inr e ↦ rw e (valid_open (f + 1) u)
    ]
host_record-IsValid o st true now some (valid_half_open f s u probe h) =
    elim (Bool-cases (leb o.probes (s + 1))) [
      | inl e ↦ rw e (valid_closed 0 u some)
      | inr e ↦ rw e (valid_half_open 0 (s + 1) u false (ground arith))
    ]
host_record-IsValid o st false now some (valid_half_open f s u probe h) =
    valid_open (f + 1) (now + o.cooldown)

step-IsValid :
    (o : Options) (st : BreakerState) (c : Call)
    → 0 < o.threshold
    → 0 < o.probes
    → IsValid o st
    → IsValid o (step o st c)
unfolding step
step-IsValid o st (allow_call now) t p v = host_allow-IsValid o st now p v
step-IsValid o st (record_call success now) t p v = host_record-IsValid o st success now t v

run_from-IsValid :
    (o : Options) (st : BreakerState) (calls : List Call)
    → 0 < o.threshold
    → 0 < o.probes
    → IsValid o st
    → IsValid o (run o st calls)
unfolding run
run_from-IsValid o st [] t p v = v
run_from-IsValid o st (c ∷ calls) t p v =
    run_from-IsValid o (step o st c) calls t p (step-IsValid o st c t p v)

-- Whatever calls and releases reach a new entry, in whatever order, the circuit is valid.
pub run-IsValid :
    (o : Options) (calls : List Call)
    → 0 < o.threshold
    → 0 < o.probes
    → IsValid o (run o new_state calls)
run-IsValid o calls t p = run_from-IsValid o new_state calls t p (valid_closed 0 0 t)

-- Once a half-open circuit has admitted a call, it refuses every other until a release.
pub host_allow-half_open :
    (o : Options) (st : BreakerState) (now later : ℕ)
    → (st.state ≡ half_open) ⊎ (st.state ≡ open_circuit)
    → (host_allow o st now).1 ≡ ok tt
    → host_allow o (host_allow o st now).0 later
      ≡ ((host_allow o st now).0, err (later + o.cooldown))
unfolding host_allow
host_allow-half_open o st now later trouble admitted = ground arith

-- How many of the calls at these times are admitted, when none of them is released.
unfoldable pub admitted : Options → BreakerState → List ℕ → ℕ
admitted o st [] = 0
admitted o st (now ∷ times) =
    let later = admitted o (host_allow o st now).0 times in
    if is_ok (host_allow o st now).1 then 1 + later else later

abbrev opened : ℕ → ℕ → BreakerState
opened f u = record {
  state = open_circuit;
  failures = f;
  successes = 0;
  open_until = u;
  in_flight_probe = false;
}

abbrev probed : ℕ → ℕ → BreakerState
probed f u = record {
  state = half_open;
  failures = f;
  successes = 0;
  open_until = u;
  in_flight_probe = true;
}

admitted-probed : (o : Options) (f u : ℕ) (times : List ℕ) → admitted o (probed f u) times ≡ 0
unfolding admitted host_allow
admitted-probed o f u [] = refl
admitted-probed o f u (now ∷ times) = admitted-probed o f u times

admitted-opened : (o : Options) (f u : ℕ) (times : List ℕ) → admitted o (opened f u) times ≤ 1
unfolding admitted host_allow
admitted-opened o f u [] = omega arith
admitted-opened o f u (now ∷ times) = elim (Bool-cases (ltb now u)) [
  | inl e ↦ rw e (admitted-opened o f u times)
  | inr e ↦ rw e (omega (arith, admitted-probed o f u times))
]

admitted_early :
    (o : Options) (f u : ℕ) (early times : List ℕ)
    → All (λ t. t < u) early
    → (admitted o (opened f u) early ≡ 0)
      × (admitted o (opened f u) (early ++ times) ≡ admitted o (opened f u) times)
unfolding admitted host_allow
admitted_early o f u [] times before = (refl, refl)
admitted_early o f u (now ∷ early) times before =
    rw (lt→ltb now u before.0) (admitted_early o f u early times before.1)

host_record-opened :
    (o : Options) (st : BreakerState) (now : ℕ)
    → (st.state ≡ half_open) ⊎ (o.threshold ≤ st.failures + 1)
    → host_record o st false now ≡ opened (st.failures + 1) (now + o.cooldown)
unfolding host_record record_failure
host_record-opened o st now trouble = ground arith

-- A failure of a half-open circuit, or one that reaches the threshold, keeps the host from being
-- called: up to the end of the cooldown no call is admitted, and from then on, until an outcome is
-- recorded, one single call is at most, whenever the calls come.
pub host_record-admitted :
    (o : Options) (st : BreakerState) (now : ℕ) (early times : List ℕ)
    → (st.state ≡ half_open) ⊎ (o.threshold ≤ st.failures + 1)
    → All (λ t. t < now + o.cooldown) early
    → let after = host_record o st false now in
      (admitted o after early ≡ 0) × (admitted o after (early ++ times) ≤ 1)
host_record-admitted o st now early times trouble before =
    let f = st.failures + 1 in
    let u = now + o.cooldown in
    let (none, rest) = admitted_early o f u early times before in
    rw (host_record-opened o st now trouble) (none, rw rest (admitted-opened o f u times))
