-- ===== src/RateLimit/Breaker/Overlap.antt =====
-- internal/ratelimit/breaker.go: calls that were admitted before the circuit opened and are released
-- after it.
use whois_mcp.Prelude.{ℕ, ◌≤◌, ◌<◌, ◌≡◌, true, ok, arith}
use whois_mcp.RateLimit.Breaker.{
  open_circuit, BreakerState, Options, host_allow, host_record, record_success,
}

-- A success that was admitted before the circuit opened closes it at once: neither the cooldown nor
-- a probe is waited for, and the next call is admitted.
pub host_record_late_success :
    (o : Options) (st : BreakerState) (now later : ℕ)
    → st.state ≡ open_circuit
    → (host_allow o (host_record o st true now) later).1 ≡ ok tt
unfolding host_allow host_record record_success
host_record_late_success o st now later opened = ground arith

-- A success that was admitted before the circuit opened and is released during a probe frees the
-- probe's slot: where more than one success is still missing, a second probe runs beside the first.
pub host_allow_second_probe :
    (o : Options) (st : BreakerState) (now released later : ℕ)
    → st.state ≡ open_circuit
    → st.open_until ≤ now
    → 1 < o.probes
    → let probe = host_allow o st now in
      (probe.1 ≡ ok tt) × ((host_allow o (host_record o probe.0 true released) later).1 ≡ ok tt)
unfolding host_allow host_record record_success
host_allow_second_probe o st now released later opened due probes = (ground arith, ground arith)
