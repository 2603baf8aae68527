-- ===== src/RateLimit/Breaker.antt =====
-- internal/ratelimit/breaker.go: the circuit breaker. `host_allow` and `host_record` are the calls on
-- the entry of one host; a releaser is the key that it records under, and works once.
pub mod Cycle
pub mod Trips
pub mod Overlap
use whois_mcp.Prelude.{
  ℕ, ◌+◌, ◌*◌, Bool, true, false, not, ◌&&◌, ◌||◌, Option, none, some, List, [], ◌∷◌, Text, Dict,
  lookup, insert, Result, ok, err, ltb, leb, ◌==◌, if◌then◌else◌,
}
use whois_mcp.RateLimit.HostKey.{host_key}
use whois_mcp.RateLimit.RetryAfter.{second}

pub data State : Type 0 where
  closed open_circuit half_open : State

pub record BreakerState : Type 0 where
  pub state : State
  pub failures : ℕ
  pub successes : ℕ
  pub open_until : ℕ
  pub in_flight_probe : Bool

abbrev pub new_state : BreakerState
new_state = record {
  state = closed;
  failures = 0;
  successes = 0;
  open_until = 0;
  in_flight_probe = false;
}

pub record Options : Type 0 where
  pub threshold : ℕ
  pub cooldown : ℕ
  pub probes : ℕ

abbrev or_default : ℕ → ℕ → ℕ
or_default n d = if n == 0 then d else n

-- `NewBreaker`: an option that is not positive (0 here) takes its default.
unfoldable pub with_defaults : Options → Options
with_defaults o = record {
  threshold = or_default o.threshold 5;
  cooldown = or_default o.cooldown (30 * second);
  probes = or_default o.probes 2;
}

-- The refusal says until when.
unfoldable pub host_allow : Options → BreakerState → ℕ → BreakerState × Result ℕ (Unit {0})
host_allow o st now = elim st.state [
  | open_circuit ↦
      if ltb now st.open_until
      then (st, err st.open_until)
      else (record st { state = half_open; successes = 0; in_flight_probe = true }, ok tt)
  | half_open ↦
      if st.in_flight_probe
      then (st, err (now + o.cooldown))
      else (record st { in_flight_probe = true }, ok tt)
  | closed ↦ (st, ok tt)
]

unfoldable pub record_success : Options → BreakerState → BreakerState
record_success o st = elim st.state [
  | half_open ↦
      let n = st.successes + 1 in
      if leb o.probes n
      then record st { state = closed; failures = 0; successes = 0; in_flight_probe = false }
      else record st { failures = 0; successes = n; in_flight_probe = false }
  | open_circuit ↦ record st { state = closed; failures = 0; in_flight_probe = false }
  | closed ↦ record st { state = closed; failures = 0; in_flight_probe = false }
]

abbrev is_half_open : State → Bool
is_half_open half_open = true
is_half_open closed = false
is_half_open open_circuit = false

unfoldable pub record_failure : Options → BreakerState → ℕ → BreakerState
record_failure o st now =
    let n = st.failures + 1 in
    if is_half_open st.state || leb o.threshold n
    then record {
      state = open_circuit;
      failures = n;
      successes = 0;
      open_until = now + o.cooldown;
      in_flight_probe = false;
    }
    else record st { failures = n; successes = 0; in_flight_probe = false }

unfoldable pub host_record : Options → BreakerState → Bool → ℕ → BreakerState
unfolding record_success record_failure
host_record o st true now = record_success o st
host_record o st false now = record_failure o st now

pub record Breaker : Type 0 where
  pub options : Options
  pub hosts : Dict BreakerState

unfoldable pub new_breaker : Options → Breaker
unfolding with_defaults
new_breaker o = record { options = with_defaults o; hosts = [] }

unfoldable pub entry_of : Option BreakerState → BreakerState
entry_of none = new_state
entry_of (some st) = st

pub record CircuitOpen : Type 0 where
  pub host : Text
  pub until : ℕ

abbrev named : Text → Result ℕ (Unit {0}) → Result CircuitOpen Text
named key (ok _) = ok key
named key (err until) = err (record { host = key; until = until })

unfoldable pub allow : Breaker → Text → ℕ → Breaker × Result CircuitOpen Text
unfolding host_allow entry_of
allow b host now =
    let key = host_key host in
    let (st, r) = host_allow b.options (entry_of (lookup key b.hosts)) now in
    (record b { hosts = insert key st b.hosts }, named key r)

unfoldable pub record_outcome : Breaker → Text → Bool → ℕ → Breaker
unfolding host_record
record_outcome b key success now = elim (lookup key b.hosts) [
  | none ↦ b
  | some st ↦ record b { hosts = insert key (host_record b.options st success now) b.hosts }
]

-- Past the cooldown an open circuit is reported as half-open.
unfoldable pub reported : BreakerState → ℕ → State
reported st now = elim st.state [
  | open_circuit ↦ if not (ltb now st.open_until) then half_open else open_circuit
  | half_open ↦ half_open
  | closed ↦ closed
]

unfoldable pub state_of : Breaker → Text → ℕ → State
unfolding reported
state_of b host now = elim (lookup (host_key host) b.hosts) [
  | none ↦ closed
  | some st ↦ reported st now
]

abbrev refuses : BreakerState → ℕ → Bool
refuses st now = elim st.state [
  | open_circuit ↦ ltb now st.open_until
  | half_open ↦ false
  | closed ↦ false
]

unfoldable pub open_hosts : Dict BreakerState → ℕ → List Text
open_hosts [] now = []
open_hosts ((host, st) ∷ hosts) now =
    let rest = open_hosts hosts now in if refuses st now then host ∷ rest else rest
