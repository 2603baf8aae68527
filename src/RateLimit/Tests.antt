-- ===== src/RateLimit/Tests.antt =====
-- internal/ratelimit: the theorems at concrete inputs.
use whois_mcp.Prelude.{
  ℕ, ◌+◌, ◌-◌, ◌*◌, ◌≡◌, ◌≤◌, inr, refl, true, false, none, some, [], ◌∷◌, Text, codes, lookup,
  to_lower, trim_space, cut, cut_last, before_any, arith,
}
use whois_mcp.RateLimit.HostKey.{host_key, with_port}
use whois_mcp.RateLimit.RetryAfter.{second, parse_retry_after, atoi, parse_retry_after_wraps}
use whois_mcp.RateLimit.Limiter.{
  Buckets, Context, Sources, Limiter, acquire, is_failure, failures_of,
}
use whois_mcp.RateLimit.Limiter.Asked.{asks_seconds}
use whois_mcp.RateLimit.Breaker.{BreakerState, new_state, Options, host_allow, host_record, allow}
use whois_mcp.RateLimit.Breaker.Cycle.{admitted, host_record-admitted}
use whois_mcp.RateLimit.Guard.{Outcome, Guard, guard_do, admit, call_upstream}
use whois_mcp.RateLimit.Guard.Path.{was_called, guard_do-guard_do}

host_key_url : host_key (codes "HTTPS://Rdap.Example.:443/domain/") ≡ codes "rdap.example"
unfolding host_key to_lower trim_space cut cut_last before_any with_port
host_key_url = refl

host_key_v6 : host_key (codes "[2001:db8::1]:4343") ≡ codes "[2001:db8::1]:4343"
unfolding host_key to_lower trim_space cut cut_last before_any with_port
host_key_v6 = refl

parse_retry_after_wraps_example : parse_retry_after (λ s. none) (codes "10000000000") 0 ≡ some 0
unfolding atoi trim_space
parse_retry_after_wraps_example =
    parse_retry_after_wraps (λ s. none) (codes "10000000000") 0 10000000000 refl (omega arith)
      (omega arith)

-- A bucket that always has a token.
abbrev plenty : Buckets
plenty = record {
  Bucket = ℕ;
  new_bucket = 0;
  reserve = λ b now. (b + 1, some 0);
  cancel = λ b now. b - 1;
}

abbrev env : Sources
env = record { parse_time = λ s. none; draw = λ n. 0 }

abbrev ctx : Context
ctx = record { deadline = none; waits = λ now delay. true }

abbrev idle : Limiter plenty
idle = record { buckets = []; pauses = []; failures = [] }

abbrev verisign : Text
verisign = codes "whois.verisign-grs.com"

abbrev options : Options
options = record { threshold = 2; cooldown = 30; probes = 2 }

-- The second failure of two opens the circuit for its cooldown of thirty.
abbrev after_one : BreakerState
after_one = record new_state { failures = 1 }

host_record-admitted_example :
    (admitted options (host_record options after_one false 2) (3 ∷ 31 ∷ []) ≡ 0)
    × (admitted options (host_record options after_one false 2) (3 ∷ 31 ∷ 32 ∷ 33 ∷ []) ≤ 1)
host_record-admitted_example =
    host_record-admitted options after_one 2 (3 ∷ 31 ∷ []) (32 ∷ 33 ∷ []) (inr (omega arith))
      (omega arith, (omega arith, tt))

one_probe : admitted options (host_record options after_one false 2) (32 ∷ 33 ∷ []) ≡ 1
unfolding admitted host_allow host_record
one_probe = refl

abbrev guard : Guard plenty
guard = record { limiter = idle; breaker = record { options = options; hosts = [] } }

abbrev busy_answer : ℕ → Outcome × ℕ
busy_answer start = (record { status = 429; retry_after = codes "60"; failed = false }, start + 1)

guard_do-guard_do_example :
    was_called
      (guard_do plenty env busy_answer
        (guard_do plenty env busy_answer guard verisign ctx 5 5).0
        verisign
        ctx
        9
        9).1
    ≡ false
unfolding guard_do admit call_upstream acquire allow host_allow lookup failures_of parse_retry_after
    atoi trim_space is_failure
guard_do-guard_do_example =
    guard_do-guard_do plenty env busy_answer busy_answer guard verisign ctx 5 5 ctx 9 9
      (60 * second) refl refl (omega arith) (asks_seconds 60 refl (omega arith)) (omega arith)
