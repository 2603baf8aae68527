-- ===== src/RateLimit/Guard.antt =====
-- internal/ratelimit/guard.go: the whole policy around one upstream call, for a guard that has both a
-- limiter and a breaker. The call itself is a parameter: what it reports, and when it ends.
pub mod Path
use whois_mcp.Prelude.{
  ℕ, Bool, true, false, not, ◌&&◌, ◌||◌, Option, none, some, List, Text, Result, ok, err, leb, ◌==◌,
}
use whois_mcp.RateLimit.Limiter.{Buckets, Context, AcquireError, Sources, Limiter, acquire, observe}
use whois_mcp.RateLimit.Breaker.{
  State, Breaker, CircuitOpen, allow, record_outcome, state_of, open_hosts,
}

pub record Outcome : Type 0 where
  pub status : ℕ
  pub retry_after : Text
  pub failed : Bool

unfoldable pub healthy : Outcome → Bool
healthy out = not ((out.status == 0 && out.failed) || out.status == 429 || leb 500 out.status)

-- How `Do` ends: refused by the breaker or by the limiter, or with the outcome of the call.
pub data Ending : Type 0 where
  circuit_open : CircuitOpen → Ending
  not_admitted : AcquireError → Ending
  called : Outcome → Ending

module _ (ops : Buckets) where
  pub record Guard : Type 0 where
    pub limiter : Limiter ops
    pub breaker : Breaker

  -- The upstream call: its outcome and the time at which it returns.
  unfoldable pub call_upstream :
      Sources → (ℕ → Outcome × ℕ) → Guard → Text → Text → ℕ → Guard × Ending
  unfolding healthy
  call_upstream env fn g host key now =
      let (out, done) = fn now in
      (
        record {
          limiter = observe ops env g.limiter host out.status out.retry_after done;
          breaker = record_outcome g.breaker key (healthy out) done;
        },
        called out,
      )

  -- `key` is what the releaser records under.
  unfoldable pub admit :
      Sources → (ℕ → Outcome × ℕ) → Guard → Text → Text → Context → ℕ → ℕ → Guard × Ending
  unfolding call_upstream
  admit env fn g host key ctx now start =
      let (l, r) = acquire ops g.limiter host ctx now in
      elim r [
        | err e ↦ (
          record { limiter = l; breaker = record_outcome g.breaker key true now },
          not_admitted e,
        )
        | ok _ ↦ call_upstream env fn (record g { limiter = l }) host key start
      ]

  -- `start` is when the wait for a token is over.
  unfoldable pub guard_do :
      Sources → (ℕ → Outcome × ℕ) → Guard → Text → Context → ℕ → ℕ → Guard × Ending
  unfolding admit
  guard_do env fn g host ctx now start =
      let (b, r) = allow g.breaker host now in
      elim r [
        | err refusal ↦ (record g { breaker = b }, circuit_open refusal)
        | ok key ↦ admit env fn (record g { breaker = b }) host key ctx now start
      ]
