-- ===== src/RateLimit/Limiter.antt =====
-- internal/ratelimit/ratelimit.go: the pauses, failure counts and token buckets for each host. The
-- token bucket is golang.org/x/time/rate, which is a parameter (`Buckets`), and the wait is that of
-- the caller's context.
pub mod Pauses
pub mod Asked
use whois_mcp.Prelude.{
  ℕ, ◌+◌, ◌*◌, Bool, true, false, not, ◌&&◌, ◌||◌, Option, none, some, List, [], ◌∷◌, Text, Dict,
  lookup, insert, delete, Result, ok, err, ltb, leb, ◌==◌, if◌then◌else◌,
}
use whois_mcp.RateLimit.HostKey.{host_key}
use whois_mcp.RateLimit.RetryAfter.{second, backoff, parse_retry_after}

-- Five seconds.
abbrev pub max_wait : ℕ
max_wait = 5 * second

-- A reservation is refused outright, or says how long to wait.
pub record Buckets : Type 1 where
  pub Bucket : Type 0
  pub new_bucket : Bucket
  pub reserve : Bucket → ℕ → Bucket × Option ℕ
  pub cancel : Bucket → ℕ → Bucket

-- The caller's context: its deadline, and whether a wait that starts now runs its full length.
pub record Context : Type 0 where
  pub deadline : Option ℕ
  pub waits : ℕ → ℕ → Bool

pub data AcquireError : Type 0 where
  throttled : Text → ℕ → AcquireError
  cannot_admit would_exceed_deadline cancelled : AcquireError

-- The environment: the date parser and the random draw of the back-off.
pub record Sources : Type 0 where
  pub parse_time : Text → Option ℕ
  pub draw : ℕ → ℕ

abbrev pub past_deadline : Option ℕ → ℕ → Bool
past_deadline none t = false
past_deadline (some dl) t = ltb dl t

abbrev pub count_of : Option ℕ → ℕ
count_of none = 0
count_of (some n) = n

-- Statuses that count as a failure: 429, 5xx and no status at all.
unfoldable pub is_failure : ℕ → Bool
is_failure status = status == 429 || leb 500 status || status == 0

abbrev pub active : Option ℕ → ℕ → Option ℕ
active none now = none
active (some until) now = if ltb now until then some until else none

module _ (ops : Buckets) where
  open ops use {Bucket, new_bucket, reserve, cancel}

  pub record Limiter : Type 0 where
    pub buckets : Dict Bucket
    pub pauses : Dict ℕ
    pub failures : Dict ℕ

  unfoldable pub new_limiter : Limiter
  new_limiter = record { buckets = []; pauses = []; failures = [] }

  abbrev pub bucket_of : Option Bucket → Bucket
  bucket_of none = new_bucket
  bucket_of (some b) = b

  abbrev pub put_bucket : Limiter → Text → Bucket → Limiter
  put_bucket l key b = record l { buckets = insert key b l.buckets }

  -- `Acquire` once a reservation is made, on the bucket that holds it.
  unfoldable pub await_token :
      Limiter → Text → Context → ℕ → Bucket → Option ℕ → Limiter × Result AcquireError (Unit {0})
  await_token l key ctx now b none = (put_bucket l key b, err cannot_admit)
  await_token l key ctx now b (some delay) =
      if delay == 0
      then (put_bucket l key b, ok tt)
      else if ltb max_wait delay
      then (put_bucket l key (cancel b now), err would_exceed_deadline)
      else if past_deadline ctx.deadline (now + delay)
      then (put_bucket l key (cancel b now), err would_exceed_deadline)
      else if ctx.waits now delay
      then (put_bucket l key b, ok tt)
      else (put_bucket l key (cancel b now), err cancelled)

  unfoldable pub take_token :
      Limiter → Text → Context → ℕ → Limiter × Result AcquireError (Unit {0})
  unfolding await_token
  take_token l key ctx now =
      let (b, r) = reserve (bucket_of (lookup key l.buckets)) now in await_token l key ctx now b r

  unfoldable pub acquire_key :
      Limiter → Text → Context → ℕ → Limiter × Result AcquireError (Unit {0})
  unfolding take_token
  acquire_key l key ctx now = elim (lookup key l.pauses) [
    | none ↦ take_token l key ctx now
    | some until ↦
        if ltb now until
        then (l, err (throttled key until))
        else take_token (record l { pauses = delete key l.pauses }) key ctx now
  ]

  unfoldable pub acquire : Limiter → Text → Context → ℕ → Limiter × Result AcquireError (Unit {0})
  unfolding acquire_key
  acquire l host ctx now = acquire_key l (host_key host) ctx now

  unfoldable pub observe_key : Sources → Limiter → Text → ℕ → Text → ℕ → Limiter
  unfolding is_failure
  observe_key env l key status retry_after now =
      let n = count_of (lookup key l.failures) + 1 in
      if not (is_failure status)
      then record l { failures = insert key 0 l.failures; pauses = delete key l.pauses }
      else if status == 0
      then record l { failures = insert key n l.failures }
      else elim (parse_retry_after env.parse_time retry_after now) [
        | some d ↦ record l {
          failures = insert key n l.failures;
          pauses = insert key (now + d) l.pauses;
        }
        | none ↦ record l {
          failures = insert key n l.failures;
          pauses = insert key (now + backoff env.draw n) l.pauses;
        }
      ]

  unfoldable pub observe : Sources → Limiter → Text → ℕ → Text → ℕ → Limiter
  unfolding observe_key
  observe env l host status retry_after now =
      observe_key env l (host_key host) status retry_after now

  unfoldable pub failures_of : Limiter → Text → ℕ
  failures_of l host = count_of (lookup (host_key host) l.failures)

  unfoldable pub paused_until : Limiter → Text → ℕ → Option ℕ
  paused_until l host now = active (lookup (host_key host) l.pauses) now
