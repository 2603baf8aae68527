-- ===== src/RateLimit/Limiter/Pauses.antt =====
-- internal/ratelimit/ratelimit.go: a pause that an upstream's answer sets, and the calls it stops.
use whois_mcp.Prelude.{
  ℕ, ◌+◌, ◌≤◌, ◌<◌, ◌≡◌, refl, true, false, Option, none, some, Text, text_eq, lookup,
  lookup-insert, lookup-insert_self, lookup-delete, lookup-delete_self, ok, err, ltb, Option-cases,
  Bool-cases, ◌⊎◌, inl, inr, lt→ltb, ap, arith,
}
use whois_mcp.RateLimit.HostKey.{host_key}
use whois_mcp.RateLimit.RetryAfter.{backoff, parse_retry_after}
use whois_mcp.RateLimit.Limiter.{
  Buckets, Context, throttled, Sources, Limiter, acquire, acquire_key, take_token, await_token,
  observe, observe_key, is_failure, count_of, active, past_deadline, bucket_of, max_wait,
  failures_of, paused_until,
}

-- The pause that an answer calls for: what the header says, or else the back-off.
abbrev pub pause_for : Sources → Text → ℕ → ℕ → ℕ
pause_for env retry_after now failures = elim (parse_retry_after env.parse_time retry_after now) [
  | some d ↦ d
  | none ↦ backoff env.draw failures
]

module _ (ops : Buckets) (env : Sources) (l : Limiter ops) where
  pub observe_key_paused :
      (key : Text) (status : ℕ) (retry_after : Text) (now : ℕ)
      → is_failure status ≡ true
      → 0 < status
      → lookup key (observe_key ops env l key status retry_after now).pauses
        ≡ some (now + pause_for env retry_after now (count_of (lookup key l.failures) + 1))
  unfolding observe_key
  observe_key_paused key status retry_after now failed answered =
      elim (Option-cases (parse_retry_after env.parse_time retry_after now)) [
        | inl e ↦ rw e (
            ground (
              arith,
              lookup-insert_self key (now + backoff env.draw (count_of (lookup key l.failures) + 1))
                  l.pauses,
            ))
        | inr (d, e) ↦ rw e (ground (arith, lookup-insert_self key (now + d) l.pauses))
      ]

  observe_key_other :
      (key j : Text) (status : ℕ) (retry_after : Text) (now : ℕ)
      → text_eq key j ≡ false
      → let after = observe_key ops env l key status retry_after now in
        (lookup j after.failures ≡ lookup j l.failures)
        × (lookup j after.pauses ≡ lookup j l.pauses)
  unfolding observe_key
  observe_key_other key j status retry_after now differ =
      let n = count_of (lookup key l.failures) + 1 in
      let failures = lookup-insert key j n l.failures in
      elim (Option-cases (parse_retry_after env.parse_time retry_after now)) [
        | inl e ↦
            let paused = lookup-insert key j (now + backoff env.draw n) l.pauses in
            rw e (
              ground (
                arith,
                failures,
                lookup-insert key j 0 l.failures,
                lookup-delete key j l.pauses,
                paused,
              ),
              ground (
                arith,
                failures,
                lookup-insert key j 0 l.failures,
                lookup-delete key j l.pauses,
                paused,
              ),
            )
        | inr (d, e) ↦
            let paused = lookup-insert key j (now + d) l.pauses in
            rw e (
              ground (
                arith,
                failures,
                lookup-insert key j 0 l.failures,
                lookup-delete key j l.pauses,
                paused,
              ),
              ground (
                arith,
                failures,
                lookup-insert key j 0 l.failures,
                lookup-delete key j l.pauses,
                paused,
              ),
            )
      ]

pub acquire_key_paused :
    (ops : Buckets) (l : Limiter ops) (key : Text) (ctx : Context) (now until : ℕ)
    → lookup key l.pauses ≡ some until
    → now < until
    → acquire_key ops l key ctx now ≡ (l, err (throttled key until))
unfolding acquire_key
acquire_key_paused ops l key ctx now until h early =
    rw (h, acquire_key) (rw (lt→ltb now until early) refl)

-- After a 429 or a 5xx the host is called no more until the time that its answer asked for, or else
-- until the back-off ends: an acquire in between is told that time and takes no token.
pub acquire-observe :
    (ops : Buckets) (env : Sources) (l : Limiter ops) (host : Text) (status : ℕ)
    (retry_after : Text) (now : ℕ) (ctx : Context) (later : ℕ)
    → is_failure status ≡ true
    → 0 < status
    → later < now + pause_for env retry_after now (failures_of ops l host + 1)
    → let paused = observe ops env l host status retry_after now in
      acquire ops paused host ctx later ≡ (
        paused,
        err (
            throttled
              (host_key host)
              (now + pause_for env retry_after now (failures_of ops l host + 1))),
      )
unfolding acquire observe failures_of
acquire-observe ops env l host status retry_after now ctx later failed answered early =
    acquire_key_paused ops (observe_key ops env l (host_key host) status retry_after now)
      (host_key host) ctx later _
      (observe_key_paused ops env l (host_key host) status retry_after now failed answered) early

-- A healthy answer ends the pause and the count of failures.
pub observe_success :
    (ops : Buckets) (env : Sources) (l : Limiter ops) (host : Text) (status : ℕ)
    (retry_after : Text) (now later : ℕ)
    → is_failure status ≡ false
    → let calm = observe ops env l host status retry_after now in
      (failures_of ops calm host ≡ 0) × (paused_until ops calm host later ≡ none)
unfolding observe observe_key failures_of paused_until
observe_success ops env l host status retry_after now later healthy = (
  rw healthy (ground (arith, lookup-insert_self (host_key host) 0 l.failures)),
  rw healthy (ground (arith, lookup-delete_self (host_key host) l.pauses)),
)

-- A failure of the transport counts, and leaves every pause as it was.
pub observe_transport :
    (ops : Buckets) (env : Sources) (l : Limiter ops) (host : Text) (retry_after : Text) (now : ℕ)
    → let after = observe ops env l host 0 retry_after now in
      (after.pauses ≡ l.pauses) × (failures_of ops after host ≡ failures_of ops l host + 1)
unfolding observe observe_key failures_of
observe_transport ops env l host retry_after now = (
  refl,
  rw
      (lookup-insert_self (host_key host) (count_of (lookup (host_key host) l.failures) + 1)
        l.failures)
      refl,
)

-- What one host answers changes neither the pause nor the failures of another.
pub observe_other_host :
    (ops : Buckets) (env : Sources) (l : Limiter ops) (host other : Text) (status : ℕ)
    (retry_after : Text) (now later : ℕ)
    → text_eq (host_key host) (host_key other) ≡ false
    → let after = observe ops env l host status retry_after now in
      (failures_of ops after other ≡ failures_of ops l other)
      × (paused_until ops after other later ≡ paused_until ops l other later)
unfolding observe failures_of paused_until
observe_other_host ops env l host other status retry_after now later differ =
    let (failures, pauses) =
      observe_key_other ops env l (host_key host) (host_key other) status retry_after now differ in
    (ap count_of failures, ap (λ (o : Option ℕ). active o later) pauses)

await_token_admits :
    (ops : Buckets) (l : Limiter ops) (key : Text) (ctx : Context) (now : ℕ) (b : ops.Bucket)
    (r : Option ℕ)
    → (await_token ops l key ctx now b r).1 ≡ ok tt
    → (delay : ℕ) × (r ≡ some delay)
      × (delay ≤ max_wait)
      × ((delay ≡ 0) ⊎ (past_deadline ctx.deadline (now + delay) ≡ false))
unfolding await_token
await_token_admits ops l key ctx now b none h = absurd (ground arith)
await_token_admits ops l key ctx now b (some delay) h = (delay, refl, ground arith, ground arith)

-- A call is let through only while its host is not paused, on a reservation of the host's bucket, and
-- after a wait of at most five seconds that ends by the caller's deadline.
pub acquire_admits :
    (ops : Buckets) (l : Limiter ops) (host : Text) (ctx : Context) (now : ℕ)
    → (acquire ops l host ctx now).1 ≡ ok tt
    → (paused_until ops l host now ≡ none)
      × (delay : ℕ) × ((ops.reserve (bucket_of ops (lookup (host_key host) l.buckets)) now).1
          ≡ some delay)
      × (delay ≤ max_wait)
      × ((delay ≡ 0) ⊎ (past_deadline ctx.deadline (now + delay) ≡ false))
unfolding acquire acquire_key take_token paused_until
acquire_admits ops l host ctx now h = elim (Option-cases (lookup (host_key host) l.pauses)) [
  | inl e ↦
      let (delay, granted, bound, in_time) =
        await_token_admits ops l (host_key host) ctx now _ _ (rw (e, acquire_key) at h) in
      (rw e refl, delay, granted, bound, in_time)
  | inr (until, e) ↦ elim (Bool-cases (ltb now until)) [
    | inl early ↦ absurd (ground arith)
    | inr late ↦
        let (delay, granted, bound, in_time) =
          await_token_admits ops _ (host_key host) ctx now _ _ (rw (e, acquire_key, late) at h) in
        (rw (e, late) refl, delay, granted, bound, in_time)
  ]
]
