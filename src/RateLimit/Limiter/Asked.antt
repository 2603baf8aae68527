-- ===== src/RateLimit/Limiter/Asked.antt =====
-- internal/ratelimit/ratelimit.go: the pause that an answer asks for, without the code that finds it.
use whois_mcp.Prelude.{
  ℕ, ◌+◌, ◌-◌, ◌*◌, ◌^◌, ◌≤◌, ◌<◌, ◌≡◌, ◌≢◌, refl, ◌∙◌, ap, Option, true, lt→ltb, false, none, some,
  [], Text, is_empty, is_empty→eq, trim_space, min, Bool-cases, inl, inr, leb, arith,
}
use whois_mcp.RateLimit.RetryAfter.{
  second, max_pause, backoff_base, backoff_max, backoff, backoff_ceiling-min, atoi, seconds_pause,
  date_pause, cap_pause-min, parse_retry_after, parse_retry_after_seconds,
}
use whois_mcp.RateLimit.Limiter.{Sources}
use whois_mcp.RateLimit.Limiter.Pauses.{pause_for}

-- Half a second, doubled for each failure but the first, up to a minute.
abbrev pub ceiling : ℕ → ℕ
ceiling failures = min (backoff_base * 2 ^ min (failures - 1) 20) backoff_max

-- What a Retry-After value asks for, read at `now`: a number of seconds, or a date, each up to fifteen
-- minutes, and else a random time below the ceiling for the number of failures in a row. A duration
-- that does not fit an int64 of nanoseconds asks for nothing here.
pub data Asks (env : Sources) (v : Text) (now failures : ℕ) : ℕ → Type 0 where
  asks_seconds :
      (n : ℕ)
      → atoi (trim_space v) ≡ some (false, n)
      → n * second < 2 ^ 63
      → Asks env v now failures (min (n * second) max_pause)
  asks_date :
      (t : ℕ)
      → trim_space v ≢ []
      → atoi (trim_space v) ≡ none
      → env.parse_time (trim_space v) ≡ some t
      → t - now < 2 ^ 63
      → Asks env v now failures (min (t - now) max_pause)
  asks_nothing : trim_space v ≡ [] → Asks env v now failures (env.draw (ceiling failures) + 1)
  asks_unreadable :
      atoi (trim_space v) ≡ none
      → env.parse_time (trim_space v) ≡ none
      → Asks env v now failures (env.draw (ceiling failures) + 1)
  asks_negative :
      (n : ℕ)
      → atoi (trim_space v) ≡ some (true, n)
      → 0 < n
      → Asks env v now failures (env.draw (ceiling failures) + 1)

backoff_drawn :
    (draw : ℕ → ℕ) (failures : ℕ)
    → 1 ≤ failures
    → backoff draw failures ≡ draw (ceiling failures) + 1
unfolding backoff
backoff_drawn draw failures some_failure =
    ap (λ (n : ℕ). draw n + 1) (backoff_ceiling-min failures some_failure)

date_pause-min :
    (t now : ℕ) → t - now < 2 ^ 63 → date_pause (some t) now ≡ some (min (t - now) max_pause)
unfolding date_pause
date_pause-min t now fits = elim (Bool-cases (leb t now)) [
  | inl past ↦ rw past (ap some (ground arith))
  | inr ahead ↦ rw ahead (ap some (cap_pause-min (t - now) fits))
]

module _ (env : Sources) (v : Text) (now : ℕ) where
  parse_date :
      trim_space v ≢ []
      → atoi (trim_space v) ≡ none
      → parse_retry_after env.parse_time v now ≡ date_pause (env.parse_time (trim_space v)) now
  unfolding parse_retry_after
  parse_date present no_number = elim (Bool-cases (is_empty (trim_space v))) [
    | inl e ↦ absurd (present (is_empty→eq (trim_space v) e))
    | inr e ↦ rw (parse_retry_after, e, no_number) refl
  ]

  parse_nothing : trim_space v ≡ [] → parse_retry_after env.parse_time v now ≡ none
  unfolding parse_retry_after
  parse_nothing absent = rw (parse_retry_after, absent) refl

  parse_unreadable :
      atoi (trim_space v) ≡ none
      → env.parse_time (trim_space v) ≡ none
      → parse_retry_after env.parse_time v now ≡ none
  unfolding date_pause
  parse_unreadable no_number no_date = elim (Bool-cases (is_empty (trim_space v))) [
    | inl e ↦ parse_nothing (is_empty→eq (trim_space v) e)
    | inr e ↦
        parse_date (λ q. ground arith) no_number ∙ ap (λ (o : Option ℕ). date_pause o now) no_date
  ]

  parse_negative :
      (n : ℕ)
      → atoi (trim_space v) ≡ some (true, n)
      → 0 < n
      → parse_retry_after env.parse_time v now ≡ none
  unfolding parse_retry_after seconds_pause
  parse_negative n reads some_second = elim (Bool-cases (is_empty (trim_space v))) [
    | inl e ↦ rw (parse_retry_after, e) refl
    | inr e ↦ rw (parse_retry_after, e, reads, lt→ltb 0 n some_second) refl
  ]

  pub pause_for-Asks :
      (failures pause : ℕ)
      → 1 ≤ failures
      → Asks env v now failures pause
      → pause_for env v now failures ≡ pause
  pause_for-Asks failures _ some_failure (asks_seconds n reads fits) =
      rw (pause_for, parse_retry_after_seconds env.parse_time v now n reads fits) refl
  pause_for-Asks failures _ some_failure (asks_date t present no_number dated fits) =
      rw
        (
          pause_for,
          parse_date present no_number
              ∙ ap (λ (o : Option ℕ). date_pause o now) dated
              ∙ date_pause-min t now fits,
        )
        refl
  pause_for-Asks failures _ some_failure (asks_nothing absent) =
      rw (pause_for, parse_nothing absent) (backoff_drawn env.draw failures some_failure)
  pause_for-Asks failures _ some_failure (asks_unreadable no_number no_date) =
      rw (pause_for, parse_unreadable no_number no_date)
        (backoff_drawn env.draw failures some_failure)
  pause_for-Asks failures _ some_failure (asks_negative n reads some_second) =
      rw (pause_for, parse_negative n reads some_second)
        (backoff_drawn env.draw failures some_failure)
