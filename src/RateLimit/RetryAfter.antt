-- ===== src/RateLimit/RetryAfter.antt =====
-- internal/ratelimit/ratelimit.go: Retry-After values and the back-off schedule. `http.ParseTime` and
-- the random draw are parameters; a duration is an int64, so the product by a second is written with
-- its wrap-around.
use native.Mathlib.Nat.{one-le-pow, pow-le-pow_right, mod-eq_of_lt}
use whois_mcp.Prelude.{
  ℕ, ◌+◌, ◌-◌, ◌*◌, ◌%◌, ◌^◌, ◌≤◌, ◌<◌, ◌≡◌, ◌∙◌, ap, refl, Bool, true, false, ◌&&◌, Option, none,
  some, [], ◌∷◌, Text, is_empty, digits_from, trim_space, capped_shift, capped_shift-min, ltb, leb,
  ◌==◌, if◌then◌else◌, min, le→ltb_false, arith,
}

abbrev pub second : ℕ
second = 1_000_000_000

abbrev pub backoff_base : ℕ
backoff_base = 500_000_000

abbrev pub backoff_max : ℕ
backoff_max = 60 * second

-- Fifteen minutes.
abbrev pub max_pause : ℕ
max_pause = 15 * 60 * second

unfoldable pub backoff_ceiling : ℕ → ℕ
backoff_ceiling failures =
    let n = if ltb failures 1 then 1 else failures in
    capped_shift backoff_base (min (n - 1) 20) backoff_max

-- `draw` is `rand.Int64N`.
unfoldable pub backoff : (ℕ → ℕ) → ℕ → ℕ
backoff draw failures = draw (backoff_ceiling failures) + 1

-- A duration as an int64, two's complement.
unfoldable pub cap_pause : ℕ → ℕ
cap_pause d = if leb (2 ^ 63) d then 0 else if ltb max_pause d then max_pause else d

-- `strconv.Atoi`: whether a minus sign stands in front, and the magnitude.
abbrev in_range : Bool → Option ℕ → Option (Bool × ℕ)
in_range minus none = none
in_range minus (some n) =
    if leb n (if minus then 2 ^ 63 else 2 ^ 63 - 1) then some (minus, n) else none

unfoldable pub atoi : Text → Option (Bool × ℕ)
unfolding digits_from
atoi [] = none
atoi (c ∷ s) =
    if c == b'-'
    then in_range true (digits_from false 0 s)
    else if c == b'+'
    then in_range false (digits_from false 0 s)
    else in_range false (digits_from false 0 (c ∷ s))

-- The pause for a number of seconds; `none` is no instruction.
unfoldable pub seconds_pause : Bool × ℕ → Option ℕ
seconds_pause (minus, n) = if minus && ltb 0 n then none else some (cap_pause (n * second % 2 ^ 64))

-- The pause for a date.
unfoldable pub date_pause : Option ℕ → ℕ → Option ℕ
unfolding cap_pause
date_pause none now = none
date_pause (some t) now = some (if leb t now then 0 else cap_pause (t - now))

unfoldable pub parse_retry_after : (Text → Option ℕ) → Text → ℕ → Option ℕ
unfolding seconds_pause date_pause
parse_retry_after parse_time v now =
    let s = trim_space v in
    if is_empty s
    then none
    else elim (atoi s) [ some secs ↦ seconds_pause secs | none ↦ date_pause (parse_time s) now ]

pub backoff_ceiling-min :
    (failures : ℕ)
    → 1 ≤ failures
    → backoff_ceiling failures ≡ min (backoff_base * 2 ^ min (failures - 1) 20) backoff_max
unfolding backoff_ceiling
backoff_ceiling-min failures some_failure =
    let low = one-le-pow (min (failures - 1) 20) 2 (omega arith) in
    let high =
      pow-le-pow_right {n = 2} (omega arith) {i = min (failures - 1) 20} {j = 20} (omega arith) in
    rw (le→ltb_false failures 1 some_failure) (
      capped_shift-min backoff_base (min (failures - 1) 20) backoff_max (omega arith) (omega arith))

-- The back-off is positive and at most half a second doubled for each failure but the first, up to a
-- minute; no shift overflows.
pub backoff_bounds :
    (draw : ℕ → ℕ) (failures : ℕ)
    → ((n : ℕ) → 0 < n → draw n < n)
    → 1 ≤ failures
    → (1 ≤ backoff draw failures)
      × (backoff draw failures ≤ min (backoff_base * 2 ^ min (failures - 1) 20) backoff_max)
unfolding backoff
backoff_bounds draw failures uniform some_failure =
    let low = one-le-pow (min (failures - 1) 20) 2 (omega arith) in
    let top = backoff_ceiling-min failures some_failure in
    let drawn = uniform (backoff_ceiling failures) (rw top (omega arith)) in
    (omega arith, omega arith)

pub cap_pause-min : (d : ℕ) → d < 2 ^ 63 → cap_pause d ≡ min d max_pause
unfolding cap_pause
cap_pause-min d fits = ground arith

cap_pause_negative : (d : ℕ) → 2 ^ 63 ≤ d → cap_pause d ≡ 0
unfolding cap_pause
cap_pause_negative d big = ground arith

atoi-nonempty : (s : Text) {r : Bool × ℕ} → atoi s ≡ some r → is_empty s ≡ false
unfolding atoi
atoi-nonempty [] h = cc
atoi-nonempty (c ∷ s) h = refl

parse_of_seconds :
    (parse_time : Text → Option ℕ) (v : Text) (now n : ℕ)
    → atoi (trim_space v) ≡ some (false, n)
    → parse_retry_after parse_time v now ≡ some (cap_pause (n * second % 2 ^ 64))
unfolding parse_retry_after
parse_of_seconds parse_time v now n h = ground (arith, atoi-nonempty (trim_space v) h)

-- A header of delta-seconds is honoured up to fifteen minutes, as long as the duration fits an int64
-- in nanoseconds.
pub parse_retry_after_seconds :
    (parse_time : Text → Option ℕ) (v : Text) (now n : ℕ)
    → atoi (trim_space v) ≡ some (false, n)
    → n * second < 2 ^ 63
    → parse_retry_after parse_time v now ≡ some (min (n * second) max_pause)
parse_retry_after_seconds parse_time v now n h fits =
    parse_of_seconds parse_time v now n h
    ∙ ap (λ (d : ℕ). some (cap_pause d)) (mod-eq_of_lt (omega arith))
    ∙ ap some (cap_pause-min (n * second) fits)

-- A longer one wraps around: where the product lies in the upper half of the 64-bit range, the
-- upstream's request is answered by no pause at all.
pub parse_retry_after_wraps :
    (parse_time : Text → Option ℕ) (v : Text) (now n : ℕ)
    → atoi (trim_space v) ≡ some (false, n)
    → 2 ^ 63 ≤ n * second
    → n * second < 2 ^ 64
    → parse_retry_after parse_time v now ≡ some 0
parse_retry_after_wraps parse_time v now n h big small =
    parse_of_seconds parse_time v now n h
    ∙ ap (λ (d : ℕ). some (cap_pause d)) (mod-eq_of_lt small)
    ∙ ap some (cap_pause_negative (n * second) big)
