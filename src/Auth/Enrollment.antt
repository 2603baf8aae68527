-- ===== src/Auth/Enrollment.antt =====
-- internal/auth/enrollment.go: the enrollment secret and its lockout. Argon2id and SHA-256 are
-- parameters; the audit log is left out. `check_source` and `record_outcome` are the two critical
-- sections of `Verify`, and `verify` is the call with nothing in between. Durations are nanoseconds
-- in an int64, so a shift is written with its wrap-around.
pub mod Lockout
pub mod Concurrent
use whois_mcp.Prelude.{
  ℕ, ◌+◌, ◌-◌, ◌*◌, ◌%◌, ◌^◌, Bool, true, false, not, ◌&&◌, ◌||◌, Option, none, some, List, [], ◌∷◌,
  Text, is_empty, text_eq, Dict, lookup, insert, Result, ok, err, ltb, leb, ◌==◌, if◌then◌else◌,
  min, capped_shift, trim_space, length,
}

abbrev second : ℕ
second = 1_000_000_000

abbrev pub lockout_threshold : ℕ
lockout_threshold = 5

abbrev pub lockout_base : ℕ
lockout_base = 2 * second

abbrev pub lockout_max : ℕ
lockout_max = 15 * 60 * second

abbrev pub attempt_window : ℕ
attempt_window = 3600 * second

-- A zero `last_fail` is the zero time: no failure yet.
pub record AttemptState : Type 0 where
  pub failures : ℕ
  pub last_fail : ℕ
  pub locked_thru : ℕ

abbrev pub no_attempts : AttemptState
no_attempts = record { failures = 0; last_fail = 0; locked_thru = 0 }

pub data EnrollError : Type 0 where
  wrong_secret : EnrollError
  locked_out : ℕ → EnrollError

-- `argon2.IDKey` with the fixed cost parameters, and `hashSource`.
pub record Hashes : Type 0 where
  pub id_key : Text → Text → Text
  pub hash_source : Text → Text

pub record Enrollment : Type 0 where
  pub salt : Text
  pub hash : Text
  pub sources : Dict AttemptState

-- `none` is the refusal of an empty secret; `salt` is drawn by the call.
unfoldable pub new_enrollment : Hashes → Text → Text → Option Enrollment
unfolding trim_space
new_enrollment h secret salt =
    let s = trim_space secret in
    if is_empty s then none else some (record { salt = salt; hash = h.id_key s salt; sources = [] })

unfoldable pub lockout_for : ℕ → ℕ
unfolding capped_shift
lockout_for failures = capped_shift lockout_base (min (failures - lockout_threshold) 20) lockout_max

unfoldable pub state_of : Option AttemptState → AttemptState
state_of none = no_attempts
state_of (some st) = st

-- Failures older than the window are forgotten.
unfoldable pub forget_stale : AttemptState → ℕ → AttemptState
forget_stale st now =
    if not (st.last_fail == 0) && ltb attempt_window (now - st.last_fail)
    then record st { failures = 0; locked_thru = 0 }
    else st

-- The first section: the entry that the source's map slot points at from here on, and the lock.
unfoldable pub check_source : Enrollment → Text → ℕ → Enrollment × Result EnrollError (Unit {0})
check_source e key now =
    let st = forget_stale (state_of (lookup key e.sources)) now in
    (
      record e { sources = insert key st e.sources },
      if ltb now st.locked_thru then err (locked_out (st.locked_thru - now)) else ok tt,
    )

unfoldable pub failed : AttemptState → ℕ → AttemptState
unfolding lockout_for
failed st now =
    let n = st.failures + 1 in
    if leb lockout_threshold n
    then record { failures = n; last_fail = now; locked_thru = now + lockout_for n }
    else record st { failures = n; last_fail = now }

unfoldable pub matches_secret : Hashes → Text → Text → Text → Bool
unfolding trim_space
matches_secret h salt hash presented = text_eq (h.id_key (trim_space presented) salt) hash

-- The second section. `now` is the time that the first one read.
unfoldable pub record_outcome :
    Enrollment → Text → Bool → ℕ → Enrollment × Result EnrollError (Unit {0})
record_outcome e key good now =
    let st = state_of (lookup key e.sources) in
    if good
    then (
      record e { sources = insert key (record st { failures = 0; locked_thru = 0 }) e.sources },
      ok tt,
    )
    else (record e { sources = insert key (failed st now) e.sources }, err wrong_secret)

unfoldable pub verify :
    Hashes → Enrollment → Text → Text → ℕ → Enrollment × Result EnrollError (Unit {0})
unfolding check_source record_outcome
verify h e source presented now =
    let key = h.hash_source source in
    let (e', checked) = check_source e key now in
    elim checked [
      | err x ↦ (e', err x)
      | ok _ ↦ record_outcome e' key (matches_secret h e.salt e.hash presented) now
    ]
