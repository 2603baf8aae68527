-- ===== src/Auth/Enrollment/Lockout.antt =====
-- internal/auth/enrollment.go: the lockout as one client meets it, attempt after attempt.
use native.Mathlib.Nat.{one-le-pow, pow-le-pow_right}
use whois_mcp.Prelude.{
  capped_shift-min, All, Bool, Bool-cases, true, List, [], ◌∷◌, Result, Result-cases, inl, inr,
  lt→ltb, lookup-insert, text_eq, text_eq_iff, ℕ, ◌+◌, ◌-◌, ◌≤◌, ◌<◌, ◌≡◌, ◌∙◌, refl, ap, false,
  some, Text, lookup, insert, lookup-insert_self, arith, err, min, ◌*◌, ◌^◌,
}
use whois_mcp.Auth.Enrollment.{
  Hashes, Enrollment, EnrollError, AttemptState, wrong_secret, locked_out, verify, matches_secret,
  check_source, record_outcome, failed, forget_stale, state_of, lockout_for, lockout_base,
  lockout_max, lockout_threshold, attempt_window,
}

-- No shift overflows: the lockout doubles with each failure from two seconds on, up to fifteen
-- minutes.
pub lockout_for-min :
    (n : ℕ) → lockout_for n ≡ min (lockout_base * 2 ^ min (n - lockout_threshold) 20) lockout_max
unfolding lockout_for
lockout_for-min n =
    let low = one-le-pow (min (n - 5) 20) 2 (omega arith) in
    let high = pow-le-pow_right {n = 2} (omega arith) {i = min (n - 5) 20} {j = 20} (omega arith) in
    capped_shift-min lockout_base (min (n - 5) 20) lockout_max (omega arith) (omega arith)

lockout_for_bounds : (n : ℕ) → (lockout_base ≤ lockout_for n) × (lockout_for n ≤ lockout_max)
lockout_for_bounds n =
    let low = one-le-pow (min (n - 5) 20) 2 (omega arith) in
    (omega (arith, lockout_for-min n), omega (arith, lockout_for-min n))

module _ (h : Hashes) (e : Enrollment) (source : Text) where
  abbrev pub attempts : AttemptState
  attempts = state_of (lookup (h.hash_source source) e.sources)

  -- No lock holds at `now`, and the failures are recent.
  abbrev pub MayTry : ℕ → Type 0
  MayTry now = (attempts.locked_thru ≤ now) × (now ≤ attempts.last_fail + attempt_window)

pub forget_stale_recent :
    (st : AttemptState) (now : ℕ) → now ≤ st.last_fail + attempt_window → forget_stale st now ≡ st
unfolding forget_stale
forget_stale_recent st now recent = ground arith

pub state_of-some : (st : AttemptState) → state_of (some st) ≡ st
unfolding state_of
state_of-some st = refl

verify_wrong :
    (h : Hashes) (e : Enrollment) (source wrong : Text) (now : ℕ)
    → MayTry h e source now
    → matches_secret h e.salt e.hash wrong ≡ false
    → verify h e source wrong now ≡ (
      record e {
        sources =
            insert
              (h.hash_source source)
              (failed (attempts h e source) now)
              (insert (h.hash_source source) (attempts h e source) e.sources);
      },
      err wrong_secret,
    )
unfolding verify
verify_wrong h e source wrong now may bad = ground (
  arith,
  forget_stale_recent (attempts h e source) now may.1,
  lookup-insert_self (h.hash_source source) (attempts h e source) e.sources,
  state_of-some (attempts h e source),
)

verify_locked :
    (h : Hashes) (e : Enrollment) (source presented : Text) (now : ℕ)
    → now < (attempts h e source).locked_thru
    → now ≤ (attempts h e source).last_fail + attempt_window
    → (verify h e source presented now).1
      ≡ err (locked_out ((attempts h e source).locked_thru - now))
unfolding verify
verify_locked h e source presented now locked recent =
    ground (arith, forget_stale_recent (attempts h e source) now recent)

failed_locks :
    (st : AttemptState) (now : ℕ)
    → lockout_threshold ≤ st.failures + 1
    → ((failed st now).locked_thru ≡ now + lockout_for (st.failures + 1))
      × ((failed st now).last_fail ≡ now)
unfolding failed
failed_locks st now many = ground arith

-- The attempts of any clients, each with the time that it reads.
pub record Attempt : Type 0 where
  pub source : Text
  pub presented : Text
  pub at : ℕ

unfoldable pub run_attempts : Hashes → Enrollment → List Attempt → Enrollment
run_attempts h e [] = e
run_attempts h e (a ∷ tries) = run_attempts h (verify h e a.source a.presented a.at).0 tries

check_source-other :
    (e : Enrollment) (key k : Text) (now : ℕ)
    → text_eq key k ≡ false
    → lookup k (check_source e key now).0.sources ≡ lookup k e.sources
unfolding check_source
check_source-other e key k now differ =
    ground
      (arith, lookup-insert key k (forget_stale (state_of (lookup key e.sources)) now) e.sources)

record_outcome-other :
    (e : Enrollment) (key k : Text) (good : Bool) (now : ℕ)
    → text_eq key k ≡ false
    → lookup k (record_outcome e key good now).0.sources ≡ lookup k e.sources
unfolding record_outcome
record_outcome-other e key k true now differ = simp (lookup-insert, differ)
record_outcome-other e key k false now differ = simp (lookup-insert, differ)

module _ (h : Hashes) (source : Text) (st : AttemptState) where
  verify_other :
      (e : Enrollment) (other presented : Text) (at : ℕ)
      → text_eq (h.hash_source other) (h.hash_source source) ≡ false
      → attempts h e source ≡ st
      → attempts h (verify h e other presented at).0 source ≡ st
  unfolding verify
  verify_other e other presented at differ same =
      let key = h.hash_source other in
      let checked = check_source e key at in
      let good = matches_secret h e.salt e.hash presented in
      let first = check_source-other e key (h.hash_source source) at differ in
      elim (Result-cases checked.1) [
        | inr (x, q) ↦ rw (q, verify) (ap state_of first ∙ same)
        | inl (x, q) ↦
            rw (q, verify)
              (ap state_of
                  (record_outcome-other checked.0 key (h.hash_source source) good at differ ∙ first)
                ∙ same)
      ]

  check_source_locked :
      (e : Enrollment) (key : Text) (at : ℕ)
      → at < st.locked_thru
      → at ≤ st.last_fail + attempt_window
      → state_of (lookup key e.sources) ≡ st
      → check_source e key at
        ≡ (record e { sources = insert key st e.sources }, err (locked_out (st.locked_thru - at)))
  unfolding check_source
  check_source_locked e key at locked recent same =
      rw (check_source, same, forget_stale_recent st at recent, lt→ltb at st.locked_thru locked)
        refl

  verify_same :
      (e : Enrollment) (other presented : Text) (at : ℕ)
      → h.hash_source other ≡ h.hash_source source
      → at < st.locked_thru
      → at ≤ st.last_fail + attempt_window
      → attempts h e source ≡ st
      → attempts h (verify h e other presented at).0 source ≡ st
  unfolding verify
  verify_same e other presented at own locked recent same =
      let checked =
        check_source_locked e (h.hash_source other) at locked recent
          (ap (λ (k : Text). state_of (lookup k e.sources)) own ∙ same) in
      let refused = ap (λ (x : Enrollment × Result EnrollError (Unit {0})). x.1) checked in
      rw (refused, verify)
        (ap
            (λ (x : Enrollment × Result EnrollError (Unit {0})).
              state_of (lookup (h.hash_source source) x.0.sources))
            checked
          ∙ ap (λ (k : Text). state_of (lookup (h.hash_source source) (insert k st e.sources))) own
          ∙ ap state_of (lookup-insert_self (h.hash_source source) st e.sources)
          ∙ state_of-some st)

  run_attempts_locked :
      (e : Enrollment) (tries : List Attempt)
      → All (λ a. (a.at < st.locked_thru) × (a.at ≤ st.last_fail + attempt_window)) tries
      → attempts h e source ≡ st
      → attempts h (run_attempts h e tries) source ≡ st
  unfolding run_attempts
  run_attempts_locked e [] times same = same
  run_attempts_locked e (a ∷ tries) times same =
      run_attempts_locked (verify h e a.source a.presented a.at).0 tries times.1
        (elim (Bool-cases (text_eq (h.hash_source a.source) (h.hash_source source))) [
          | inl own ↦
              verify_same e a.source a.presented a.at
                ((text_eq_iff (h.hash_source a.source) (h.hash_source source)).0 own) times.0.0
                times.0.1 same
          | inr differ ↦ verify_other e a.source a.presented a.at differ same
        ])

-- Every time before the end of the lockout is one at which the lock holds.
All-locked :
    (tries : List Attempt) (st : AttemptState) (now : ℕ)
    → lockout_threshold ≤ st.failures + 1
    → All (λ a. (now ≤ a.at) × (a.at < now + lockout_for (st.failures + 1))) tries
    → All
        (λ a.
          (a.at < (failed st now).locked_thru)
          × (a.at ≤ (failed st now).last_fail + attempt_window))
        tries
All-locked [] st now many times = tt
All-locked (a ∷ tries) st now many times =
    let (thru, last) = failed_locks st now many in
    let bounds = lockout_for_bounds (st.failures + 1) in
    (
      (rw thru times.0.1, rw last (omega (arith, bounds, times.0.1))),
      All-locked tries st now many times.1,
    )

-- A wrong secret that is the fifth failure in a row or a later one, of a source that is not locked and last
-- failed within the hour, locks the source out: until the lockout is
-- over every attempt of the source is refused with the time that is left, whatever secret it
-- presents and whatever attempts, of this source and of others, came in between, one after
-- the other.
pub verify-verify_locked :
    (h : Hashes) (e : Enrollment) (source wrong presented : Text) (now later : ℕ)
    (tries : List Attempt)
    → MayTry h e source now
    → lockout_threshold ≤ (attempts h e source).failures + 1
    → matches_secret h e.salt e.hash wrong ≡ false
    → All
        (λ a. (now ≤ a.at) × (a.at < now + lockout_for ((attempts h e source).failures + 1)))
        tries
    → now ≤ later
    → later < now + lockout_for ((attempts h e source).failures + 1)
    → ((verify h e source wrong now).1 ≡ err wrong_secret)
      × ((verify h (run_attempts h (verify h e source wrong now).0 tries) source presented later).1
          ≡ err (locked_out (now + lockout_for ((attempts h e source).failures + 1) - later)))
verify-verify_locked h e source wrong presented now later tries may many bad times order early =
    let key = h.hash_source source in
    let st = attempts h e source in
    let locks = failed st now in
    let after : Enrollment = record e { sources = insert key locks (insert key st e.sources) } in
    let stored : attempts h after source ≡ locks =
      ap state_of (lookup-insert_self key locks (insert key st e.sources)) ∙ state_of-some locks in
    let (thru, last) = failed_locks st now many in
    let bounds = lockout_for_bounds (st.failures + 1) in
    let kept =
      run_attempts_locked h source locks after tries (All-locked tries st now many times) stored in
    let refused =
      verify_locked h (run_attempts h after tries) source presented later (rw (kept, thru) early)
        (rw (kept, last) (omega (arith, bounds))) in
    rw (verify_wrong h e source wrong now may bad) (
      refl,
      refused
          ∙ ap (λ (t : ℕ). err (locked_out (t - later)))
              (ap (λ (x : AttemptState). x.locked_thru) kept ∙ thru),
    )
