-- ===== src/Auth/Enrollment/Concurrent.antt =====
-- internal/auth/enrollment.go: requests that overlap. The secret is hashed between the two critical
-- sections, so every request of a burst can pass the first before any reaches the second.
use whois_mcp.Prelude.{ℕ, List, [], ◌∷◌, Text, Result, ok, err, if◌then◌else◌}
use whois_mcp.Auth.Enrollment.{
  Hashes, Enrollment, EnrollError, wrong_secret, check_source, record_outcome, matches_secret,
}

-- The first sections of a burst of requests, in turn.
check_burst : Enrollment → Text → ℕ → List Text → Enrollment × List (Result EnrollError (Unit {0}))
check_burst e key now [] = (e, [])
check_burst e key now (_ ∷ gs) =
    let (e', r) = check_source e key now in
    let (e'', rs) = check_burst e' key now gs in (e'', r ∷ rs)

-- The second sections, of the requests that passed the first.
record_burst :
    Hashes
    → Enrollment
    → Text
    → ℕ
    → List Text
    → List (Result EnrollError (Unit {0}))
    → List (Result EnrollError (Unit {0}))
record_burst h e key now (g ∷ gs) (ok _ ∷ rs) =
    let (e', r) = record_outcome e key (matches_secret h e.salt e.hash g) now in
    r ∷ record_burst h e' key now gs rs
record_burst h e key now (g ∷ gs) (err x ∷ rs) = err x ∷ record_burst h e key now gs rs
record_burst h e key now _ _ = []

-- Overlapping calls of `Verify` from one source, all first sections before all second ones.
pub verify_burst : Hashes → Enrollment → Text → List Text → ℕ → List (Result EnrollError (Unit {0}))
unfolding check_burst record_burst
verify_burst h e source gs now =
    let key = h.hash_source source in
    let (e', rs) = check_burst e key now gs in record_burst h e' key now gs rs

-- The answer of a request that is not locked out.
pub verdict : Hashes → Text → Text → Text → Result EnrollError (Unit {0})
verdict h salt hash g = if matches_secret h salt hash g then ok tt else err wrong_secret
