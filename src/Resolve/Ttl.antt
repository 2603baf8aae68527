-- ===== src/Resolve/Ttl.antt =====
-- internal/resolve/ttl.go: how long an answer is cached. Durations are nanoseconds, and one that is
-- not positive is 0.
use whois_mcp.Prelude.{
  ℕ, ◌*◌, ◌≤◌, ◌<◌, Bool, true, not, ◌&&◌, Bool-cases, List, [], ◌∷◌, ltb, leb, Result, ok, err,
  ◌≡◌, refl, inl, inr, arith, if◌then◌else◌,
}
use whois_mcp.Normalize.Report.{Tristate, affirmed, denied, undecided}

pub record TtlPolicy : Type 0 where
  pub registered : ℕ
  pub unregistered : ℕ
  pub unknown : ℕ
  pub raw : ℕ
  pub bootstrap : ℕ

abbrev second : ℕ
second = 1000000000

abbrev pub default_ttl_policy : TtlPolicy
default_ttl_policy = record {
  registered = 3600 * second;
  unregistered = 300 * second;
  unknown = 60 * second;
  raw = 900 * second;
  bootstrap = 86400 * second;
}

unfoldable pub ttl_for : TtlPolicy → Tristate → ℕ
ttl_for p affirmed = p.registered
ttl_for p denied = p.unregistered
ttl_for p undecided = p.unknown

unfoldable pub is_valid : TtlPolicy → Bool
is_valid p =
    ltb 0 p.registered
    && ltb 0 p.unregistered
    && ltb 0 p.unknown
    && ltb 0 p.raw
    && ltb 0 p.bootstrap

unfoldable pub is_ordered : TtlPolicy → Bool
is_ordered p = leb p.unregistered p.registered && leb p.unknown p.unregistered

pub data PolicyError : Type 0 where
  not_positive not_ordered : PolicyError

-- `WithTTLPolicy`: the policy that is in force afterwards, and the error.
unfoldable pub with_ttl_policy : TtlPolicy → TtlPolicy → TtlPolicy × Result PolicyError (Unit {0})
unfolding is_valid is_ordered
with_ttl_policy p current =
    if not (is_valid p)
    then (current, err not_positive)
    else if not (is_ordered p)
    then (current, err not_ordered)
    else (p, ok tt)

-- The policy in force after a sequence of changes.
abbrev pub configured : List TtlPolicy → TtlPolicy → TtlPolicy
configured [] current = current
configured (p ∷ ps) current = configured ps (with_ttl_policy p current).0

-- An answer is cached for some time, an uncertain one for the shortest.
abbrev Graded : TtlPolicy → Type 0
Graded p = (is_valid p ≡ true) × (is_ordered p ≡ true)

with_ttl_policy-Graded :
    (p current : TtlPolicy) → Graded current → Graded (with_ttl_policy p current).0
unfolding with_ttl_policy
with_ttl_policy-Graded p current h = elim (Bool-cases (is_valid p)) [
  | inr e ↦ rw (e, with_ttl_policy) h
  | inl e ↦ elim (Bool-cases (is_ordered p)) [
    | inr f ↦ rw (e, f, with_ttl_policy) h
    | inl f ↦ rw (e, f, with_ttl_policy) (e, f)
  ]
]

configured-Graded :
    (ps : List TtlPolicy) (current : TtlPolicy) → Graded current → Graded (configured ps current)
configured-Graded [] current h = h
configured-Graded (p ∷ ps) current h =
    configured-Graded ps (with_ttl_policy p current).0 (with_ttl_policy-Graded p current h)

Graded-ttl_for :
    (p : TtlPolicy) (t : Tristate)
    → Graded p
    → (0 < ttl_for p undecided)
      × (ttl_for p undecided ≤ ttl_for p t)
      × (ttl_for p t ≤ ttl_for p affirmed)
unfolding ttl_for is_valid is_ordered
Graded-ttl_for p affirmed h = (ground arith, ground arith, ground arith)
Graded-ttl_for p denied h = (ground arith, ground arith, ground arith)
Graded-ttl_for p undecided h = (ground arith, ground arith, ground arith)

-- Whatever policies a resolver is given, in the one in force every answer is cached for some time, an
-- uncertain answer for no longer than any other, and none for longer than a registered domain.
pub configured-ttl_for :
    (ps : List TtlPolicy) (t : Tristate)
    → let p = configured ps default_ttl_policy in
      (0 < ttl_for p undecided)
      × (ttl_for p undecided ≤ ttl_for p t)
      × (ttl_for p t ≤ ttl_for p affirmed)
unfolding is_valid is_ordered
configured-ttl_for ps t =
    Graded-ttl_for (configured ps default_ttl_policy) t
      (configured-Graded ps default_ttl_policy (refl, refl))
