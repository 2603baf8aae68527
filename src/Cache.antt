-- ===== src/Cache.antt =====
-- internal/cache/cache.go: the in-process cache with lazy eviction. `read_entry` and `evict` are the
-- two critical sections of `Get`; times and lifetimes are nanoseconds, a lifetime that is not
-- positive is 0 here.
pub mod Lookup
mod Tests
use mathlib.Core.List.{map}
use whois_mcp.Prelude.{
  ℕ, ◌+◌, Bool, true, false, Option, none, some, List, [], ◌∷◌, Text, Dict, lookup, insert, delete,
  delete_if, ltb, ◌==◌, if◌then◌else◌, length,
}

pub record Entry {ℓ} (V : Type ℓ) : Type ℓ where
  pub val : V
  pub expires_at : ℕ

abbrev pub Memory {ℓ} : Type ℓ → Type ℓ
Memory V = Dict (Entry V)

abbrev pub is_expired {ℓ} : {V : Type ℓ} → ℕ → Entry V → Bool
is_expired now e = ltb e.expires_at now

module _ {ℓ} {V : Type ℓ} where
  -- The section under the write lock: the entry is checked again.
  unfoldable pub evict : Memory V → Text → ℕ → Memory V
  evict m key now = elim (lookup key m) [
    | none ↦ m
    | some cur ↦ if is_expired now cur then delete key m else m
  ]

  -- `Get` with other calls between its sections: `m` is the cache when the entry is read, at `now`,
  -- and `m'` the cache when the write lock is taken, at `later`.
  unfoldable pub get_across : Memory V → Memory V → Text → ℕ → ℕ → Memory V × Option V
  unfolding evict
  get_across m m' key now later = elim (lookup key m) [
    | none ↦ (m', none)
    | some e ↦ if is_expired now e then (evict m' key later, none) else (m', some e.val)
  ]

  unfoldable pub get : Memory V → Text → ℕ → Memory V × Option V
  unfolding get_across
  get m key now = get_across m m key now now

  unfoldable pub set : Memory V → Text → V → ℕ → ℕ → Memory V
  set m key val ttl now =
      if ttl == 0 then m else insert key (record { val = val; expires_at = now + ttl }) m

  unfoldable pub remove : Memory V → Text → Memory V
  remove m key = delete key m

  unfoldable pub sweep : Memory V → ℕ → Memory V
  sweep m now = delete_if (is_expired now) m

  unfoldable pub len : Memory V → ℕ
  len m = length m
