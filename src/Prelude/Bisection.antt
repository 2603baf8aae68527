-- ===== src/Prelude/Bisection.antt =====
-- Go's sort.Search.
use Prim.Native.Nat.{ℕ, zero, suc, ◌+◌, ◌-◌, ◌/◌, ◌≤◌}
use mathlib.Core.Path.{◌≡◌, refl, ap, subst, ◌∙◌}
use mathlib.Core.Logic.{◌⊎◌, inl, inr}
use mathlib.Core.Bool.{Bool, true, false}
use native.Mathlib.Omega.{arith}
use whois_mcp.Prelude.Tests.{ltb, if◌then◌else◌, Bool-cases}

-- sort.Search on the interval from `i` on; the fuel is the interval's length.
unfoldable pub search_from : ℕ → (ℕ → Bool) → ℕ → ℕ → ℕ
search_from zero f i j = i
search_from (suc fuel) f i j =
    let h = (i + j) / 2 in
    let left = search_from fuel f i h in
    let right = search_from fuel f (h + 1) j in if ltb i j then (if f h then left else right) else i

unfoldable pub search : ℕ → (ℕ → Bool) → ℕ
unfolding search_from
search n f = search_from n f 0 n

-- What binary search finds, for any test: the first place at or below which the test changes.
pub record IsCut (f : ℕ → Bool) (n k : ℕ) : Type 0 where
  pub within : k ≤ n
  pub below : (k ≡ 0) ⊎ (f (k - 1) ≡ false)
  pub above : (k ≡ n) ⊎ (f k ≡ true)

search_from-IsCut :
    (fuel : ℕ) (f : ℕ → Bool) (n i j : ℕ)
    → j - i ≤ fuel
    → i ≤ j
    → j ≤ n
    → (i ≡ 0) ⊎ (f (i - 1) ≡ false)
    → (j ≡ n) ⊎ (f j ≡ true)
    → IsCut f n (search_from fuel f i j)
unfolding search_from
search_from-IsCut zero f n i j enough order in_range below above = record {
  within = omega arith;
  below = below;
  above = subst (λ (k : ℕ). (k ≡ n) ⊎ (f k ≡ true)) (omega arith) above;
}
search_from-IsCut (suc fuel) f n i j enough order in_range below above =
    let h = (i + j) / 2 in
    elim (Bool-cases (ltb i j)) [
      | inr e ↦ rw e (record {
        within = omega arith;
        below = below;
        above = subst (λ (k : ℕ). (k ≡ n) ⊎ (f k ≡ true)) (ground arith) above;
      })
      | inl e ↦ elim (Bool-cases (f h)) [
        | inl fh ↦
            rw (e, fh)
              (search_from-IsCut fuel f n i h (ground arith) (ground arith) (ground arith) below
                (inr fh))
        | inr fh ↦
            rw (e, fh)
              (search_from-IsCut fuel f n (h + 1) j (ground arith) (ground arith) in_range
                (inr (ap f (omega arith) ∙ fh)) above)
      ]
    ]

pub search-IsCut : (n : ℕ) (f : ℕ → Bool) → IsCut f n (search n f)
unfolding search
search-IsCut n f =
    search_from-IsCut n f n 0 n (omega arith) (omega arith) (omega arith) (inl refl) (inl refl)
