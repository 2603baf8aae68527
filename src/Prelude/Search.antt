-- ===== src/Prelude/Search.antt =====
-- Searches in Go strings: prefixes, suffixes, and cuts at a first or last occurrence.
use Prim.Native.Nat.{ℕ, ◌+◌}
use mathlib.Core.Bool.{Bool, true, false, ◌||◌}
use mathlib.Core.List.{[], ◌∷◌, reverse}
use mathlib.Core.Option.{Option, none, some}
use whois_mcp.Prelude.Tests.{◌==◌, if◌then◌else◌}
use whois_mcp.Prelude.Bytes.{Text}

-- strings.CutPrefix; `none` is no such prefix.
unfoldable pub cut_prefix : Text → Text → Option Text
cut_prefix [] s = some s
cut_prefix (p ∷ ps) [] = none
cut_prefix (p ∷ ps) (c ∷ s) = if p == c then cut_prefix ps s else none

unfoldable pub has_prefix : Text → Text → Bool
unfolding cut_prefix
has_prefix p s = elim (cut_prefix p s) [ none ↦ false | some _ ↦ true ]

-- strings.Index and the two slices around it: what stands before and behind the first occurrence.
unfoldable pub cut : Text → Text → Option (Text × Text)
unfolding cut_prefix
cut sep [] = elim (cut_prefix sep []) [ none ↦ none | some rest ↦ some ([], rest) ]
cut sep (c ∷ s) =
    let later = cut sep s in
    elim (cut_prefix sep (c ∷ s)) [
      | some rest ↦ some ([], rest)
      | none ↦ elim later [ none ↦ none | some (a, b) ↦ some (c ∷ a, b) ]
    ]

unfoldable pub contains : Text → Text → Bool
unfolding cut
contains sep s = elim (cut sep s) [ none ↦ false | some _ ↦ true ]

-- strings.LastIndex of one byte, with the slices around it.
unfoldable pub cut_last : ℕ → Text → Option (Text × Text)
cut_last c [] = none
cut_last c (x ∷ s) = elim (cut_last c s) [
  | some (a, b) ↦ some (x ∷ a, b)
  | none ↦ if x == c then some ([], s) else none
]

-- The slice before the first byte that the test holds of.
unfoldable pub before_any : (ℕ → Bool) → Text → Text
before_any stop [] = []
before_any stop (c ∷ s) = let rest = c ∷ before_any stop s in if stop c then [] else rest

-- strings.TrimSuffix with a suffix of one byte.
unfoldable pub trim_last : ℕ → Text → Text
trim_last c [] = []
trim_last c (x ∷ []) = if x == c then [] else x ∷ []
trim_last c (x ∷ y ∷ s) = x ∷ trim_last c (y ∷ s)

-- strings.TrimRight with a cutset of one byte.
abbrev drop_front : ℕ → Text → Text
drop_front c [] = []
drop_front c (x ∷ s) = if x == c then drop_front c s else x ∷ s

unfoldable pub trim_right : ℕ → Text → Text
trim_right c s = reverse (drop_front c (reverse s))

-- strings.CutSuffix.
unfoldable pub cut_suffix : Text → Text → Option Text
unfolding cut_prefix
cut_suffix p s = elim (cut_prefix (reverse p) (reverse s)) [
  | none ↦ none
  | some r ↦ some (reverse r)
]

-- strings.ContainsAny, by a test on bytes.
unfoldable pub has_any : (ℕ → Bool) → Text → Bool
has_any test [] = false
has_any test (c ∷ s) = test c || has_any test s

-- strings.Count of one byte.
unfoldable pub count : ℕ → Text → ℕ
count b [] = 0
count b (c ∷ s) = (if c == b then 1 else 0) + count b s
