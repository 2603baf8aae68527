-- ===== src/Prelude/Found.antt =====
-- What a search in a Go string finds, as an equation on the string.
use mathlib.Core.Path.{◌≡◌, refl}
use mathlib.Core.Logic.{inl, inr}
use mathlib.Core.Bool.{true}
use mathlib.Core.List.{[], ◌∷◌, ◌++◌}
use mathlib.Core.Option.{some}
use native.Mathlib.Omega.{arith}
use whois_mcp.Prelude.Tests.{Option-cases}
use whois_mcp.Prelude.Bytes.{Text}
use whois_mcp.Prelude.Search.{cut_prefix, has_prefix, cut, contains}

abbrev pub Occurs : Text → Text → Type 0
Occurs p s = (before : Text) × (after : Text) × (s ≡ before ++ (p ++ after))

pub cut_prefix-some : (p s rest : Text) → cut_prefix p s ≡ some rest → s ≡ p ++ rest
unfolding cut_prefix
cut_prefix-some [] s rest h = ground arith
cut_prefix-some (x ∷ p) [] rest h = cc
cut_prefix-some (x ∷ p) (c ∷ s) rest h = ground (arith, cut_prefix-some p s rest)

pub cut_prefix-append : (p rest : Text) → cut_prefix p (p ++ rest) ≡ some rest
unfolding cut_prefix
cut_prefix-append [] rest = refl
cut_prefix-append (x ∷ p) rest = ground (arith, cut_prefix-append p rest)

abbrev Splits : Text → Text → Text × Text → Type 0
Splits p s (a, b) = s ≡ a ++ (p ++ b)

pub cut-some : (p s : Text) {a b : Text} → cut p s ≡ some (a, b) → s ≡ a ++ (p ++ b)
unfolding cut
cut-some p [] {a} {b} h = ground (arith, cut_prefix-some p [] b)
cut-some p (c ∷ s) {a} {b} h = elim (Option-cases (cut_prefix p (c ∷ s))) [
  | inr (rest, e) ↦ ground (arith, cut_prefix-some p (c ∷ s) rest e)
  | inl e ↦ elim (Option-cases (cut p s)) [
    | inl f ↦ ground arith
    | inr ((x, y), f) ↦ ground (arith, cut-some p s f)
  ]
]

pub cut_prefix→contains :
    (p s : Text) (rest : Text) → cut_prefix p s ≡ some rest → contains p s ≡ true
unfolding cut contains
cut_prefix→contains p [] rest h = rw (h, contains, cut) refl
cut_prefix→contains p (c ∷ s) rest h = rw (h, contains, cut) refl

contains-append : (p before after : Text) → contains p (before ++ (p ++ after)) ≡ true
unfolding cut contains
contains-append p [] after = cut_prefix→contains p (p ++ after) after (cut_prefix-append p after)
contains-append p (c ∷ before) after = ground (arith, contains-append p before after)

pub contains→Occurs : (p s : Text) → contains p s ≡ true → Occurs p s
unfolding contains
contains→Occurs p s h = elim (Option-cases (cut p s)) [
  | inr ((a, b), e) ↦ (a, b, cut-some p s e)
  | inl e ↦ ground arith
]

pub Occurs→contains : (p s : Text) → Occurs p s → contains p s ≡ true
Occurs→contains p s (before, after, e) = rw e (contains-append p before after)

pub has_prefix-append : (p s t : Text) → has_prefix p s ≡ true → has_prefix p (s ++ t) ≡ true
unfolding has_prefix cut_prefix
has_prefix-append [] s t h = refl
has_prefix-append (x ∷ p) [] t h = cc
has_prefix-append (x ∷ p) (c ∷ s) t h = ground (arith, has_prefix-append p s t)
