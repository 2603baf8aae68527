-- ===== src/Prelude/Ints.antt =====
-- Shifts in an int64, with the wrap-around.
use Prim.Native.Nat.{ℕ, ◌*◌, ◌%◌, ◌^◌, ◌<◌, min}
use mathlib.Core.Path.{◌≡◌, ap, ◌∙◌}
use mathlib.Core.Bool.{◌||◌}
use native.Mathlib.Nat.{mod-eq_of_lt}
use native.Mathlib.Omega.{arith}
use whois_mcp.Prelude.Tests.{ltb, leb, ◌==◌, if◌then◌else◌}

-- The value, unless it is above the cap, zero, or negative as an int64.
abbrev pub cap_int64 : ℕ → ℕ → ℕ
cap_int64 d cap = if ltb cap d || d == 0 || leb (2 ^ 63) d then cap else d

-- `d := base << shift`, and the cap that also catches a wrapped result.
unfoldable pub capped_shift : ℕ → ℕ → ℕ → ℕ
capped_shift base shift cap = cap_int64 (base * 2 ^ shift % 2 ^ 64) cap

cap_int64-min : (d cap : ℕ) → 0 < d → d < 2 ^ 63 → cap_int64 d cap ≡ min d cap
cap_int64-min d cap pos fits = ground arith

-- Where the shift does not overflow, it is capped and nothing else.
pub capped_shift-min :
    (base shift cap : ℕ)
    → 0 < base * 2 ^ shift
    → base * 2 ^ shift < 2 ^ 63
    → capped_shift base shift cap ≡ min (base * 2 ^ shift) cap
unfolding capped_shift
capped_shift-min base shift cap pos fits =
    ap (λ (d : ℕ). cap_int64 d cap) (mod-eq_of_lt (omega arith))
    ∙ cap_int64-min (base * 2 ^ shift) cap pos fits
