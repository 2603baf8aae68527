-- ===== src/Prelude/Decimal.antt =====
-- Decimal digits, as strconv reads them.
use Prim.Native.Nat.{ℕ, ◌+◌, ◌-◌, ◌*◌, ◌^◌}
use mathlib.Core.Bool.{Bool, true, false, ◌&&◌}
use mathlib.Core.List.{[], ◌∷◌}
use mathlib.Core.Option.{Option, none, some}
use whois_mcp.Prelude.Tests.{leb, ◌==◌, if◌then◌else◌}
use whois_mcp.Prelude.Bytes.{Text}

unfoldable pub digit : ℕ → Option ℕ
digit c = if leb b'0' c && leb c b'9' then some (c - b'0') else none

-- Decimal digits, at least one where `started` does not hold.
unfoldable pub digits_from : Bool → ℕ → Text → Option ℕ
unfolding digit
digits_from started acc [] = if started then some acc else none
digits_from started acc (c ∷ s) = elim (digit c) [
  | none ↦ none
  | some v ↦ digits_from true (acc * 10 + v) s
]

abbrev within : ℕ → Option ℕ → Option ℕ
within max none = none
within max (some n) = if leb n max then some n else none

-- strconv.ParseUint in base 10, up to a maximum.
unfoldable pub parse_uint : ℕ → Text → Option ℕ
unfolding digits_from
parse_uint max s = within max (digits_from false 0 s)

-- strconv.Atoi into an int of 64 bits: the sign, held where it is a minus, and the magnitude.
abbrev signed : Bool → Option ℕ → Option (Bool × ℕ)
signed minus none = none
signed minus (some n) = some (minus, n)

unfoldable pub atoi : Text → Option (Bool × ℕ)
unfolding parse_uint
atoi [] = none
atoi (c ∷ s) =
    if c == b'-'
    then signed true (parse_uint (2 ^ 63) s)
    else if c == b'+'
    then signed false (parse_uint (2 ^ 63 - 1) s)
    else signed false (parse_uint (2 ^ 63 - 1) (c ∷ s))
