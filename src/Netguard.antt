-- ===== src/Netguard.antt =====
-- internal/netguard/netguard.go: the addresses that a connection may go to. An address is the number
-- that its 16 bytes make, and `none` is a nil address; net.ParseIP and net.SplitHostPort are
-- parameters.
pub mod Public
mod Tests
use whois_mcp.Prelude.{
  ℕ, ◌+◌, ◌-◌, ◌*◌, ◌/◌, ◌%◌, ◌^◌, Bool, true, false, ◌&&◌, ◌||◌, Option, none, some, List, [], ◌∷◌,
  Text, Result, ok, err, ◌==◌, if◌then◌else◌,
}

pub data BlockReason : Type 0 where
  unparseable unspecified loopback link_local multicast private_space carrier_nat
        protocol_assignments documentation benchmarking reserved :
      BlockReason

-- (net.IP).To4.
abbrev pub to4 : ℕ → Option ℕ
to4 n = if n / 2 ^ 32 == 65535 then some (n % 2 ^ 32) else none

-- Whether the first `ones` of an address's bits are those of a prefix, given as a number.
abbrev pub under : ℕ → ℕ → ℕ → ℕ → Bool
under bits ones prefix n = n / 2 ^ (bits - ones) == prefix

-- The tests of `net.IP` on four bytes, in the order of the switch, then the extra ranges.
unfoldable pub reason4 : ℕ → Option BlockReason
reason4 v =
    if v == 0
    then some unspecified
    else if under 32 8 127 v
    then some loopback
    else if under 32 16 43518 v || under 32 24 14680064 v
    then some link_local
    else if under 32 4 14 v
    then some multicast
    else if under 32 8 10 v || under 32 12 2753 v || under 32 16 49320 v
    then some private_space
    else if under 32 10 401 v
    then some carrier_nat
    else if under 32 24 12582912 v
    then some protocol_assignments
    else if under 32 24 12582914 v
    then some documentation
    else if under 32 15 25353 v
    then some benchmarking
    else if under 32 24 12989284 v || under 32 24 13303921 v
    then some documentation
    else if under 32 4 15 v
    then some reserved
    else none

-- The low four bits of the second byte are the scope of a multicast address.
abbrev multicast_scope : ℕ → ℕ → Bool
multicast_scope scope n = under 128 8 255 n && (n / 2 ^ 112 % 16) == scope

unfoldable pub reason6 : ℕ → Option BlockReason
reason6 n =
    if n == 0
    then some unspecified
    else if n == 1
    then some loopback
    else if under 128 10 1018 n || multicast_scope 2 n
    then some link_local
    else if multicast_scope 1 n || under 128 8 255 n
    then some multicast
    else if under 128 7 126 n
    then some private_space
    else if under 128 32 536939960 n
    then some documentation
    else none

abbrev pub reason_of : ℕ → Option ℕ → Option BlockReason
reason_of n none = reason6 n
reason_of n (some v) = reason4 v

unfoldable pub block_reason : Option ℕ → Option BlockReason
unfolding reason4 reason6
block_reason none = some unparseable
block_reason (some n) = reason_of n (to4 n)

pub data DialError : Type 0 where
  bad_address : DialError
  blocked : BlockReason → DialError

abbrev verdict_of : Option BlockReason → Result DialError (Unit {0})
verdict_of none = ok tt
verdict_of (some why) = err (blocked why)

unfoldable pub control :
    (Text → Option Text) → (Text → Option ℕ) → Text → Result DialError (Unit {0})
unfolding block_reason
control split_host_port parse_ip address = elim (split_host_port address) [
  | none ↦ err bad_address
  | some host ↦ verdict_of (block_reason (parse_ip host))
]
