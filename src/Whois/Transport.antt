-- ===== src/Whois/Transport.antt =====
-- internal/whois/transport.go: one exchange on port 43. The connection is a parameter: what a server
-- sends, and whether reading ends in an error; net.SplitHostPort tells whether there is a port.
pub mod Received
use whois_mcp.Prelude.{
  ℕ, zero, suc, ◌+◌, Bool, true, false, ◌||◌, Option, none, some, List, [], ◌∷◌, ◌++◌, Text, codes,
  is_empty, trim_space, trim_last, contains, has_any, take, length, ltb, ◌==◌, if◌then◌else◌,
}
use whois_mcp.Whois.Client.{Response}

-- 2^20 bytes.
abbrev pub max_response_bytes : ℕ
max_response_bytes = 1_048_576

-- The cap that the options set; 0 means the default. A negative one is 0 here.
unfoldable pub cap_of : ℕ → ℕ
cap_of max_bytes = if max_bytes == 0 then max_response_bytes else max_bytes

-- net.JoinHostPort with the default port.
abbrev with_default_port : Text → Text
with_default_port h =
    if contains (codes ":") h then codes "[" ++ (h ++ codes "]:43") else h ++ codes ":43"

abbrev is_no_host_byte : ℕ → Bool
is_no_host_byte c = c == b' ' || c == 9 || c == 13 || c == b'\n' || c == b'/' || c == 92

-- `none` is the error `ErrNoHost`.
unfoldable pub normalize_host : (Text → Bool) → Text → Option Text
unfolding trim_space trim_last contains has_any
normalize_host has_port host =
    let h = trim_last b'.' (trim_space host) in
    if is_empty h || has_any is_no_host_byte h
    then none
    else some (if has_port h then h else with_default_port h)

-- What a connection delivers: the bytes up to its end, or to an error.
pub record Stream : Type 0 where
  pub bytes : Text
  pub breaks : Bool

abbrev respond : Text → Text → Text → Bool → Response
respond addr query raw cut_off = record {
  host = addr;
  query = query;
  raw = raw;
  truncated = cut_off;
}

-- One byte past the cap is read, so that a response of exactly the cap is told from a longer one.
unfoldable pub receive : ℕ → Text → Text → Stream → Option Response
receive cap addr query s =
    let raw = take (cap + 1) s.bytes in
    if ltb cap (length raw)
    then some (respond addr query (take cap raw) true)
    else if s.breaks
    then (if is_empty raw then none else some (respond addr query raw true))
    else some (respond addr query raw false)

abbrev dialled : ℕ → Text → Text → Option Stream → Option Response
dialled cap addr query none = none
dialled cap addr query (some s) = receive cap addr query s

-- `Query` without the guard: `dial` gives the stream of an address and a line, none where it fails.
unfoldable pub transport_query :
    (Text → Bool) → (Text → Text → Option Stream) → ℕ → Text → Text → Option Response
unfolding normalize_host receive
transport_query has_port dial max_bytes host query = elim (normalize_host has_port host) [
  | none ↦ none
  | some addr ↦ dialled (cap_of max_bytes) addr query (dial addr query)
]
