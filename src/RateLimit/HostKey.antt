-- ===== src/RateLimit/HostKey.antt =====
-- internal/ratelimit/ratelimit.go: the name under which an upstream's quota is kept.
use whois_mcp.Prelude.{
  ℕ, Bool, ◌||◌, none, some, [], ◌∷◌, ◌++◌, Text, codes, is_empty, text_eq, to_lower, trim_space,
  cut, cut_last, before_any, trim_last, ◌==◌, if◌then◌else◌,
}

unfoldable pub is_default_port : Text → Bool
unfolding text_eq
is_default_port p = text_eq p (codes "43") || text_eq p (codes "443") || text_eq p (codes "80")

abbrev is_delimiter : ℕ → Bool
is_delimiter c = c == b'/' || c == b'?' || c == b'#'

abbrev after_scheme : Text → Text
after_scheme s = elim (cut (codes "://") s) [ none ↦ s | some (_, rest) ↦ rest ]

-- The port behind a closing bracket.
abbrev port_of : Text → Text
port_of [] = []
port_of (c ∷ rest) = if c == b':' then rest else []

abbrev split_bracketed : Text → Text × Text
split_bracketed s = elim (cut (codes "]") s) [
  | none ↦ (s, [])
  | some (a, rest) ↦ (a ++ b']' ∷ [], port_of rest)
]

-- A colon at the front is no separator.
abbrev split_plain : Text → Text × Text
split_plain s = elim (cut_last b':' s) [
  | none ↦ (s, [])
  | some ([], rest) ↦ (s, [])
  | some (c ∷ a, rest) ↦ (c ∷ a, rest)
]

abbrev split_port : Text → Text × Text
split_port [] = ([], [])
split_port (c ∷ s) = if c == b'[' then split_bracketed (c ∷ s) else split_plain (c ∷ s)

unfoldable pub with_port : Text × Text → Text
unfolding is_default_port trim_last
with_port (host, port) =
    let h = trim_last b'.' host in
    if is_empty port || is_default_port port then h else h ++ b':' ∷ port

unfoldable pub host_key : Text → Text
unfolding with_port to_lower trim_space cut cut_last before_any
host_key name =
    let s = trim_space (to_lower name) in
    if is_empty s
    then codes "unknown"
    else with_port (split_port (before_any is_delimiter (after_scheme s)))
