-- ===== src/Resolve/Query.antt =====
-- internal/resolve/normalize.go: the domain that an input stands for. The IDNA profile and the public
-- suffix list are parameters.
use whois_mcp.Prelude.{
  ℕ, Bool, not, ◌||◌, Option, none, some, [], Text, codes, is_empty, trim_space, trim_last, cut,
  cut_last, before_any, has_any, contains, Result, ok, ◌>>=◌, or_fail, require, ◌==◌, if◌then◌else◌,
}
use whois_mcp.Normalize.Report.{Query}

pub data DomainError : Type 0 where
  empty_input no_host bad_label no_suffix only_suffix : DomainError

abbrev behind : Option (Text × Text) → Text → Text
behind none s = s
behind (some (_, rest)) s = rest

abbrev is_path_mark : ℕ → Bool
is_path_mark c = c == b'/' || c == b'?' || c == b'#'

abbrev is_blank : ℕ → Bool
is_blank c = c == b' ' || c == 9 || c == 10

-- The scheme, the path, the user, the port and the trailing dot are dropped.
unfoldable pub host_from_input : Text → Text
unfolding cut cut_last before_any trim_last has_any
host_from_input s =
    let rest = before_any is_path_mark (behind (cut (codes "://") s) s) in
    let authority = behind (cut_last b'@' rest) rest in
    let host = trim_last b'.' (before_any (λ (c : ℕ). c == b':') authority) in
    if has_any is_blank host then [] else host

unfoldable pub last_label : Text → Text
unfolding cut_last
last_label s = behind (cut_last b'.' s) s

-- What golang.org/x/net gives: ToASCII, ToUnicode, PublicSuffix and EffectiveTLDPlusOne.
pub record DomainRules : Type 0 where
  pub to_ascii : Text → Option Text
  pub to_unicode : Text → Option Text
  pub public_suffix : Text → Text
  pub registrable : Text → Option Text

abbrev or_text : Option Text → Text → Text
or_text none s = s
or_text (some t) s = t

unfoldable pub query_of : DomainRules → Text → Text → Text → Query
unfolding last_label
query_of rules input ascii registrable =
    let suffix = rules.public_suffix ascii in
    record {
      input = input;
      registrable_domain = or_text (rules.to_unicode registrable) registrable;
      ascii = registrable;
      tld = last_label suffix;
      public_suffix = or_text (rules.to_unicode suffix) suffix;
    }

unfoldable pub normalize_query : DomainRules → Text → Result DomainError Query
unfolding trim_space host_from_input contains query_of
normalize_query rules input = do
  _ ← require (not (is_empty (trim_space input))) empty_input
  _ ← require (not (is_empty (host_from_input (trim_space input)))) no_host
  ascii ← or_fail (rules.to_ascii (host_from_input (trim_space input))) bad_label
  _ ← require (contains (codes ".") ascii) no_suffix
  registrable ← or_fail (rules.registrable ascii) only_suffix
  ok (query_of rules input ascii registrable)
