-- ===== src/Whois/Client.antt =====
-- internal/whois/client.go: the referral loop of Query, with splitField and sanitizeHost of
-- discover.go. The transport is a parameter that answers a host with a response, or with none on an
-- error; the host, the query line and whether referrals are allowed come from the TLD's quirks.
pub mod Hops
use whois_mcp.Prelude.{
  holds, ℕ, zero, suc, ◌+◌, Bool, true, false, not, ◌&&◌, ◌||◌, Option, none, some, List, [], ◌∷◌,
  ◌++◌, Text, codes, is_empty, text_eq, Dict, lookup, insert, to_lower, trim_space, trim_right,
  trim_last, has_prefix, cut, cut_last, contains, split_on, length, ◌==◌, if◌then◌else◌,
}

abbrev pub max_referral_hops : ℕ
max_referral_hops = 2

pub record Response : Type 0 where
  pub host : Text
  pub query : Text
  pub raw : Text
  pub truncated : Bool

pub record Exchange : Type 0 where
  pub host : Text
  pub query : Text
  pub bytes : ℕ
  pub truncated : Bool
  pub referral : Text

pub data Warning : Type 0 where
  referral_loop referral_failed empty_response empty_referral not_followed : Text → Warning
  no_data : Warning

pub record QueryResult : Type 0 where
  pub raw : Text
  pub chain : List Exchange
  pub servers : List Text
  pub truncated : Bool
  pub warnings : List Warning

abbrev pub no_result : QueryResult
no_result = record { raw = []; chain = []; servers = []; truncated = false; warnings = [] }

abbrev pub warn : QueryResult → Warning → QueryResult
warn res w = record res { warnings = res.warnings ++ w ∷ [] }

abbrev labelled : Option (Text × Text) → Option (Text × Text)
labelled none = none
labelled (some ([], value)) = none
labelled (some (c ∷ label, value)) = some (trim_space (c ∷ label), trim_space value)

-- The label and the value of a line.
unfoldable pub split_field : Text → Option (Text × Text)
unfolding trim_space trim_right has_prefix cut
split_field line =
    let l = trim_space (trim_right 13 line) in
    if is_empty l || has_prefix (codes "%") l || has_prefix (codes "#") l
    then none
    else labelled (cut (codes ":") l)

abbrev is_forbidden : ℕ → Bool
is_forbidden c = c == b' ' || c == 9 || c == b'/' || c == 92 || c == b'@'

unfoldable pub has_forbidden : Text → Bool
has_forbidden [] = false
has_forbidden (c ∷ s) = is_forbidden c || has_forbidden s

unfoldable pub sanitize_host : Text → Text
unfolding trim_space trim_last has_forbidden contains to_lower
sanitize_host v =
    let h = trim_space (trim_last b'.' (trim_space v)) in
    if is_empty h || has_forbidden h || not (contains (codes ".") h) then [] else to_lower h

abbrev pub referral_labels : List Text
referral_labels =
    codes "registrar whois server" ∷ codes "whois server" ∷ codes "refer" ∷ codes "whois" ∷ []

-- The first usable value of a label is kept.
abbrev pub keep_first : Text → Text → Dict Text → Option Text → Dict Text
keep_first want h found (some _) = found
keep_first want h found none = if is_empty h then found else insert want h found

unfoldable pub note_label : Text → Text → List Text → Dict Text → Dict Text
unfolding sanitize_host
note_label l value [] found = found
note_label l value (want ∷ wants) found = note_label l value wants (
    if text_eq l want
    then keep_first want (sanitize_host value) found (lookup want found)
    else found)

unfoldable pub note_lines : List Text → Dict Text → Dict Text
unfolding split_field note_label
note_lines [] found = found
note_lines (line ∷ lines) found = elim (split_field line) [
  | none ↦ note_lines lines found
  | some (label, value) ↦ note_lines lines (note_label (to_lower label) value referral_labels found)
]

unfoldable pub first_found : List Text → Dict Text → Text
first_found [] found = []
first_found (want ∷ wants) found = elim (lookup want found) [
  | some h ↦ h
  | none ↦ first_found wants found
]

unfoldable pub referral_host : Text → Text
unfolding note_lines first_found split_on
referral_host body = first_found referral_labels (note_lines (split_on b'\n' body) [])

abbrev before_port : Text → Option (Text × Text) → Text
before_port hostport none = hostport
before_port hostport (some ([], rest)) = hostport
before_port hostport (some (c ∷ host, rest)) =
    if contains (codes "]") rest then hostport else c ∷ host

unfoldable pub host_only : Text → Text
unfolding cut_last contains
host_only hostport = before_port hostport (cut_last b':' hostport)

-- The referral of a response; a registry that names itself makes none.
unfoldable pub next_host : Bool → Response → Text
unfolding referral_host host_only to_lower
next_host allowed resp =
    if allowed && not (is_empty resp.raw)
    then (let next = referral_host resp.raw in
        if text_eq (to_lower next) (to_lower (host_only resp.host)) then [] else next)
    else []

-- The answer is replaced by a response that says something.
unfoldable pub take_answer : Bool → Response → QueryResult → QueryResult
take_answer first resp res =
    if not (is_empty resp.raw)
    then record res { raw = resp.raw; truncated = resp.truncated }
    else if first
    then warn res (empty_response resp.host)
    else warn res (empty_referral resp.host)

abbrev pub exchange_of : Bool → Response → Exchange
exchange_of allowed resp = record {
  host = resp.host;
  query = resp.query;
  bytes = length resp.raw;
  truncated = resp.truncated;
  referral = next_host allowed resp;
}

unfoldable pub record_hop : Bool → Bool → Response → QueryResult → QueryResult
unfolding take_answer
record_hop allowed first resp res =
    let r = take_answer first resp res in
    record r {
      chain = r.chain ++ exchange_of allowed resp ∷ [];
      servers = r.servers ++ resp.host ∷ [];
    }

-- The loop, with the hops that are left; none is left only if the loop is entered with none.
unfoldable pub query_hops :
    (Text → Option Response) → Bool → ℕ → Bool → List Text → Text → QueryResult → Option QueryResult
unfolding record_hop
query_hops tr allowed zero first seen host res = some res
query_hops tr allowed (suc left) first seen host res =
    if holds (to_lower host) seen then some (warn res (referral_loop host)) else elim (tr host) [
      | none ↦ if first then none else some (warn res (referral_failed host))
      | some resp ↦
          let next = next_host allowed resp in
          let res' = record_hop allowed first resp res in
          let rest = query_hops tr allowed left false (to_lower host ∷ seen) next res' in
          if is_empty next
          then some res'
          else if left == 0
          then some (warn res' (not_followed next))
          else rest
    ]

abbrev pub complete : QueryResult → QueryResult
complete res = if is_empty res.raw && length res.warnings == 0 then warn res no_data else res

abbrev completed : Option QueryResult → Option QueryResult
completed none = none
completed (some res) = some (complete res)

-- `Query` once the host is known; `none` is the error of the first exchange.
unfoldable pub client_query : (Text → Option Response) → Bool → Text → Option QueryResult
unfolding query_hops
client_query tr allowed host =
    completed (query_hops tr allowed max_referral_hops true [] host no_result)
