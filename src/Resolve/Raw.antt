-- ===== src/Resolve/Raw.antt =====
-- internal/resolve/raw.go: the verbatim payloads of a domain. JSON is a parameter; the texts of the
-- errors are left out.
pub mod Bodies
use whois_mcp.Prelude.{
  ℕ, ◌-◌, ◌*◌, Bool, true, false, Option, none, some, List, [], Text, codes, ◌++◌, is_empty, leb,
  ◌==◌, Result, ok, err, if◌then◌else◌,
}
use whois_mcp.Cache
use whois_mcp.Cache.{Memory}
use whois_mcp.Whois.Client.{QueryResult, Warning}
use whois_mcp.Rdap.Client.{RdapResult, QueryError, no_rdap_service, cancelled}
use whois_mcp.Normalize.Report.{Protocol, rdap, whois, Query, hit, miss}
use whois_mcp.Resolve.Query.{DomainError, DomainRules, normalize_query}
use whois_mcp.Resolve.Lookup.{Resolver, Times, texts_of}

-- 15 minutes.
abbrev pub ttl_raw : ℕ
ttl_raw = 900_000_000_000

pub record RawResponse : Type 0 where
  pub query : Query
  pub protocol : Protocol
  pub servers : List Text
  pub fetched_at : ℕ
  pub cache : Text
  pub truncated : Bool
  pub body : Text
  pub warnings : List Text

pub record RawJson : Type 0 where
  pub encode : RawResponse → Option Text
  pub decode : Text → Option RawResponse

pub data RawError : Type 0 where
  invalid : DomainError → RawError
  upstream : QueryError → RawError
  whois_failed : Text → RawError
  no_raw : RawError

abbrev rdap_key : Text → Text
rdap_key ascii = codes "v1:raw:rdap:" ++ ascii

abbrev whois_key : Text → Text
whois_key ascii = codes "v1:raw:whois:" ++ ascii

unfoldable pub usable_raw : RawJson → ℕ → ℕ → Option Text → Option RawResponse
usable_raw j max_age now none = none
usable_raw j max_age now (some raw) = elim (j.decode raw) [
  | none ↦ none
  | some out ↦
      if leb (now - out.fetched_at) max_age then some (record out { cache = hit }) else none
]

unfoldable pub cached_raw : RawJson → Text → ℕ → ℕ → Memory Text → Memory Text × Option RawResponse
unfolding Cache.get usable_raw
cached_raw j key max_age now m =
    let (m', raw) = Cache.get m key now in
    if max_age == 0 then (m, none) else (m', usable_raw j max_age now raw)

unfoldable pub store_raw : RawJson → Text → RawResponse → ℕ → Memory Text → Memory Text
unfolding Cache.set
store_raw j key out now m = elim (j.encode out) [
  | none ↦ m
  | some raw ↦ Cache.set m key raw ttl_raw now
]

module _ {U : Type 0} (r : Resolver U) (j : RawJson) where
  abbrev pub State : Type 0
  State = Memory Text × U

  -- What an RDAP result gives, and what a WHOIS result does.
  unfoldable pub rdap_body : Query → ℕ → Result QueryError RdapResult → Result RawError RawResponse
  rdap_body q at (err e) = err (upstream e)
  rdap_body q at (ok res) =
      if is_empty res.raw
      then err no_raw
      else ok (record {
        query = q;
        protocol = rdap;
        servers = res.servers;
        fetched_at = at;
        cache = miss;
        truncated = false;
        body = res.raw;
        warnings = res.warnings;
      })

  unfoldable pub whois_body : Query → ℕ → Result Text QueryResult → Result RawError RawResponse
  whois_body q at (err e) = err (whois_failed e)
  whois_body q at (ok res) =
      if is_empty res.raw
      then err no_raw
      else ok (record {
        query = q;
        protocol = whois;
        servers = res.servers;
        fetched_at = at;
        cache = miss;
        truncated = res.truncated;
        body = res.raw;
        warnings = texts_of r.texts res.warnings;
      })

  abbrev pub stored_raw :
      Text → ℕ → Memory Text → U → Result RawError RawResponse → State × Result RawError RawResponse
  stored_raw key now m u (err e) = ((m, u), err e)
  stored_raw key now m u (ok out) = ((store_raw j key out now m, u), ok out)

  abbrev pub rdap_from :
      Query → Times → U → Memory Text × Option RawResponse → State × Result RawError RawResponse
  rdap_from q times u (m, some out) = ((m, u), ok out)
  rdap_from q times u (m, none) =
      let (u', answer) = r.query_rdap q false u in
      stored_raw (rdap_key q.ascii) times.stored_at m u' (rdap_body q times.fetched_at answer)

  abbrev pub raw_rdap_of :
      Result DomainError Query → ℕ → Times → State → State × Result RawError RawResponse
  raw_rdap_of (err e) max_age times s = (s, err (invalid e))
  raw_rdap_of (ok q) max_age times (m, u) =
      rdap_from q times u (cached_raw j (rdap_key q.ascii) max_age times.read_at m)

  unfoldable pub raw_rdap : Text → ℕ → Times → State → State × Result RawError RawResponse
  unfolding cached_raw store_raw rdap_body normalize_query
  raw_rdap input max_age times s = raw_rdap_of (normalize_query r.rules input) max_age times s

  abbrev pub whois_from :
      (Query → U → U × Result Text QueryResult)
      → Query
      → Times
      → U
      → Memory Text × Option RawResponse
      → State × Result RawError RawResponse
  whois_from ask q times u (m, some out) = ((m, u), ok out)
  whois_from ask q times u (m, none) =
      let (u', answer) = ask q u in
      stored_raw (whois_key q.ascii) times.stored_at m u' (whois_body q times.fetched_at answer)

  abbrev pub raw_whois_by :
      Option (Query → U → U × Result Text QueryResult)
      → Query
      → ℕ
      → Times
      → State
      → State × Result RawError RawResponse
  raw_whois_by none q max_age times s = (s, err no_raw)
  raw_whois_by (some ask) q max_age times (m, u) =
      whois_from ask q times u (cached_raw j (whois_key q.ascii) max_age times.read_at m)

  abbrev pub raw_whois_of :
      Result DomainError Query → ℕ → Times → State → State × Result RawError RawResponse
  raw_whois_of (err e) max_age times s = (s, err (invalid e))
  raw_whois_of (ok q) max_age times s = raw_whois_by r.query_whois q max_age times s

  unfoldable pub raw_whois : Text → ℕ → Times → State → State × Result RawError RawResponse
  unfolding cached_raw store_raw whois_body normalize_query
  raw_whois input max_age times s = raw_whois_of (normalize_query r.rules input) max_age times s

  abbrev pub auto_from :
      Text → ℕ → Times → State × Result RawError RawResponse → State × Result RawError RawResponse
  auto_from input max_age times (s, ok out) = (s, ok out)
  auto_from input max_age times (s, err no_raw) = raw_whois input max_age times s
  auto_from input max_age times (s, err (upstream no_rdap_service)) =
      raw_whois input max_age times s
  auto_from input max_age times (s, err (upstream cancelled)) = (s, err (upstream cancelled))
  auto_from input max_age times (s, err (invalid e)) = (s, err (invalid e))
  auto_from input max_age times (s, err (whois_failed e)) = (s, err (whois_failed e))

  -- `RawAuto`, with the times of each of the two lookups.
  unfoldable pub raw_auto : Text → ℕ → Times → Times → State → State × Result RawError RawResponse
  unfolding raw_rdap raw_whois
  raw_auto input max_age times times' s =
      auto_from input max_age times' (raw_rdap input max_age times s)
