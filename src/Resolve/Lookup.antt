-- ===== src/Resolve/Lookup.antt =====
-- internal/resolve/resolver.go: the lookup of a domain over the cache, RDAP and WHOIS. The two
-- clients are parameters with a state of their own, which Rdap.Client and Whois.Client fill; JSON and
-- `time.Parse` are parameters too. A lookup is given the time of each of its readings of the clock.
pub mod Denials
pub mod Reuse
use whois_mcp.Prelude.{
  ℕ, ◌-◌, Bool, true, false, not, ◌&&◌, Option, none, some, List, [], ◌∷◌, ◌++◌, Text, codes,
  is_empty, ltb, leb, ◌==◌, Result, ok, err, ◌>>=◌, if◌then◌else◌,
}
use whois_mcp.Cache
use whois_mcp.Cache.{Memory}
use whois_mcp.Whois.Client.{QueryResult, Warning}
use whois_mcp.Whois.Parsers.Classify.{Availability, registered, unregistered, unknown, classify}
use whois_mcp.Whois.Parsers.Report.{parse}
use whois_mcp.Rdap.Client.{RdapResult, QueryError, no_rdap_service, cancelled}
use whois_mcp.Normalize.Report.{
  Tristate, affirmed, denied, undecided, rdap, whois, Query, DomainReport, bare_report, hit, miss,
}
use whois_mcp.Normalize.FromRdap.{from_rdap}
use whois_mcp.Normalize.FromWhois.{from_whois}
use whois_mcp.Resolve.Ttl.{TtlPolicy, ttl_for}
use whois_mcp.Resolve.Query.{DomainError, DomainRules, normalize_query}

pub record Options : Type 0 where
  pub max_age : ℕ
  pub include_contacts : Bool
  pub skip_registrar_referral : Bool

-- Which lookups may share one upstream call.
unfoldable pub flight_key : Text → Options → Text
flight_key ascii opt =
    ascii
    ++ (codes "|"
        ++ ((if opt.max_age == 0 then codes "f" else codes "c")
            ++ (codes "|" ++ (if opt.skip_registrar_referral then codes "n" else codes "r"))))

abbrev pub cache_key : Text → Text
cache_key ascii = codes "v1:report:" ++ ascii

unfoldable pub tristate : Availability → Tristate
tristate registered = affirmed
tristate unregistered = denied
tristate unknown = undecided

unfoldable pub apply_options : DomainReport → Options → DomainReport
apply_options rep opt = if opt.include_contacts then rep else record rep { entities = [] }

pub data LookupError : Type 0 where
  invalid : DomainError → LookupError
  upstream : QueryError → LookupError

pub record Times : Type 0 where
  pub read_at : ℕ
  pub fetched_at : ℕ
  pub stored_at : ℕ

-- The parts of a resolver that do not change. `texts` gives a warning of the WHOIS client its text.
pub record Resolver (U : Type 0) : Type 0 where
  pub rules : DomainRules
  pub query_rdap : Query → Bool → U → U × Result QueryError RdapResult
  pub query_whois : Option (Query → U → U × Result Text QueryResult)
  pub texts : Warning → Text
  pub parse_time : Text → Text → Option ℕ
  pub encode : DomainReport → Option Text
  pub decode : Text → Option DomainReport
  pub policy : TtlPolicy

abbrev pub is_undecided : Tristate → Bool
is_undecided affirmed = false
is_undecided denied = false
is_undecided undecided = true

abbrev pub last_server : List Text → Text
last_server [] = []
last_server (s ∷ []) = s
last_server (s ∷ t ∷ ss) = last_server (t ∷ ss)

abbrev pub texts_of : (Warning → Text) → List Warning → List Text
texts_of text [] = []
texts_of text (w ∷ ws) = text w ∷ texts_of text ws

-- A report of the WHOIS path that says nothing, with its warnings.
abbrev pub unknown_report : Query → ℕ → List Text → DomainReport
unknown_report q at warnings =
    bare_report q undecided
      (record {
        protocol = whois;
        servers = [];
        fetched_at = at;
        cache = miss;
        parse_confidence = 0;
        raw_available = false;
      })
      warnings

abbrev truncated_text : Text
truncated_text =
    codes "WHOIS response was truncated at the size cap; fields near the end may be missing"

abbrev add_warnings : DomainReport → List Text → DomainReport
add_warnings rep ws = record rep { warnings = rep.warnings ++ ws }

-- Of an RDAP report and a WHOIS report: the second counts if it says something.
unfoldable pub choose : DomainReport → DomainReport → DomainReport
choose rep alt = if is_undecided alt.registered then rep else add_warnings alt rep.warnings

abbrev pub is_configured {ℓ} : {A : Type ℓ} → Option A → Bool
is_configured none = false
is_configured (some a) = true

abbrev answer_to : Options → Result LookupError DomainReport → Result LookupError DomainReport
answer_to opt (err e) = err e
answer_to opt (ok rep) = ok (apply_options rep opt)

module _ {U : Type 0} (r : Resolver U) where
  -- The report of a WHOIS answer.
  unfoldable pub whois_report : Query → ℕ → QueryResult → DomainReport
  unfolding classify tristate parse from_whois
  whois_report q at res =
      let host = last_server res.servers in
      let rep =
        from_whois q (some (parse r.parse_time host res.raw)) (tristate (classify host res.raw))
          res.servers at miss (not (is_empty res.raw)) in
      add_warnings rep
        (texts_of r.texts res.warnings ++ (if res.truncated then truncated_text ∷ [] else []))

  unfoldable pub via_whois : Query → ℕ → Text → U → U × DomainReport
  unfolding whois_report
  via_whois q at because u = elim r.query_whois [
    | none ↦
        (u, unknown_report q at ((because ++ codes "; the WHOIS fallback is not configured") ∷ []))
    | some query ↦
        let (u', answer) = query q u in
        elim answer [
          | err e ↦ (u', unknown_report q at (because ∷ (codes "WHOIS lookup failed: " ++ e) ∷ []))
          | ok res ↦ (u', whois_report q at res)
        ]
  ]

  -- The report of an RDAP result.
  unfoldable pub rdap_report : Query → ℕ → RdapResult → DomainReport
  unfolding from_rdap
  rdap_report q at res =
      add_warnings
        (elim res.registered [
          | affirmed ↦ from_rdap r.parse_time q res.domain res.servers at miss
          | denied ↦
              bare_report q denied
                (record {
                  protocol = rdap;
                  servers = res.servers;
                  fetched_at = at;
                  cache = miss;
                  parse_confidence = 100;
                  raw_available = not (is_empty res.raw);
                })
                []
          | undecided ↦
              bare_report q undecided
                (record {
                  protocol = rdap;
                  servers = res.servers;
                  fetched_at = at;
                  cache = miss;
                  parse_confidence = 100;
                  raw_available = not (is_empty res.raw);
                })
                []
        ])
        res.warnings

  unfoldable pub fall_back : Query → ℕ → DomainReport → U → U × DomainReport
  unfolding via_whois choose
  fall_back q at rep u =
      let (u', alt) = via_whois q at (codes "RDAP returned no definite answer") u in
      if is_undecided rep.registered && is_configured r.query_whois
      then (u', choose rep alt)
      else (u, rep)

  -- The lookup past the cache.
  unfoldable pub fresh_report : Query → Bool → ℕ → U → U × Result LookupError DomainReport
  unfolding via_whois rdap_report fall_back
  fresh_report q skip at u =
      let (u', answer) = r.query_rdap q skip u in
      elim answer [
        | err cancelled ↦ (u', err (upstream cancelled))
        | err no_rdap_service ↦
            let (u'', rep) =
              via_whois q at (codes "TLD ." ++ (q.tld ++ codes " publishes no RDAP service")) u' in
            (u'', ok rep)
        | ok res ↦ let (u'', rep) = fall_back q at (rdap_report q at res) u' in (u'', ok rep)
      ]

  unfoldable pub store : Text → DomainReport → ℕ → Memory Text → Memory Text
  unfolding ttl_for Cache.set
  store key rep now m = elim (r.encode rep) [
    | none ↦ m
    | some raw ↦ Cache.set m key raw (ttl_for r.policy rep.registered) now
  ]

  -- A cached report that is young enough, as it is answered.
  unfoldable pub usable : ℕ → ℕ → Option Text → Option DomainReport
  usable max_age now none = none
  usable max_age now (some raw) = elim (r.decode raw) [
    | none ↦ none
    | some rep ↦
        if leb (now - rep.source.fetched_at) max_age
        then some (record rep { source = record rep.source { cache = hit } })
        else none
  ]

  -- The cache after it is read, and the report; with no tolerance it is not read.
  unfoldable pub from_cache : Text → ℕ → ℕ → Memory Text → Memory Text × Option DomainReport
  unfolding Cache.get usable
  from_cache key max_age now m =
      let (m', raw) = Cache.get m key now in
      if max_age == 0 then (m, none) else (m', usable max_age now raw)

  abbrev pub stored :
      Text
      → ℕ
      → Memory Text
      → U × Result LookupError DomainReport
      → (Memory Text × U) × Result LookupError DomainReport
  stored key now m (u, err e) = ((m, u), err e)
  stored key now m (u, ok rep) = ((store key rep now m, u), ok rep)

  -- The answer on what the cache gave, with the cache after it was read.
  abbrev pub answer_from :
      Query
      → Options
      → Times
      → U
      → Memory Text × Option DomainReport
      → (Memory Text × U) × Result LookupError DomainReport
  answer_from q opt times u (m, some rep) = ((m, u), ok rep)
  answer_from q opt times u (m, none) =
      stored (cache_key q.ascii) times.stored_at m
        (fresh_report q opt.skip_registrar_referral times.fetched_at u)

  unfoldable pub lookup_query :
      Query
      → Options
      → Times
      → Memory Text × U
      → (Memory Text × U) × Result LookupError DomainReport
  unfolding from_cache fresh_report store
  lookup_query q opt times (m, u) =
      answer_from q opt times u (from_cache (cache_key q.ascii) opt.max_age times.read_at m)

  abbrev refuse :
      Result DomainError Query
      → (Query → (Memory Text × U) × Result LookupError DomainReport)
      → Memory Text × U
      → (Memory Text × U) × Result LookupError DomainReport
  refuse (err e) go s = (s, err (invalid e))
  refuse (ok q) go s = go q

  -- `lookupOnce`.
  unfoldable pub lookup_once :
      Text → Options → Times → Memory Text × U → (Memory Text × U) × Result LookupError DomainReport
  unfolding normalize_query lookup_query
  lookup_once input opt times s =
      refuse (normalize_query r.rules input) (λ q. lookup_query q opt times s) s

  -- `Lookup` for a caller whose call is not collapsed into another.
  unfoldable pub lookup :
      Text → Options → Times → Memory Text × U → (Memory Text × U) × Result LookupError DomainReport
  unfolding lookup_once apply_options
  lookup input opt times s =
      let (s', answer) = lookup_once input opt times s in (s', answer_to opt answer)
