-- ===== src/Resolve/Tests.antt =====
-- Runs of the resolver on concrete upstreams, and the theorems at concrete inputs.
use whois_mcp.Prelude.{
  lookup, ℕ, ◌+◌, ◌≤◌, ◌<◌, min, Bool, true, false, none, some, List, [], ◌∷◌, Text, codes, text_eq,
  take, length, get_elem?, ok, err, ◌≡◌, refl, ◌⊎◌, arith, if◌then◌else◌,
}
use whois_mcp.Cache.{Memory, get, get_across}
use whois_mcp.Whois.Client.{QueryResult, Warning}
use whois_mcp.Rdap.Client.{RdapResult, no_rdap_service}
use whois_mcp.Normalize.Report.{
  affirmed, denied, undecided, rdap, Query, DomainReport, bare_report, miss,
}
use whois_mcp.Resolve.Ttl.{TtlPolicy, configured, ttl_for, default_ttl_policy, configured-ttl_for}
use whois_mcp.Resolve.Query.{DomainRules, host_from_input}
use whois_mcp.Resolve.Lookup.{
  from_cache, Resolver, Options, Times, fresh_report, whois_report, lookup_query,
}
use whois_mcp.Resolve.Lookup.Denials.{WhoisDenies, fresh_report-denied}
use whois_mcp.Resolve.Lookup.Reuse.{as_hit, lookup_query-lookup_query}
use whois_mcp.Resolve.Availability.{Availability, blank, max_batch, check_availability, batch_key}
use whois_mcp.Resolve.Availability.Batch.{canonical, check_availability-canonical}
use whois_mcp.Whois.Parsers.Classify.{by_template, classify_body, rate_limit_signatures}

host_of_url :
    host_from_input (codes "https://bob@Www.Example.com:8080/a?b#c") ≡ codes "Www.Example.com"
unfolding host_from_input
host_of_url = refl

abbrev longer_unknown : TtlPolicy
longer_unknown = record default_ttl_policy { unknown = 7200000000000 }

configured-ttl_for_example :
    (0 < ttl_for (configured (longer_unknown ∷ []) default_ttl_policy) undecided)
    × (ttl_for (configured (longer_unknown ∷ []) default_ttl_policy) undecided
        ≤ ttl_for (configured (longer_unknown ∷ []) default_ttl_policy) denied)
    × (ttl_for (configured (longer_unknown ∷ []) default_ttl_policy) denied
        ≤ ttl_for (configured (longer_unknown ∷ []) default_ttl_policy) affirmed)
configured-ttl_for_example = configured-ttl_for (longer_unknown ∷ []) denied

abbrev query : Query
query = record {
  input = codes "a.de";
  registrable_domain = codes "a.de";
  ascii = codes "a.de";
  tld = codes "de";
  public_suffix = codes "de";
}

abbrev rules : DomainRules
rules = record {
  to_ascii = λ (t : Text). some t;
  to_unicode = λ (t : Text). some t;
  public_suffix = λ (t : Text). codes "de";
  registrable = λ (t : Text). some t;
}

abbrev free_answer : QueryResult
free_answer = record {
  raw = codes "Domain: a.de\nStatus: free\n";
  chain = [];
  servers = codes "whois.denic.de:43" ∷ [];
  truncated = false;
  warnings = [];
}

-- No RDAP service, and a WHOIS server that says that the domain is free.
abbrev whois_only : Resolver ℕ
whois_only = record {
  rules = rules;
  query_rdap = λ (q : Query) (skip : Bool) (n : ℕ). (n + 1, err no_rdap_service);
  query_whois = some (λ (q : Query) (n : ℕ). (n + 1, ok free_answer));
  texts = λ (w : Warning). [];
  parse_time = λ (layout s : Text). none;
  encode = λ (rep : DomainReport). none;
  decode = λ (raw : Text). none;
  policy = default_ttl_policy;
}

fresh_report_free :
    (fresh_report whois_only query true 9 0).1 ≡ ok (whois_report whois_only query 9 free_answer)
unfolding fresh_report
fresh_report_free = refl

report_is_no : (whois_report whois_only query 9 free_answer).registered ≡ denied
unfolding whois_report classify_body rate_limit_signatures by_template
report_is_no = refl

fresh_report-denied_example :
    ((res : RdapResult) × ((whois_only.query_rdap query true 0).1 ≡ ok res)
      × (res.registered ≡ denied))
    ⊎ WhoisDenies whois_only query
fresh_report-denied_example =
    fresh_report-denied whois_only query true 9 0 (whois_report whois_only query 9 free_answer)
      fresh_report_free report_is_no

-- What RDAP says, and the report of it.
abbrev rdap_says : RdapResult
rdap_says = record { domain = none; raw = []; servers = []; registered = denied; warnings = [] }

abbrev report : DomainReport
report =
    bare_report query denied
      (record {
        protocol = rdap;
        servers = [];
        fetched_at = 10;
        cache = miss;
        parse_confidence = 100;
        raw_available = false;
      })
      []

abbrev rdap_only : Resolver ℕ
rdap_only = record whois_only {
  query_rdap = λ (q : Query) (skip : Bool) (n : ℕ). (n + 1, ok rdap_says);
  query_whois = none;
  encode = λ (rep : DomainReport). some (codes "json");
  decode = λ (raw : Text). if text_eq raw (codes "json") then some report else none;
}

abbrev availability_options : Options
availability_options = record {
  max_age = 0;
  include_contacts = false;
  skip_registrar_referral = true;
}

abbrev full_options : Options
full_options = record { max_age = 60; include_contacts = true; skip_registrar_referral = false }

abbrev times : Times
times = record { read_at = 10; fetched_at = 10; stored_at = 12 }

abbrev later : Times
later = record { read_at = 50; fetched_at = 50; stored_at = 50 }

fresh_report_no : fresh_report rdap_only query true 10 0 ≡ (1, ok report)
unfolding fresh_report
fresh_report_no = refl

report_decodes : rdap_only.decode (codes "json") ≡ some report
unfolding text_eq
report_decodes = refl

lives_long : 0 < ttl_for default_ttl_policy denied
unfolding ttl_for
lives_long = omega arith

still_alive : 50 ≤ 12 + ttl_for default_ttl_policy denied
unfolding ttl_for
still_alive = omega arith

abbrev empty : Memory Text × ℕ
empty = ([], 0)

-- A lookup that would take a cached report, and finds none.
abbrev tolerant_options : Options
tolerant_options = record availability_options { max_age = 60 }

lookup_query-lookup_query_example :
    let s = (lookup_query rdap_only query tolerant_options times empty).0 in
    lookup_query rdap_only query full_options later s ≡ (s, ok (as_hit report))
unfolding from_cache get get_across lookup
lookup_query-lookup_query_example =
    lookup_query-lookup_query rdap_only query tolerant_options full_options times later [] [] 0 1
      report (codes "json") refl fresh_report_no refl report_decodes lives_long still_alive
      (omega arith) (omega arith)

abbrev names : List Text
names = codes "a.com" ∷ codes "b.com" ∷ codes " A.com" ∷ []

abbrev answer : ℕ → Text → Availability
answer i d = blank d i

check_availability-canonical_example :
    (length (check_availability answer 0 names) ≡ min max_batch (length names))
    × (get_elem? (check_availability answer 0 names) 2
        ≡ some (canonical answer (take max_batch names) 2 (codes " A.com")))
check_availability-canonical_example =
    check_availability-canonical answer 0 names 2 (codes " A.com") refl

third_is_first :
    canonical answer (take max_batch names) 2 (codes " A.com") ≡ blank (codes "a.com") 0
unfolding batch_key text_eq
third_is_first = refl
