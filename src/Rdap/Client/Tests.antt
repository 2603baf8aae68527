-- ===== src/Rdap/Client/Tests.antt =====
-- The theorems on the registry of domains and on the RDAP client, at concrete inputs.
use whois_mcp.Prelude.{
  ℕ, ◌+◌, ◌==◌, if◌then◌else◌, true, false, Option, none, some, List, [], ◌∷◌, Text, codes, All, ok,
  ◌≡◌, ◌≢◌, refl, text_eq,
}
use whois_mcp.Normalize.Report.{affirmed, denied, Query}
use whois_mcp.Normalize.FromRdap.Decoded.{RdapDomain}
use whois_mcp.Rdap.Bootstrap.{Document}
use whois_mcp.Rdap.Registry.{
  Registry, Fetched, not_modified, no_response, new_registry, bases_for, refresh,
}
use whois_mcp.Rdap.Registry.Secure.{Secure, refreshed, bases_for-Secure}
use whois_mcp.Rdap.Client.{
  RdapResult, object_does_not_exist, Exchange, rejected, replied, Url, Referred, domain_record,
  follow_registrar_hop, query_with_options,
}
use whois_mcp.Rdap.Client.Answers.{Backed, query_with_options-Backed}
use whois_mcp.Rdap.Client.Referral.{Supplements, follow_registrar_hop-Supplements}

abbrev one : Text
one = codes "https://rdap.one.example/"

abbrev two : Text
two = codes "https://rdap.two.example/"

abbrev document : Document
document = record {
  publication = 7;
  services =
      ((codes "COM" ∷ [])
        ∷ (codes "http://old.example/" ∷ codes "https://rdap.one.example" ∷ two ∷ [])
        ∷ [])
      ∷ [];
}

abbrev registry : Registry
registry = record {
  by_tld = (codes "com", one ∷ two ∷ []) ∷ [];
  publication = 7;
  loaded_at = 3;
  etag = [];
  from_network = false;
}

loaded : new_registry (λ raw. some document) [] 3 ≡ ok registry
unfolding new_registry
loaded = refl

abbrev refreshes : List (Fetched × ℕ)
refreshes = (no_response, 4) ∷ (not_modified, 5) ∷ []

found :
    bases_for (refreshed (λ raw. some document) refreshes registry) (codes "com")
    ≡ some (one ∷ two ∷ [])
unfolding bases_for refresh text_eq
found = refl

bases_for-Secure_example : ((one ∷ two ∷ []) ≢ []) × All Secure (one ∷ two ∷ [])
bases_for-Secure_example =
    bases_for-Secure (λ raw. some document) [] 3 registry refreshes (codes "com") (one ∷ two ∷ [])
      loaded found

abbrev query : Query
query = record {
  input = codes "a.com";
  registrable_domain = codes "a.com";
  ascii = codes "a.com";
  tld = codes "com";
  public_suffix = codes "com";
}

-- The first server is refused by the breaker, the second says that there is no such domain.
abbrev ask : Text → Text → ℕ → ℕ × Exchange
ask ascii base n = (
  n + 1,
  if n == 0
      then rejected (codes "open")
      else replied (record { body = none; url = []; answer = object_does_not_exist (codes "404") }),
)

abbrev url_of : Text → Option Url
url_of t =
    some (record { scheme = codes "https"; host = codes "r.example"; text = t; redacted = t })

abbrev thin : RdapDomain
thin = record {
  handle = codes "H1";
  status = codes "active" ∷ [];
  events = [];
  nameservers = [];
  secure_dns = none;
  entities = [];
  links =
      record {
        rel = codes "related";
        kind = codes "application/rdap+json";
        href = codes "https://r.example/a.com";
      }
      ∷ [];
}

abbrev thick : RdapDomain
thick = record thin { handle = codes "H2"; status = codes "locked" ∷ []; links = [] }

abbrev fetch : Text → Referred
fetch t = domain_record thick

abbrev no_such_domain : RdapResult
no_such_domain = record {
  domain = none;
  raw = [];
  servers = one ∷ two ∷ [];
  registered = denied;
  warnings = codes "open" ∷ [];
}

answered_no :
    (query_with_options (λ t. true) ask url_of fetch registry true query false 0).1
    ≡ ok no_such_domain
unfolding query_with_options
answered_no = refl

query_with_options-Backed_example :
    (bases : List Text) × (bases_for registry (codes "com") ≡ some bases)
    × Backed (λ t. true) (ask (codes "a.com")) denied bases 0
query_with_options-Backed_example =
    query_with_options-Backed (λ t. true) ask url_of fetch registry true false query 0
      no_such_domain answered_no

abbrev thin_result : RdapResult
thin_result = record {
  domain = some thin;
  raw = [];
  servers = one ∷ [];
  registered = affirmed;
  warnings = [];
}

follow_registrar_hop-Supplements_example :
    (d : RdapDomain) × ((follow_registrar_hop url_of fetch thin_result).domain ≡ some d)
    × Supplements thin d
follow_registrar_hop-Supplements_example =
    follow_registrar_hop-Supplements url_of fetch thin_result thin refl
