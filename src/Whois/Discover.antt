-- ===== src/Whois/Discover.antt =====
-- internal/whois/discover.go: the WHOIS host of a TLD, from IANA, the cache or the embedded seed. The
-- transport is a parameter that answers a host and a line; splitField and sanitizeHost are in Client.
pub mod Hosts
pub mod Remembered
use whois_mcp.Prelude.{
  ℕ, ◌+◌, Bool, true, false, not, ◌||◌, ◌&&◌, Option, none, some, List, [], ◌∷◌, ◌++◌, Text, codes,
  is_empty, text_eq, Dict, lookup, to_lower, contains, split_on, Result, ok, err, if◌then◌else◌,
}
use whois_mcp.Cache.{Memory, get, set}
use whois_mcp.Whois.Client.{Response, split_field, sanitize_host}
use whois_mcp.Whois.Quirks.{normalize_tld}

abbrev pub iana_host : Text
iana_host = codes "whois.iana.org"

-- 24 hours.
abbrev pub host_ttl : ℕ
host_ttl = 86400000000000

unfoldable pub seed_hosts : Dict Text
seed_hosts =
    (codes "com", codes "whois.verisign-grs.com")
    ∷ (codes "net", codes "whois.verisign-grs.com")
    ∷ (codes "org", codes "whois.publicinterestregistry.org")
    ∷ (codes "info", codes "whois.afilias.net")
    ∷ (codes "biz", codes "whois.nic.biz")
    ∷ (codes "io", codes "whois.nic.io")
    ∷ (codes "dev", codes "whois.nic.google")
    ∷ (codes "app", codes "whois.nic.google")
    ∷ (codes "uk", codes "whois.nic.uk")
    ∷ (codes "de", codes "whois.denic.de")
    ∷ (codes "nl", codes "whois.domain-registry.nl")
    ∷ (codes "fr", codes "whois.nic.fr")
    ∷ (codes "jp", codes "whois.jprs.jp")
    ∷ (codes "ru", codes "whois.tcinet.ru")
    ∷ (codes "br", codes "whois.registro.br")
    ∷ (codes "au", codes "whois.auda.org.au")
    ∷ (codes "ca", codes "whois.cira.ca")
    ∷ (codes "ch", codes "whois.nic.ch")
    ∷ (codes "se", codes "whois.iis.se")
    ∷ (codes "eu", codes "whois.eu")
    ∷ []

abbrev or_empty : Option Text → Text
or_empty none = []
or_empty (some h) = h

unfoldable pub seed_host : Text → Text
unfolding lookup seed_hosts normalize_tld
seed_host tld = or_empty (lookup (normalize_tld tld) seed_hosts)

pub data HostError : Type 0 where
  no_whois_host : Text → HostError
  iana_failed : Text → HostError

-- A host and a line to a response; `none` is an error of the exchange.
abbrev pub Transport : Type 0
Transport = Text → Text → Option Response

unfoldable pub iana_knows_tld : Text → Bool
unfolding contains to_lower
iana_knows_tld body =
    let l = to_lower body in
    if contains (codes "this query returned 0 objects") l
      || contains (codes "not found") l
      || contains (codes "no match") l
    then false
    else contains (codes "domain:") l || contains (codes "whois:") l || contains (codes "refer:") l

-- The loop of `whoisFieldFromIANA`, with the `refer` value so far.
unfoldable pub host_field : Text → List Text → Text
unfolding split_field sanitize_host to_lower
host_field refer [] = refer
host_field refer (line ∷ lines) =
    let rest = host_field refer lines in
    elim (split_field line) [
      | none ↦ rest
      | some (label, value) ↦
          let h = sanitize_host value in
          let referred = host_field h lines in
          if text_eq (to_lower label) (codes "whois")
          then (if is_empty h then rest else h)
          else if text_eq (to_lower label) (codes "refer") && is_empty refer
          then referred
          else rest
    ]

unfoldable pub whois_field_from_iana : Text → Text
unfolding host_field split_on
whois_field_from_iana body = host_field [] (split_on b'\n' body)

-- `query`: `none` is a failure to ask, an empty host is a TLD without a WHOIS server.
unfoldable pub iana_query : Transport → Text → Text → Option Text
unfolding iana_knows_tld whois_field_from_iana
iana_query tr iana tld = elim (tr iana tld) [
  | none ↦ none
  | some resp ↦
      if is_empty resp.raw || not (iana_knows_tld resp.raw)
      then none
      else some (whois_field_from_iana resp.raw)
]

abbrev pub host_key : Text → Text
host_key t = codes "whois:host:" ++ t

-- A cached or answered host; the empty one is the negative answer.
abbrev pub said : Text → Text → Result HostError Text
said t h = if is_empty h then err (no_whois_host t) else ok h

abbrev seeded : Text → Option Text → Result HostError Text
seeded t none = err (iana_failed t)
seeded t (some h) = ok h

-- `none` is the nil cache.
abbrev pub read_cache : Option (Memory Text) → Text → ℕ → Option (Memory Text) × Option Text
read_cache none t now = (none, none)
read_cache (some m) t now = let (m', found) = get m (host_key t) now in (some m', found)

abbrev pub write_cache : Option (Memory Text) → Text → Text → ℕ → Option (Memory Text)
write_cache none t h now = none
write_cache (some m) t h now = some (set m (host_key t) h host_ttl now)

-- `Host` once the cache was read.
unfoldable pub host_missed :
    Text → Option Text → Option (Memory Text) → ℕ → Option (Memory Text) × Result HostError Text
unfolding lookup seed_hosts
host_missed t none c now = (c, seeded t (lookup t seed_hosts))
host_missed t (some h) c now = (write_cache c t h now, said t h)

abbrev pub host_found :
    Transport
    → Text
    → Text
    → ℕ
    → Option (Memory Text)
    → Option Text
    → Option (Memory Text) × Result HostError Text
host_found tr iana t now c (some h) = (c, said t h)
host_found tr iana t now c none = host_missed t (iana_query tr iana t) c now

unfoldable pub host :
    Transport
    → Text
    → Option (Memory Text)
    → Text
    → ℕ
    → Option (Memory Text) × Result HostError Text
unfolding get set iana_query host_missed normalize_tld
host tr iana c tld now =
    let t = normalize_tld tld in
    let (c', found) = read_cache c t now in
    let out = host_found tr iana t now c' found in
    if is_empty t then (c, err (no_whois_host [])) else out
