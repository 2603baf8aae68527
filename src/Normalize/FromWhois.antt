-- ===== src/Normalize/FromWhois.antt =====
-- internal/normalize/fromwhois.go: the report of a parsed WHOIS response.
pub mod Withheld
use whois_mcp.Prelude.{
  ℕ, Bool, true, false, not, ◌&&◌, ◌||◌, Option, none, some, List, [], ◌∷◌, ◌++◌, Text, codes,
  is_empty, ltb, ◌==◌, if◌then◌else◌,
}
use whois_mcp.Whois.Parsers.Contacts.{Contact}
use whois_mcp.Whois.Parsers.Report.{Parsed}
use whois_mcp.Normalize.Report.{
  Tristate, undecided, whois, Query, Registrar, Nameserver, Dnssec, Entity, Source, DomainReport,
  bare_report,
}
use whois_mcp.Normalize.Epp.{status_meanings}

abbrev nameservers_of : List Text → List Nameserver
nameservers_of [] = []
nameservers_of (h ∷ hs) = record { host = h; ipv4 = []; ipv6 = [] } ∷ nameservers_of hs

abbrev dnssec_of : Parsed → Option Dnssec
dnssec_of p =
    if p.dnssec_stated then some (record { signed = p.dnssec_signed; ds_records = 0 }) else none

-- A registrar with a name, an identifier or an abuse address.
abbrev registrar_of : Parsed → Option Registrar
registrar_of p =
    if not (is_empty p.registrar_name)
      || not (p.registrar_iana_id.1 == 0)
      || not (is_empty p.abuse_email)
    then some (record {
      name = p.registrar_name;
      iana_id = p.registrar_iana_id;
      url = p.registrar_url;
      abuse_email = p.abuse_email;
      abuse_phone = p.abuse_phone;
    })
    else none

abbrev pub entity_of : Contact → Entity
entity_of c = record {
  role = c.role;
  redacted = c.redacted;
  reason = c.reason;
  name = c.name;
  organization = c.organization;
  email = c.email;
  phone = c.phone;
  country = c.country;
}

unfoldable pub entities_of : List (Option Contact) → List Entity
entities_of [] = []
entities_of (none ∷ cs) = entities_of cs
entities_of (some c ∷ cs) = entity_of c ∷ entities_of cs

abbrev low_confidence : Text
low_confidence =
    codes
      "WHOIS response parsed with low confidence; prefer the raw text via whois_raw for anything load-bearing"

abbrev zone_warning : Text
zone_warning = codes "at least one date carried no timezone and was read as UTC"

abbrev parse_warnings : Parsed → List Text
parse_warnings p =
    (if ltb p.confidence 50 then low_confidence ∷ [] else [])
    ++ (if p.timezone_assumed then zone_warning ∷ [] else [])

unfoldable pub from_whois :
    Query → Option Parsed → Tristate → List Text → ℕ → Text → Bool → DomainReport
unfolding entities_of status_meanings
from_whois q none registered servers at state raw_available =
    bare_report q undecided
      (record {
        protocol = whois;
        servers = servers;
        fetched_at = at;
        cache = state;
        parse_confidence = 0;
        raw_available = raw_available;
      })
      []
from_whois q (some p) registered servers at state raw_available = record {
  query = q;
  registered = registered;
  registry_domain_id = p.registry_domain_id;
  dates = record {
    created = p.created;
    updated = p.updated;
    expires = p.expires;
    transferred = p.transferred;
    timezone_assumed = p.timezone_assumed;
  };
  registrar = registrar_of p;
  statuses = p.statuses;
  status_meaning = status_meanings p.statuses;
  nameservers = nameservers_of p.nameservers;
  dnssec = dnssec_of p;
  entities = entities_of (p.registrant ∷ p.admin ∷ p.tech ∷ []);
  source = record {
    protocol = whois;
    servers = servers;
    fetched_at = at;
    cache = state;
    parse_confidence = p.confidence;
    raw_available = raw_available;
  };
  warnings = parse_warnings p;
}
