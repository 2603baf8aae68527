-- ===== src/Normalize/FromRdap.antt =====
-- internal/normalize/fromrdap.go: the report of an RDAP domain. `time.Parse` is a parameter.
pub mod Decoded
pub mod Entities
pub mod Redacted
use whois_mcp.Prelude.{
  ℕ, Bool, true, false, not, ◌||◌, Option, none, some, List, [], ◌∷◌, ◌++◌, Text, codes, is_empty,
  text_eq, to_lower, trim_space, if◌then◌else◌,
}
use whois_mcp.Normalize.Report.{
  Tristate, affirmed, undecided, rdap, Query, Dates, no_dates, Registrar, Nameserver, Dnssec,
  Entity, Source, DomainReport, bare_report,
}
use whois_mcp.Normalize.Epp.{status_meanings}
use whois_mcp.Normalize.FromRdap.Decoded.{Event, RdapNameserver, SecureDns, RdapDomain}
use whois_mcp.Normalize.FromRdap.Entities.{first_non_empty, entities_from}

abbrev pairs_or_none : Option (List Text × List Text) → List Text × List Text
pairs_or_none none = ([], [])
pairs_or_none (some p) = p

-- The nameservers that have a name.
unfoldable pub nameservers_from : List RdapNameserver → List Nameserver
unfolding to_lower first_non_empty
nameservers_from [] = []
nameservers_from (ns ∷ rest) =
    let host = to_lower (first_non_empty (ns.ldh_name ∷ ns.unicode_name ∷ [])) in
    let more = nameservers_from rest in
    if is_empty host
    then more
    else (record {
      host = host;
      ipv4 = (pairs_or_none ns.addresses).0;
      ipv6 = (pairs_or_none ns.addresses).1;
    }
        ∷ more)

abbrev or_unsigned : Option Bool → Bool
or_unsigned none = false
or_unsigned (some signed) = signed

abbrev dnssec_from : Option SecureDns → Option Dnssec
dnssec_from none = none
dnssec_from (some s) =
    some (record { signed = or_unsigned s.delegation_signed; ds_records = s.ds_count })

abbrev rdap_time_layouts : List (Text × Bool)
rdap_time_layouts =
    (codes "2006-01-02T15:04:05Z07:00", true)
    ∷ (codes "2006-01-02T15:04:05Z0700", true)
    ∷ (codes "2006-01-02T15:04:05", false)
    ∷ (codes "2006-01-02 15:04:05", false)
    ∷ (codes "2006-01-02", false)
    ∷ []

abbrev with_date : Text → ℕ → Dates → Dates
with_date action t d =
    if text_eq action (codes "registration")
    then record d { created = some t }
    else if text_eq action (codes "expiration")
    then record d { expires = some t }
    else if text_eq action (codes "last changed")
    then record d { updated = some t }
    else if text_eq action (codes "transfer")
    then record d { transferred = some t }
    else d

abbrev unparseable : Event → Text
unparseable ev = codes "unparseable " ++ (ev.action ++ (codes " date from registry: " ++ ev.date))

module _ (parse_time : Text → Text → Option ℕ) where
  -- The instant, and whether a zone was assumed.
  unfoldable pub by_rdap_layouts : List (Text × Bool) → Text → Option (ℕ × Bool)
  by_rdap_layouts [] s = none
  by_rdap_layouts ((l, has_zone) ∷ ls) s = elim (parse_time l s) [
    | none ↦ by_rdap_layouts ls s
    | some t ↦ some (t, not has_zone)
  ]

  unfoldable pub parse_rdap_time : Text → Option (ℕ × Bool)
  unfolding by_rdap_layouts trim_space
  parse_rdap_time s =
      let t = trim_space s in if is_empty t then none else by_rdap_layouts rdap_time_layouts t

  -- An event, on the dates and warnings so far.
  unfoldable pub note_event : Event → Dates × List Text → Dates × List Text
  unfolding parse_rdap_time to_lower trim_space text_eq
  note_event ev (d, ws) = elim (parse_rdap_time ev.date) [
    | none ↦ (d, if is_empty ev.date then ws else ws ++ unparseable ev ∷ [])
    | some (t, assumed) ↦ (
      with_date (to_lower (trim_space ev.action)) t
          (record d { timezone_assumed = d.timezone_assumed || assumed }),
      ws,
    )
  ]

  unfoldable pub dates_from_events : List Event → Dates × List Text → Dates × List Text
  unfolding note_event
  dates_from_events [] found = found
  dates_from_events (ev ∷ evs) found = dates_from_events evs (note_event ev found)

  unfoldable pub from_rdap : Query → Option RdapDomain → List Text → ℕ → Text → DomainReport
  unfolding dates_from_events entities_from nameservers_from status_meanings
  from_rdap q none servers at state =
      bare_report q undecided
        (record {
          protocol = rdap;
          servers = servers;
          fetched_at = at;
          cache = state;
          parse_confidence = 100;
          raw_available = true;
        })
        []
  from_rdap q (some d) servers at state =
      let (dates, warnings) = dates_from_events d.events (no_dates, []) in
      let (entities, registrar) = entities_from d.entities in
      record {
        query = q;
        registered = affirmed;
        registry_domain_id = d.handle;
        dates = dates;
        registrar = registrar;
        statuses = d.status;
        status_meaning = status_meanings d.status;
        nameservers = nameservers_from d.nameservers;
        dnssec = dnssec_from d.secure_dns;
        entities = entities;
        source = record {
          protocol = rdap;
          servers = servers;
          fetched_at = at;
          cache = state;
          parse_confidence = 100;
          raw_available = true;
        };
        warnings = warnings;
      }
