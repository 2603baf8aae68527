-- ===== src/Whois/Tests.antt =====
-- internal/whois: the theorems on the WHOIS client at concrete inputs.
use whois_mcp.Prelude.{
  ◌≤◌, ◌≡◌, ◌≢◌, refl, true, false, Option, none, some, [], Text, codes, text_eq, text_eq_false→ne,
  length, if◌then◌else◌, cut, cut_last, contains, split_on, to_lower, trim_space, trim_right,
  trim_last, has_prefix, lookup, insert, cut_prefix, has_any, arith,
}
use whois_mcp.Whois.Client.{
  Response, QueryResult, client_query, max_referral_hops, referral_host, split_field, sanitize_host,
  has_forbidden, note_lines, note_label, first_found,
}
use whois_mcp.Whois.Quirks.{normalize_tld}
use whois_mcp.Whois.Discover.{
  Transport, iana_host, iana_query, iana_knows_tld, whois_field_from_iana, host_field, host,
}
use whois_mcp.Whois.Discover.Hosts.{Sound, iana_host-HostText, All-has_forbidden}
use whois_mcp.Whois.Discover.Remembered.{host-host}
use whois_mcp.Whois.Query.{query}
use whois_mcp.Whois.Query.Asked.{Alike, query-Alike}
use whois_mcp.Cache.{get, get_across}
use whois_mcp.Whois.Transport.{Stream, cap_of, normalize_host, receive, transport_query}
use whois_mcp.Whois.Transport.Received.{Holds, transport_query-Holds}
use whois_mcp.Whois.Client.Hops.{client_query_answers}

abbrev registry_says : Response
registry_says = record {
  host = codes "whois.nic.example:43";
  query = codes "a.example";
  raw = codes "% terms\nDomain: a.example\nRegistrar WHOIS Server: WHOIS.Registrar.Example.\n";
  truncated = false;
}

referral_of_registry : referral_host registry_says.raw ≡ codes "whois.registrar.example"
unfolding referral_host split_field sanitize_host has_forbidden note_lines note_label first_found
    cut cut_last contains split_on to_lower trim_space trim_right trim_last has_prefix lookup insert
    text_eq
referral_of_registry = refl

-- Only the registry answers.
abbrev transport : Text → Option Response
transport host = if text_eq host (codes "whois.nic.example") then some registry_says else none

client_query_answers_example :
    (after : QueryResult) × (client_query transport true (codes "whois.nic.example") ≡ some after)
    × (after.raw ≢ [])
    × (1 ≤ length after.chain)
    × (length after.chain ≤ max_referral_hops)
unfolding text_eq
client_query_answers_example =
    client_query_answers transport true (codes "whois.nic.example") registry_says refl
      (text_eq_false→ne registry_says.raw [] refl)

-- IANA and the registry of .de; nothing else answers.
abbrev says : Text → Text → Text → Response
says host line raw = record { host = host; query = line; raw = raw; truncated = false }

abbrev network : Transport
network host line =
    if text_eq host iana_host
    then some (says host line (codes "domain: DE\nwhois: whois.denic.de\n"))
    else if text_eq host (codes "whois.denic.de")
    then some (says host line (codes "Status: connect\n"))
    else none

-- One that also answers what is no host name.
abbrev open_network : Transport
open_network host line =
    if has_forbidden host then some (says host line (codes "inside")) else network host line

network-Alike : Alike network open_network
network-Alike h line (clean, dotted) = rw (All-has_forbidden h clean) refl

query-Alike_example :
    (query network iana_host (some []) (codes "de") (codes "a.de") 5
      ≡ query open_network iana_host (some []) (codes "de") (codes "a.de") 5)
    × Sound (query network iana_host (some []) (codes "de") (codes "a.de") 5).0
unfolding has_forbidden contains cut cut_prefix lookup
query-Alike_example =
    query-Alike network open_network network-Alike iana_host (some []) (codes "de") (codes "a.de") 5
      iana_host-HostText (λ m e t f found. ground arith)

-- The network is down.
abbrev silence : Transport
silence host line = none

host-host_example :
    let first = host network iana_host (some []) (codes ".DE") 5 in
    host silence iana_host first.0 (codes ".DE") 90 ≡ first
unfolding normalize_tld iana_query iana_knows_tld whois_field_from_iana host_field split_field
    sanitize_host has_forbidden contains cut cut_prefix split_on to_lower trim_space trim_right
    trim_last has_prefix text_eq get get_across lookup
host-host_example =
    host-host (codes ".DE") refl network silence iana_host [] 5 90 (codes "whois.denic.de") refl
      refl (omega arith)

-- A server that sends ten bytes and resets the connection.
abbrev resets : Text → Text → Option Stream
resets addr line = some (record { bytes = codes "0123456789"; breaks = true })

abbrev cut_response : Response
cut_response = record {
  host = codes "whois.a:43";
  query = codes "a";
  raw = codes "0123";
  truncated = true;
}

transport_query-Holds_example :
    (addr : Text) × (s : Stream) × (normalize_host (λ h. contains (codes ":") h) (codes "whois.a.")
      ≡ some addr)
    × (resets addr (codes "a") ≡ some s)
    × Holds (cap_of 4) s cut_response
unfolding transport_query normalize_host receive cap_of trim_space trim_last contains cut cut_prefix
    has_any
transport_query-Holds_example =
    transport_query-Holds (λ h. contains (codes ":") h) resets 4 (codes "whois.a.") (codes "a")
      cut_response refl
