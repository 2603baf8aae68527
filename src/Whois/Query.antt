-- ===== src/Whois/Query.antt =====
-- internal/whois/client.go: `Query` in full, with the discovery of the host and the TLD's quirks.
pub mod Asked
use whois_mcp.Prelude.{
  ℕ, Bool, true, false, Option, none, some, Text, is_empty, Result, ok, err, if◌then◌else◌,
}
use whois_mcp.Cache.{Memory}
use whois_mcp.Whois.Client.{Response, QueryResult, client_query}
use whois_mcp.Whois.Quirks.{query_for, host_for, referrals_allowed}
use whois_mcp.Whois.Discover.{HostError, Transport, host}

pub data QueryError : Type 0 where
  host_error : HostError → QueryError
  first_failed : Text → QueryError

-- The host to ask: that of the quirk, or the discovered one.
unfoldable pub host_to_ask :
    Transport
    → Text
    → Option (Memory Text)
    → Text
    → ℕ
    → Option (Memory Text) × Result HostError Text
unfolding host_for host
host_to_ask tr iana c tld now =
    let quirk = host_for tld in
    let discovered = host tr iana c tld now in if is_empty quirk then discovered else (c, ok quirk)

abbrev first_error : Text → Option QueryResult → Result QueryError QueryResult
first_error h none = err (first_failed h)
first_error h (some res) = ok res

unfoldable pub ask_host :
    Transport → Text → Text → Result HostError Text → Result QueryError QueryResult
unfolding client_query query_for referrals_allowed
ask_host tr tld ascii (err e) = err (host_error e)
ask_host tr tld ascii (ok h) =
    first_error h
      (client_query (λ (to : Text). tr to (query_for tld ascii)) (referrals_allowed tld) h)

unfoldable pub query :
    Transport
    → Text
    → Option (Memory Text)
    → Text
    → Text
    → ℕ
    → Option (Memory Text) × Result QueryError QueryResult
unfolding host_to_ask ask_host
query tr iana c tld ascii now =
    let (c', found) = host_to_ask tr iana c tld now in (c', ask_host tr tld ascii found)
