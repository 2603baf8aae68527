-- ===== src/Resolve/Raw/Bodies.antt =====
-- internal/resolve/raw.go: a payload that was fetched says something.
use whois_mcp.Prelude.{ℕ, ◌≡◌, false, if_cases, none, some, Text, is_empty, Result, ok, err}
use whois_mcp.Cache.{Memory}
use whois_mcp.Whois.Client.{QueryResult}
use whois_mcp.Rdap.Client.{RdapResult, QueryError, no_rdap_service, cancelled}
use whois_mcp.Normalize.Report.{Query}
use whois_mcp.Resolve.Query.{normalize_query}
use whois_mcp.Resolve.Lookup.{Resolver, Times}
use whois_mcp.Resolve.Raw.{
  RawResponse, RawJson, RawError, invalid, upstream, whois_failed, no_raw, State, cached_raw,
  rdap_body, whois_body, stored_raw, raw_rdap_of, raw_rdap, raw_whois_by, raw_whois_of, raw_whois,
  raw_auto, auto_from,
}

-- If there is a payload, it is not empty.
abbrev pub Full : Result RawError RawResponse → Type 0
Full (err e) = Unit
Full (ok out) = is_empty out.body ≡ false

module _ {U : Type 0} (r : Resolver U) (j : RawJson) where
  rdap_body-Full :
      (q : Query) (at : ℕ) (a : Result QueryError RdapResult) → Full (rdap_body r j q at a)
  unfolding rdap_body
  rdap_body-Full q at (err e) = tt
  rdap_body-Full q at (ok res) = if_cases Full (is_empty res.raw) _ _ (λ _. tt) (λ e. e)

  whois_body-Full :
      (q : Query) (at : ℕ) (a : Result Text QueryResult) → Full (whois_body r j q at a)
  unfolding whois_body
  whois_body-Full q at (err e) = tt
  whois_body-Full q at (ok res) = if_cases Full (is_empty res.raw) _ _ (λ _. tt) (λ e. e)

  stored_raw-Full :
      (key : Text) (now : ℕ) (m : Memory Text) (u : U) (a : Result RawError RawResponse)
      → Full a
      → Full (stored_raw r j key now m u a).1
  stored_raw-Full key now m u (err e) f = f
  stored_raw-Full key now m u (ok out) f = f

  raw_rdap-Full :
      (input : Text) (times : Times) (s : State r j) → Full (raw_rdap r j input 0 times s).1
  unfolding raw_rdap cached_raw
  raw_rdap-Full input times (m, u) =
      elim (normalize_query r.rules input) as (λ q. Full (raw_rdap_of r j q 0 times (m, u)).1) [
        | err e ↦ tt
        | ok q ↦ stored_raw-Full _ times.stored_at m _ _ (rdap_body-Full q times.fetched_at _)
      ]

  raw_whois-Full :
      (input : Text) (times : Times) (s : State r j) → Full (raw_whois r j input 0 times s).1
  unfolding raw_whois cached_raw
  raw_whois-Full input times (m, u) =
      elim (normalize_query r.rules input) as (λ q. Full (raw_whois_of r j q 0 times (m, u)).1) [
        | err e ↦ tt
        | ok q ↦ elim r.query_whois as (λ o. Full (raw_whois_by r j o q 0 times (m, u)).1) [
          | none ↦ tt
          | some ask ↦
              stored_raw-Full _ times.stored_at m _ _ (whois_body-Full q times.fetched_at _)
        ]
      ]

  auto_from-Full :
      (input : Text) (times : Times) (x : State r j × Result RawError RawResponse)
      → Full x.1
      → Full (auto_from r j input 0 times x).1
  auto_from-Full input times (s, ok out) f = f
  auto_from-Full input times (s, err no_raw) f = raw_whois-Full input times s
  auto_from-Full input times (s, err (upstream no_rdap_service)) f = raw_whois-Full input times s
  auto_from-Full input times (s, err (upstream cancelled)) f = tt
  auto_from-Full input times (s, err (invalid e)) f = tt
  auto_from-Full input times (s, err (whois_failed e)) f = tt

  -- A payload that is fetched afresh, over either protocol, is not empty: an empty answer is an error.
  pub raw_auto-Full :
      (input : Text) (times times' : Times) (s : State r j)
      → Full (raw_auto r j input 0 times times' s).1
  unfolding raw_auto
  raw_auto-Full input times times' s =
      auto_from-Full input times' (raw_rdap r j input 0 times s) (raw_rdap-Full input times s)
