-- ===== src/Whois/Query/Asked.antt =====
-- internal/whois/client.go: which servers a query asks.
use whois_mcp.Prelude.{
  ℕ, zero, suc, ◌≡◌, ◌∙◌, inl, inr, refl, subst, ap, Bool-cases, Bool, true, false, not, ◌&&◌,
  if_cases, Option, none, some, Option-cases, List, [], ◌∷◌, Text, is_empty, text_eq, Dict, lookup,
  lookup-insert, to_lower, split_on, Result, ok, err, if◌then◌else◌, arith,
}
use whois_mcp.Cache.{Memory}
use whois_mcp.Whois.Client.{
  Response, QueryResult, split_field, sanitize_host, referral_labels, note_label, note_lines,
  first_found, referral_host, next_host, query_hops, client_query, keep_first, record_hop,
  no_result, max_referral_hops,
}
use whois_mcp.Whois.Quirks.{
  Quirk, quirks, normalize_tld, quirk_for, query_for, host_for, referrals_allowed,
}
use whois_mcp.Whois.Discover.{
  HostError, Transport, iana_query, host_missed, host_found, host, read_cache, no_whois_host,
}
use whois_mcp.Whois.Discover.Hosts.{
  HostText, HostOrEmpty, sanitize_host-HostOrEmpty, Sound, Yields, host-Yields,
}
use whois_mcp.Whois.Query.{QueryError, host_to_ask, ask_host, query}

-- The referral targets that were noted.
abbrev AllHosts : Dict Text → Type 0
AllHosts d = (k v : Text) → lookup k d ≡ some v → HostText v

keep_first-AllHosts :
    (want h : Text) (found : Dict Text) (o : Option Text)
    → HostOrEmpty h
    → AllHosts found
    → AllHosts (keep_first want h found o)
keep_first-AllHosts want h found (some w) b a = a
keep_first-AllHosts want [] found none b a = a
keep_first-AllHosts want (c ∷ h) found none (inl e) a = absurd (ground arith)
keep_first-AllHosts want (c ∷ h) found none (inr named) a = λ k v e.
    elim (Bool-cases (text_eq want k)) [
      | inl same ↦ subst HostText (ground (arith, lookup-insert want k (c ∷ h) found)) named
      | inr other ↦ a k v (ground (arith, lookup-insert want k (c ∷ h) found))
    ]

note_label-AllHosts :
    (l value : Text) (wants : List Text) (found : Dict Text)
    → AllHosts found
    → AllHosts (note_label l value wants found)
unfolding note_label
note_label-AllHosts l value [] found a = a
note_label-AllHosts l value (want ∷ wants) found a = note_label-AllHosts l value wants _ (
    if_cases AllHosts (text_eq l want) _ found
      (λ _.
        keep_first-AllHosts want (sanitize_host value) found (lookup want found)
          (sanitize_host-HostOrEmpty value) a)
      (λ _. a))

note_lines-AllHosts :
    (lines : List Text) (found : Dict Text) → AllHosts found → AllHosts (note_lines lines found)
unfolding note_lines
note_lines-AllHosts [] found a = a
note_lines-AllHosts (line ∷ lines) found a = elim (Option-cases (split_field line)) [
  | inl e ↦ rw (e, note_lines) (note_lines-AllHosts lines found a)
  | inr ((label, value), e) ↦
      rw (e, note_lines)
        (note_lines-AllHosts lines _
          (note_label-AllHosts (to_lower label) value referral_labels found a))
]

first_found-HostOrEmpty :
    (wants : List Text) (found : Dict Text) → AllHosts found → HostOrEmpty (first_found wants found)
unfolding first_found
first_found-HostOrEmpty [] found a = inl refl
first_found-HostOrEmpty (want ∷ wants) found a = elim (Option-cases (lookup want found)) [
  | inl e ↦ rw (e, first_found) (first_found-HostOrEmpty wants found a)
  | inr (h, e) ↦ rw (e, first_found) (inr (a want h e))
]

referral_host-HostOrEmpty : (body : Text) → HostOrEmpty (referral_host body)
unfolding referral_host lookup
referral_host-HostOrEmpty body =
    first_found-HostOrEmpty referral_labels _
      (note_lines-AllHosts (split_on b'\n' body) [] (λ k v e. ground arith))

next_host-HostOrEmpty : (allowed : Bool) (resp : Response) → HostOrEmpty (next_host allowed resp)
unfolding next_host
next_host-HostOrEmpty allowed resp =
    if_cases HostOrEmpty (allowed && not (is_empty resp.raw)) _ []
      (λ _.
        if_cases HostOrEmpty _ [] (referral_host resp.raw) (λ _. inl refl)
          (λ _. referral_host-HostOrEmpty resp.raw))
      (λ _. inl refl)

-- No quirk names a host.
names_no_host : Dict Quirk → Bool
names_no_host [] = true
names_no_host ((t, q) ∷ d) = is_empty q.host && names_no_host d

lookup-names_no_host :
    (t : Text) (d : Dict Quirk) (q : Quirk)
    → names_no_host d ≡ true
    → lookup t d ≡ some q
    → is_empty q.host ≡ true
unfolding lookup names_no_host
lookup-names_no_host t [] q n e = ground arith
lookup-names_no_host t ((k, r) ∷ d) q n e = ground (arith, lookup-names_no_host t d q)

host_for_empty : (tld : Text) → is_empty (host_for tld) ≡ true
unfolding host_for quirk_for quirks names_no_host
host_for_empty tld = elim (Option-cases (lookup (normalize_tld tld) quirks)) [
  | inl e ↦ rw (e, host_for, quirk_for) refl
  | inr (q, e) ↦
      rw (e, host_for, quirk_for) (lookup-names_no_host (normalize_tld tld) quirks q refl e)
]

-- Two networks that answer host names alike.
abbrev pub Alike : Transport → Transport → Type 0
Alike tr tr' = (h line : Text) → HostText h → tr h line ≡ tr' h line

module _ (tr tr' : Transport) (alike : Alike tr tr') where
  iana_query-Alike : (iana t : Text) → HostText iana → iana_query tr iana t ≡ iana_query tr' iana t
  unfolding iana_query
  iana_query-Alike iana t b = rw (alike iana t b, iana_query) refl

  host_found-Alike :
      (iana t : Text) (now : ℕ) (c : Option (Memory Text)) (o : Option Text)
      → HostText iana
      → host_found tr iana t now c o ≡ host_found tr' iana t now c o
  host_found-Alike iana t now c (some h) b = refl
  host_found-Alike iana t now c none b =
      ap (λ (o : Option Text). host_missed t o c now) (iana_query-Alike iana t b)

  host-Alike :
      (iana : Text) (c : Option (Memory Text)) (tld : Text) (now : ℕ)
      → HostText iana
      → host tr iana c tld now ≡ host tr' iana c tld now
  unfolding host
  host-Alike iana c tld now b =
      let t = normalize_tld tld in
      let r = read_cache c t now in
      ap
        (λ (out : Option (Memory Text) × Result HostError Text).
          if is_empty t then (c, err (no_whois_host [])) else out)
        (host_found-Alike iana t now r.0 r.1 b)

  module _ (line : Text) (allowed : Bool) where
    asks : Transport → Text → Option Response
    asks net to = net to line

    query_hops-Alike :
        (left : ℕ) (first : Bool) (seen : List Text) (h : Text) (res : QueryResult)
        → HostText h
        → query_hops (asks tr) allowed left first seen h res
          ≡ query_hops (asks tr') allowed left first seen h res
    unfolding query_hops asks
    query_hops-Alike zero first seen h res b = refl
    query_hops-Alike (suc left) first seen h res b = elim (Option-cases (tr' h line)) [
      | inl e ↦ rw (alike h line b, e, query_hops) refl
      | inr (resp, e) ↦ elim (next_host-HostOrEmpty allowed resp) [
        | inl stop ↦ rw (alike h line b, e, query_hops, stop) refl
        | inr next ↦
            rw
              (
                alike h line b,
                e,
                query_hops,
                query_hops-Alike left false (to_lower h ∷ seen) (next_host allowed resp)
                    (record_hop allowed first resp res) next,
              )
              refl
      ]
    ]

    client_query-Alike :
        (h : Text)
        → HostText h
        → client_query (asks tr) allowed h ≡ client_query (asks tr') allowed h
    unfolding client_query
    client_query-Alike h b =
        rw (client_query, query_hops-Alike max_referral_hops true [] h no_result b) refl

  ask_host-Alike :
      (tld ascii : Text) (out : Result HostError Text)
      → ((h : Text) → out ≡ ok h → HostText h)
      → ask_host tr tld ascii out ≡ ask_host tr' tld ascii out
  unfolding ask_host asks
  ask_host-Alike tld ascii (err e) b = refl
  ask_host-Alike tld ascii (ok h) b =
      rw (client_query-Alike (query_for tld ascii) (referrals_allowed tld) h (b h refl)) refl

  host_to_ask-Alike :
      (iana : Text) (c : Option (Memory Text)) (tld : Text) (now : ℕ)
      → HostText iana
      → host_to_ask tr iana c tld now ≡ host_to_ask tr' iana c tld now
  unfolding host_to_ask
  host_to_ask-Alike iana c tld now b =
      ap
        (λ (out : Option (Memory Text) × Result HostError Text).
          if is_empty (host_for tld) then out else (c, ok (host_for tld)))
        (host-Alike iana c tld now b)

  host_to_ask-Yields :
      (iana : Text) (c : Option (Memory Text)) (tld : Text) (now : ℕ)
      → Sound c
      → Yields (host_to_ask tr iana c tld now)
  unfolding host_to_ask
  host_to_ask-Yields iana c tld now s =
      rw (host_to_ask, host_for_empty tld) (host-Yields tr iana c tld now s)

  -- A query of a domain depends on a network only through what host names answer, with or without a
  -- port: texts with a dot and no blank, tab, slash, backslash or at sign. Given such a name of IANA's
  -- server and a cache of such names, two networks that answer those alike give the same result and
  -- cache: the discovered host, the cached one and each referral are such texts. And the cache that
  -- is left holds only such names again.
  pub query-Alike :
      (iana : Text) (c : Option (Memory Text)) (tld ascii : Text) (now : ℕ)
      → HostText iana
      → Sound c
      → (query tr iana c tld ascii now ≡ query tr' iana c tld ascii now)
        × Sound (query tr iana c tld ascii now).0
  unfolding query
  query-Alike iana c tld ascii now b s =
      let asked = host_to_ask tr iana c tld now in
      let y = host_to_ask-Yields iana c tld now s in
      (
        ap (λ (out : Result QueryError QueryResult). (asked.0, out))
              (ask_host-Alike tld ascii asked.1 y.1)
            ∙ ap
                (λ (r : Option (Memory Text) × Result HostError Text).
                  (r.0, ask_host tr' tld ascii r.1))
                (host_to_ask-Alike iana c tld now b),
        y.0,
      )
