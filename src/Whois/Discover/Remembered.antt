-- ===== src/Whois/Discover/Remembered.antt =====
-- internal/whois/discover.go: what an answer of IANA's, or a failure, leaves for the next lookup.
use whois_mcp.Prelude.{
  ℕ, ◌+◌, ◌≤◌, ◌≡◌, ◌∙◌, refl, ap, false, Option, none, some, Text, is_empty, lookup-insert_self,
  lookup-delete_self, arith,
}
use whois_mcp.Cache.{Memory, get, get_across, evict, set}
use whois_mcp.Whois.Quirks.{normalize_tld}
use whois_mcp.Whois.Discover.{
  Transport, iana_query, host_key, host_ttl, said, read_cache, host_missed, host_found, host,
}

-- What an answer leaves in the cache is what a later read finds.
get-set :
    (m : Memory Text) (key h : Text) (now later : ℕ)
    → later ≤ now + host_ttl
    → get (set m key h host_ttl now) key later ≡ (set m key h host_ttl now, some h)
unfolding get get_across set
get-set m key h now later young =
    ground (arith, lookup-insert_self key (record { val = h; expires_at = now + host_ttl }) m)

-- A read that found nothing leaves nothing to be found.
get-get :
    (m : Memory Text) (key : Text) (now later : ℕ)
    → (get m key now).1 ≡ none
    → (get (get m key now).0 key later).1 ≡ none
unfolding get get_across evict
get-get m key now later miss = ground (arith, lookup-delete_self key m)

module _ (tld : Text) (named : is_empty (normalize_tld tld) ≡ false) where
  host_read :
      (tr : Transport) (iana : Text) (c : Option (Memory Text)) (now : ℕ)
      → host tr iana c tld now
        ≡ host_found tr iana
            (normalize_tld tld)
            now
            (read_cache c (normalize_tld tld) now).0
            (read_cache c (normalize_tld tld) now).1
  unfolding host
  host_read tr iana c now = rw (host, named) refl

  abbrev pub key : Text
  key = host_key (normalize_tld tld)

  host_asked :
      (tr : Transport) (iana : Text) (m : Memory Text) (now : ℕ)
      → (get m key now).1 ≡ none
      → host tr iana (some m) tld now
        ≡ host_missed
            (normalize_tld tld)
            (iana_query tr iana (normalize_tld tld))
            (some (get m key now).0)
            now
  host_asked tr iana m now miss =
      host_read tr iana (some m) now
      ∙ ap (host_found tr iana (normalize_tld tld) now (some (get m key now).0)) miss

  -- An answer of IANA's about a TLD is asked for once in 24 hours, also the answer that the TLD has
  -- no WHOIS server: when the cache had none and IANA answered, a lookup until 24 hours later gives
  -- the same result and leaves the cache as it is, whatever the network does then.
  pub host-host :
      (tr tr' : Transport) (iana : Text) (m : Memory Text) (now later : ℕ) (h : Text)
      → (get m key now).1 ≡ none
      → iana_query tr iana (normalize_tld tld) ≡ some h
      → later ≤ now + host_ttl
      → let first = host tr iana (some m) tld now in host tr' iana first.0 tld later ≡ first
  unfolding host_missed
  host-host tr tr' iana m now later h miss answer young =
      let t = normalize_tld tld in
      let m' = set (get m key now).0 key h host_ttl now in
      let first : host tr iana (some m) tld now ≡ (some m', said t h) =
        host_asked tr iana m now miss
        ∙ ap (λ (o : Option Text). host_missed t o (some (get m key now).0) now) answer in
      rw first (
        host_read tr' iana (some m') later
        ∙ ap (λ (r : Memory Text × Option Text). host_found tr' iana t later (some r.0) r.1)
            (get-set (get m key now).0 key h now later young))

  -- A failure to ask is not remembered: the next lookup asks again.
  pub host_failed :
      (tr tr' : Transport) (iana : Text) (m : Memory Text) (now later : ℕ)
      → (get m key now).1 ≡ none
      → iana_query tr iana (normalize_tld tld) ≡ none
      → let left = (get (get m key now).0 key later).0 in
        host tr' iana (host tr iana (some m) tld now).0 tld later
        ≡ host_missed
            (normalize_tld tld)
            (iana_query tr' iana (normalize_tld tld))
            (some left)
            later
  unfolding host_missed
  host_failed tr tr' iana m now later miss fails =
      let t = normalize_tld tld in
      let first =
        host_asked tr iana m now miss
        ∙ ap (λ (o : Option Text). host_missed t o (some (get m key now).0) now) fails in
      rw first (host_asked tr' iana (get m key now).0 later (get-get m key now later miss))
