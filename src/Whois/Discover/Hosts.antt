-- ===== src/Whois/Discover/Hosts.antt =====
-- internal/whois/discover.go: what becomes a dial target is a host name, perhaps with a port.
use whois_mcp.Prelude.{
  All, Occurs, contains→Occurs, subst, ℕ, ◌+◌, ◌≡◌, ◌⊎◌, inl, inr, refl, Bool, true, false, not,
  ◌||◌, ◌&&◌, if_cases, Option, none, some, Option-cases, List, [], ◌∷◌, Text, codes, is_empty,
  text_eq, Dict, lookup, lookup-insert, lookup-delete, lower_byte, to_lower, trim_space, trim_last,
  cut_prefix, cut, contains, split_on, Result, ok, err, arith,
}
use whois_mcp.Cache.{Entry, Memory, get, get_across, evict, set}
use whois_mcp.Whois.Client.{split_field, has_forbidden, sanitize_host}
use whois_mcp.Whois.Quirks.{normalize_tld}
use whois_mcp.Whois.Discover.{
  iana_host, seed_hosts, HostError, Transport, host_field, whois_field_from_iana, iana_query,
  host_key, said, read_cache, write_cache, host_missed, host_found, host, host_ttl, no_whois_host,
}

-- A blank, a tab, a slash, a backslash or an at sign.
abbrev pub Refused : ℕ → Type 0
Refused c = (c ≡ 32) ⊎ (c ≡ 9) ⊎ (c ≡ 47) ⊎ (c ≡ 92) ⊎ (c ≡ 64)

-- What has a dot and none of these bytes: a host name, which a port may follow.
abbrev pub HostText : Text → Type 0
HostText h = All (λ c. ¬ Refused c) h × Occurs (codes ".") h

abbrev pub HostOrEmpty : Text → Type 0
HostOrEmpty h = (h ≡ []) ⊎ HostText h

has_forbidden-to_lower : (h : Text) → has_forbidden (to_lower h) ≡ has_forbidden h
unfolding has_forbidden to_lower lower_byte
has_forbidden-to_lower [] = refl
has_forbidden-to_lower (c ∷ h) = ground (arith, has_forbidden-to_lower h)

contains_dot-to_lower : (h : Text) → contains (codes ".") (to_lower h) ≡ contains (codes ".") h
unfolding contains cut cut_prefix to_lower lower_byte
contains_dot-to_lower [] = refl
contains_dot-to_lower (c ∷ h) = ground (arith, contains_dot-to_lower h)

has_forbidden-All : (h : Text) → has_forbidden h ≡ false → All (λ c. ¬ Refused c) h
unfolding has_forbidden
has_forbidden-All [] e = tt
has_forbidden-All (c ∷ h) e = ((λ r. ground arith), has_forbidden-All h (ground arith))

pub All-has_forbidden : (h : Text) → All (λ c. ¬ Refused c) h → has_forbidden h ≡ false
unfolding has_forbidden
All-has_forbidden [] a = refl
All-has_forbidden (c ∷ h) a = ground (arith, a.0, All-has_forbidden h a.1)

tested_host : (h : Text) → has_forbidden h ≡ false → contains (codes ".") h ≡ true → HostText h
tested_host h clean dotted = (has_forbidden-All h clean, contains→Occurs (codes ".") h dotted)

lowered_host :
    (h : Text)
    → (is_empty h || has_forbidden h || not (contains (codes ".") h)) ≡ false
    → HostText (to_lower h)
lowered_host h e =
    tested_host (to_lower h) (ground (arith, has_forbidden-to_lower h))
      (ground (arith, contains_dot-to_lower h))

pub sanitize_host-HostOrEmpty : (v : Text) → HostOrEmpty (sanitize_host v)
unfolding sanitize_host
sanitize_host-HostOrEmpty v =
    let h = trim_space (trim_last b'.' (trim_space v)) in
    if_cases HostOrEmpty (is_empty h || has_forbidden h || not (contains (codes ".") h)) []
      (to_lower h) (λ _. inl refl) (λ e. inr (lowered_host h e))

host_field-HostOrEmpty :
    (refer : Text) (lines : List Text) → HostOrEmpty refer → HostOrEmpty (host_field refer lines)
unfolding host_field
host_field-HostOrEmpty refer [] b = b
host_field-HostOrEmpty refer (line ∷ lines) b = elim (Option-cases (split_field line)) [
  | inl e ↦ rw (e, host_field) (host_field-HostOrEmpty refer lines b)
  | inr ((label, value), e) ↦
      let h = sanitize_host value in
      let rest = host_field-HostOrEmpty refer lines b in
      rw (e, host_field)
        (if_cases HostOrEmpty (text_eq (to_lower label) (codes "whois")) _ _
          (λ _.
            if_cases HostOrEmpty (is_empty h) _ _ (λ _. rest)
              (λ _. sanitize_host-HostOrEmpty value))
          (λ _.
            if_cases HostOrEmpty (text_eq (to_lower label) (codes "refer") && is_empty refer) _ _
              (λ _. host_field-HostOrEmpty h lines (sanitize_host-HostOrEmpty value)) (λ _. rest)))
]

iana_query-HostOrEmpty :
    (tr : Transport) (iana t : Text) {h : Text} → iana_query tr iana t ≡ some h → HostOrEmpty h
unfolding iana_query whois_field_from_iana
iana_query-HostOrEmpty tr iana t {h} e = elim (Option-cases (tr iana t)) [
  | inl f ↦ ground arith
  | inr (resp, f) ↦ ground (arith, host_field-HostOrEmpty [] (split_on b'\n' resp.raw) (inl refl))
]

is_host : Text → Bool
is_host h = not (has_forbidden h) && contains (codes ".") h

all_hosts : Dict Text → Bool
all_hosts [] = true
all_hosts ((t, h) ∷ d) = is_host h && all_hosts d

lookup-is_host :
    (t : Text) (d : Dict Text) {h : Text}
    → all_hosts d ≡ true
    → lookup t d ≡ some h
    → is_host h ≡ true
unfolding lookup all_hosts
lookup-is_host t [] a e = ground arith
lookup-is_host t ((k, v) ∷ d) {h} a e = ground (arith, lookup-is_host t d {h = h})

is_host-HostText : (h : Text) → is_host h ≡ true → HostText h
unfolding is_host
is_host-HostText h e = tested_host h (ground arith) (ground arith)

seed_hosts-HostText : (t : Text) {h : Text} → lookup t seed_hosts ≡ some h → HostText h
unfolding seed_hosts all_hosts is_host has_forbidden contains cut cut_prefix
seed_hosts-HostText t {h} e = is_host-HostText h (lookup-is_host t seed_hosts refl e)

-- The hosts that the cache holds are host names or empty.
abbrev pub Sound : Option (Memory Text) → Type 0
Sound c =
    (m : Memory Text)
    → c ≡ some m
    → (t : Text) (e : Entry Text) → lookup (host_key t) m ≡ some e
    → HostOrEmpty e.val

said-HostText : (t h : Text) {k : Text} → HostOrEmpty h → said t h ≡ ok k → HostText k
said-HostText t [] b e = absurd (ground arith)
said-HostText t (c ∷ h) {k} (inl empty) e = absurd (ground arith)
said-HostText t (c ∷ h) {k} (inr named) e = subst HostText (ground arith) named

get-Sound :
    (m : Memory Text) (t : Text) (now : ℕ)
    → Sound (some m)
    → Sound (some (get m (host_key t) now).0)
unfolding get get_across evict
get-Sound m t now s m' e u f found =
    ground (arith, lookup-delete (host_key t) (host_key u) m, s m refl u f)

get_found-Sound :
    (m : Memory Text) (t : Text) (now : ℕ) {h : Text}
    → Sound (some m)
    → (get m (host_key t) now).1 ≡ some h
    → HostOrEmpty h
unfolding get get_across
get_found-Sound m t now s found = elim (Option-cases (lookup (host_key t) m)) [
  | inl e ↦ ground arith
  | inr (f, e) ↦ ground (arith, s m refl t f)
]

set-Sound :
    (m : Memory Text) (t h : Text) (now : ℕ)
    → HostOrEmpty h
    → Sound (some m)
    → Sound (some (set m (host_key t) h host_ttl now))
unfolding set
set-Sound m t h now b s m' e u f found = ground (
  arith,
  lookup-insert (host_key t) (host_key u) (record { val = h; expires_at = now + host_ttl }) m,
  s m refl u f,
)

-- What `Host` is to give: a host name, and a cache that still holds such only.
abbrev pub Yields : Option (Memory Text) × Result HostError Text → Type 0
Yields (c, out) = Sound c × ((h : Text) → out ≡ ok h → HostText h)

read_cache-Sound :
    (c : Option (Memory Text)) (t : Text) (now : ℕ) → Sound c → Sound (read_cache c t now).0
read_cache-Sound none t now s = s
read_cache-Sound (some m) t now s = get-Sound m t now s

read_cache_found :
    (c : Option (Memory Text)) (t : Text) (now : ℕ) {h : Text}
    → Sound c
    → (read_cache c t now).1 ≡ some h
    → HostOrEmpty h
read_cache_found none t now s e = ground arith
read_cache_found (some m) t now s e = get_found-Sound m t now s e

write_cache-Sound :
    (c : Option (Memory Text)) (t h : Text) (now : ℕ)
    → HostOrEmpty h
    → Sound c
    → Sound (write_cache c t h now)
write_cache-Sound none t h now b s = s
write_cache-Sound (some m) t h now b s = set-Sound m t h now b s

host_missed-Yields :
    (t : Text) (o : Option Text) (c : Option (Memory Text)) (now : ℕ)
    → ((h : Text) → o ≡ some h → HostOrEmpty h)
    → Sound c
    → Yields (host_missed t o c now)
unfolding host_missed
host_missed-Yields t none c now b s = (
  s,
  λ h e. elim (Option-cases (lookup t seed_hosts)) [
    | inl f ↦ ground arith
    | inr (k, f) ↦ ground (arith, seed_hosts-HostText t f)
  ],
)
host_missed-Yields t (some h) c now b s =
    (write_cache-Sound c t h now (b h refl) s, λ k e. said-HostText t h (b h refl) e)

host_found-Yields :
    (tr : Transport) (iana t : Text) (now : ℕ) (c : Option (Memory Text)) (o : Option Text)
    → ((h : Text) → o ≡ some h → HostOrEmpty h)
    → Sound c
    → Yields (host_found tr iana t now c o)
host_found-Yields tr iana t now c (some h) b s = (s, λ k e. said-HostText t h (b h refl) e)
host_found-Yields tr iana t now c none b s =
    host_missed-Yields t (iana_query tr iana t) c now (λ h e. iana_query-HostOrEmpty tr iana t e) s

pub host-Yields :
    (tr : Transport) (iana : Text) (c : Option (Memory Text)) (tld : Text) (now : ℕ)
    → Sound c
    → Yields (host tr iana c tld now)
unfolding host
host-Yields tr iana c tld now s =
    let t = normalize_tld tld in
    if_cases Yields (is_empty t) (c, err (no_whois_host [])) _ (λ _. (s, λ h e. ground arith))
      (λ _.
        host_found-Yields tr iana t now (read_cache c t now).0 (read_cache c t now).1
          (λ h e. read_cache_found c t now s e) (read_cache-Sound c t now s))

pub iana_host-HostText : HostText iana_host
unfolding is_host has_forbidden contains cut cut_prefix
iana_host-HostText = is_host-HostText iana_host refl
