-- ===== src/Rdap/NetRegistry/Refreshing.antt =====
-- internal/rdapx/netregistry.go: what loading and refreshing make of the registry.
use whois_mcp.Prelude.{
  ℕ, zero, suc, ◌+◌, ◌^◌, ◌≤◌, ◌<◌, ◌≡◌, refl, ◌∙◌, Bool, true, false, Option, none, some, List, [],
  ◌∷◌, ◌++◌, Text, codes, cut, is_empty, trim_space, parse_uint, leb, All, Result, ok, err,
  Bool-cases, Option-cases, inl, inr, arith,
}
use whois_mcp.Rdap.Bootstrap.{Document, prefer_https}
use whois_mcp.Rdap.NetRegistry.{
  IpNet, AsnRange, NetRegistry, LoadError, max_asn, range_of, parse_asn_range, ranges_of,
  served_ranges, asn_ranges, insert_range, sort_ranges, store_asn, load_asn, store_ip, load_ip,
  refresh_ip, refresh_asn, refresh, failed, failures_in, outcome_of,
}
use whois_mcp.Rdap.NetRegistry.Ranges.{Proper}

parse_uint_max : (max : ℕ) (s : Text) (n : ℕ) → parse_uint max s ≡ some n → n ≤ max
unfolding parse_uint
parse_uint_max max s n h = ground arith

-- A range that is read is not empty and lies within 32 bits.
pub parse_asn_range_bounds :
    (spec : Text) (lo hi : ℕ) → parse_asn_range spec ≡ some (lo, hi) → (lo ≤ hi) × (hi < 2 ^ 32)
unfolding parse_asn_range
parse_asn_range_bounds spec lo hi h = elim (Bool-cases (is_empty (trim_space spec))) [
  | inl e ↦ absurd (ground arith)
  | inr e ↦
      range_bounds (cut (codes "-") (trim_space spec)) (trim_space spec) lo hi
        (rw (e, parse_asn_range) at h)
]
  where
    range_bounds :
        (c : Option (Text × Text)) (s : Text) (lo hi : ℕ)
        → range_of c s ≡ some (lo, hi)
        → (lo ≤ hi) × (hi < 2 ^ 32)
    range_bounds none s lo hi h = elim (Option-cases (parse_uint max_asn (trim_space s))) [
      | inl e ↦ absurd (ground arith)
      | inr (l, e) ↦
          let small = parse_uint_max max_asn (trim_space s) l e in (ground arith, ground arith)
    ]
    range_bounds (some (before, after)) s lo hi h =
        elim (Option-cases (parse_uint max_asn (trim_space before))) [
          | inl e ↦ absurd (ground arith)
          | inr (l, e) ↦ elim (Option-cases (parse_uint max_asn (trim_space after))) [
            | inl q ↦ absurd (ground arith)
            | inr (m, q) ↦
                let small = parse_uint_max max_asn (trim_space after) m q in
                (ground arith, ground arith)
          ]
        ]

abbrev InOrder : AsnRange → Type 0
InOrder a = a.lo ≤ a.hi

ranges_of-InOrder : (bases specs : List Text) → All InOrder (ranges_of bases specs)
unfolding ranges_of
ranges_of-InOrder bases [] = tt
ranges_of-InOrder bases (spec ∷ specs) = elim (Option-cases (parse_asn_range spec)) [
  | inl e ↦ rw (e, All, ranges_of) (ranges_of-InOrder bases specs)
  | inr ((lo, hi), e) ↦
      rw (e, All, ranges_of)
        ((parse_asn_range_bounds spec lo hi e).0, ranges_of-InOrder bases specs)
]

served_ranges-InOrder : (bases specs : List Text) → All InOrder (served_ranges bases specs)
served_ranges-InOrder [] specs = tt
served_ranges-InOrder (b ∷ bs) specs = ranges_of-InOrder (b ∷ bs) specs

All-append : (xs ys : List AsnRange) → All InOrder xs → All InOrder ys → All InOrder (xs ++ ys)
All-append [] ys p q = q
All-append (x ∷ xs) ys p q = (p.0, All-append xs ys p.1 q)

asn_ranges-InOrder : (svcs : List (List (List Text))) → All InOrder (asn_ranges svcs)
unfolding asn_ranges
asn_ranges-InOrder [] = tt
asn_ranges-InOrder ([] ∷ svcs) = asn_ranges-InOrder svcs
asn_ranges-InOrder ((a ∷ []) ∷ svcs) = asn_ranges-InOrder svcs
asn_ranges-InOrder ((specs ∷ urls ∷ []) ∷ svcs) =
    All-append (served_ranges (prefer_https urls) specs) (asn_ranges svcs)
      (served_ranges-InOrder (prefer_https urls) specs) (asn_ranges-InOrder svcs)
asn_ranges-InOrder ((a ∷ b ∷ c ∷ rest) ∷ svcs) = asn_ranges-InOrder svcs

insert_range-InOrder :
    (a : AsnRange) (bs : List AsnRange)
    → InOrder a
    → All InOrder bs
    → All InOrder (insert_range a bs)
unfolding insert_range
insert_range-InOrder a [] p q = (p, tt)
insert_range-InOrder a (b ∷ bs) p q = elim (Bool-cases (leb a.lo b.lo)) [
  | inl e ↦ rw e (p, q)
  | inr e ↦ rw e (q.0, insert_range-InOrder a bs p q.1)
]

sort_ranges-InOrder : (bs : List AsnRange) → All InOrder bs → All InOrder (sort_ranges bs)
unfolding sort_ranges
sort_ranges-InOrder [] p = tt
sort_ranges-InOrder (b ∷ bs) p =
    insert_range-InOrder b (sort_ranges bs) p.0 (sort_ranges-InOrder bs p.1)

Proper-of_All : (bs : List AsnRange) → All InOrder bs → Proper bs
Proper-of_All [] p i a h = absurd (ground arith)
Proper-of_All (b ∷ bs) p zero a h = ground (arith, p.0)
Proper-of_All (b ∷ bs) p (suc i) a h = Proper-of_All bs p.1 i a h

-- Whatever document is loaded, readable or not, no range of the registry is reversed.
pub load_asn-Proper :
    (r : NetRegistry) (doc : Option Document) (now : ℕ)
    → Proper r.asns
    → Proper (load_asn r doc now).0.asns
unfolding load_asn store_asn
load_asn-Proper r none now v = v
load_asn-Proper r (some doc) now v =
    store_asn-Proper (asn_ranges doc.services) (asn_ranges-InOrder doc.services)
  where
    store_asn-Proper :
        (bs : List AsnRange) → All InOrder bs → Proper (store_asn r doc.publication now bs).0.asns
    store_asn-Proper [] p = v
    store_asn-Proper (b ∷ bs) p =
        Proper-of_All (sort_ranges (b ∷ bs)) (sort_ranges-InOrder (b ∷ bs) p)

load_ip_failed :
    (parse_cidr : Text → Option IpNet) (r : NetRegistry) (doc : Option Document) (v6 : Bool)
    (now : ℕ) (e : LoadError)
    → (load_ip parse_cidr r doc v6 now).1 ≡ err e
    → (load_ip parse_cidr r doc v6 now).0 ≡ r
unfolding load_ip store_ip
load_ip_failed parse_cidr r none v6 now e h = refl
load_ip_failed parse_cidr r (some doc) v6 now e h = ground arith

load_asn_failed :
    (r : NetRegistry) (doc : Option Document) (now : ℕ) (e : LoadError)
    → (load_asn r doc now).1 ≡ err e
    → (load_asn r doc now).0 ≡ r
unfolding load_asn store_asn
load_asn_failed r none now e h = refl
load_asn_failed r (some doc) now e h = ground arith

refresh_ip_failed :
    (parse_cidr : Text → Option IpNet) (decode : Text → Option Document) (r : NetRegistry)
    (raw : Option Text) (v6 : Bool) (now : ℕ) (e : LoadError)
    → (refresh_ip parse_cidr decode r raw v6 now).1 ≡ err e
    → (refresh_ip parse_cidr decode r raw v6 now).0 ≡ r
unfolding refresh_ip
refresh_ip_failed parse_cidr decode r none v6 now e h = refl
refresh_ip_failed parse_cidr decode r (some raw) v6 now e h =
    load_ip_failed parse_cidr r (decode raw) v6 now e h

refresh_asn_failed :
    (decode : Text → Option Document) (r : NetRegistry) (raw : Option Text) (now : ℕ)
    (e : LoadError)
    → (refresh_asn decode r raw now).1 ≡ err e
    → (refresh_asn decode r raw now).0 ≡ r
unfolding refresh_asn
refresh_asn_failed decode r none now e h = refl
refresh_asn_failed decode r (some raw) now e h = load_asn_failed r (decode raw) now e h

abbrev Failed : Result LoadError (Unit {0}) → Type 0
Failed a = (e : LoadError) × (a ≡ err e)

all_failed :
    (a b c : Result LoadError (Unit {0}))
    → outcome_of (failures_in a + failures_in b + failures_in c) ≡ failed
    → (Failed a × Failed b × Failed c) × ((failures_in a + failures_in b + failures_in c) ≡ 3)
all_failed (err x) (err y) (err z) h = (((x, refl), (y, refl), (z, refl)), refl)
all_failed (ok _) (ok _) (ok _) h = absurd (ground arith)
all_failed (ok _) (ok _) (err _) h = absurd (ground arith)
all_failed (ok _) (err _) (ok _) h = absurd (ground arith)
all_failed (ok _) (err _) (err _) h = absurd (ground arith)
all_failed (err _) (ok _) (ok _) h = absurd (ground arith)
all_failed (err _) (ok _) (err _) h = absurd (ground arith)
all_failed (err _) (err _) (ok _) h = absurd (ground arith)

-- A refresh that fails for all three files leaves the registry as it was.
pub refresh_failed :
    (parse_cidr : Text → Option IpNet) (decode : Text → Option Document) (r : NetRegistry)
    (ip4 ip6 asn : Option Text) (now : ℕ)
    → (refresh parse_cidr decode r ip4 ip6 asn now).1 ≡ failed
    → (refresh parse_cidr decode r ip4 ip6 asn now).0 ≡ r
unfolding refresh
refresh_failed parse_cidr decode r ip4 ip6 asn now h =
    let r1 = refresh_ip parse_cidr decode r ip4 false now in
    let r2 = refresh_ip parse_cidr decode r1.0 ip6 true now in
    let r3 = refresh_asn decode r2.0 asn now in
    let (((x, fx), (y, fy), (z, fz)), three) = all_failed r1.1 r2.1 r3.1 h in
    rw three (
      refresh_asn_failed decode r2.0 asn now z fz
      ∙ refresh_ip_failed parse_cidr decode r1.0 ip6 true now y fy
      ∙ refresh_ip_failed parse_cidr decode r ip4 false now x fx)
