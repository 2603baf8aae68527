-- ===== src/Rdap/NetRegistry.antt =====
-- internal/rdapx/netregistry.go: the bootstrap registries of addresses and AS numbers. The JSON of a
-- document, net.ParseCIDR and the fetch are parameters; an address is its number of bits and its
-- value, and a nil address is `none`.
pub mod Prefixes
pub mod Ranges
pub mod Refreshing
use whois_mcp.Rdap.Bootstrap.{Document, prefer_https}
use whois_mcp.Prelude.{
  search, ℕ, zero, suc, ◌+◌, ◌-◌, ◌/◌, ◌^◌, Bool, true, false, not, ◌&&◌, Option, none, some, List,
  [], ◌∷◌, ◌++◌, Text, codes, is_empty, to_lower, trim_space, has_prefix, cut, length, get_elem?,
  Result, ok, err, ltb, leb, ◌==◌, if◌then◌else◌, parse_uint,
}

pub record Address : Type 0 where
  pub bits : ℕ
  pub value : ℕ

-- `*net.IPNet`: the network's address and its leading ones.
pub record IpNet : Type 0 where
  pub bits : ℕ
  pub value : ℕ
  pub ones : ℕ

-- (*net.IPNet).Contains.
unfoldable pub includes : IpNet → Address → Bool
includes n ip =
    n.bits == ip.bits && (n.value / 2 ^ (n.bits - n.ones)) == (ip.value / 2 ^ (n.bits - n.ones))

pub record NetService : Type 0 where
  pub prefixes : List IpNet
  pub bases : List Text

pub record AsnRange : Type 0 where
  pub lo : ℕ
  pub hi : ℕ
  pub bases : List Text

pub record NetRegistry : Type 0 where
  pub v4 : List NetService
  pub v6 : List NetService
  pub asns : List AsnRange
  pub publication : ℕ
  pub loaded_at : ℕ
  pub from_network : Bool

unfoldable pub parse_all : (Text → Option IpNet) → List Text → List IpNet
parse_all parse_cidr [] = []
parse_all parse_cidr (s ∷ ss) = elim (parse_cidr (trim_space s)) [
  | none ↦ parse_all parse_cidr ss
  | some n ↦ n ∷ parse_all parse_cidr ss
]

abbrev keep_service : List IpNet → List Text → List NetService → List NetService
keep_service [] bases rest = rest
keep_service (n ∷ ns) [] rest = rest
keep_service (n ∷ ns) (b ∷ bs) rest = record { prefixes = n ∷ ns; bases = b ∷ bs } ∷ rest

unfoldable pub net_services : (Text → Option IpNet) → List (List (List Text)) → List NetService
unfolding parse_all prefer_https
net_services parse_cidr [] = []
net_services parse_cidr ((keys ∷ urls ∷ []) ∷ svcs) =
    keep_service (parse_all parse_cidr keys) (prefer_https urls) (net_services parse_cidr svcs)
net_services parse_cidr (_ ∷ svcs) = net_services parse_cidr svcs

pub data LoadError : Type 0 where
  not_parsed unusable not_fetched : LoadError

abbrev newer : ℕ → ℕ → ℕ
newer a b = if ltb b a then a else b

unfoldable pub store_ip :
    NetRegistry → Bool → ℕ → ℕ → List NetService → NetRegistry × Result LoadError (Unit {0})
store_ip r v6 published now [] = (r, err unusable)
store_ip r v6 published now (s ∷ ss) = (
  if v6
      then record r { v6 = s ∷ ss; publication = newer published r.publication; loaded_at = now }
      else record r { v4 = s ∷ ss; publication = newer published r.publication; loaded_at = now },
  ok tt,
)

-- `loadIP`; `doc` is what the JSON decoder makes of the bytes.
unfoldable pub load_ip :
    (Text → Option IpNet)
    → NetRegistry
    → Option Document
    → Bool
    → ℕ
    → NetRegistry × Result LoadError (Unit {0})
unfolding store_ip net_services
load_ip parse_cidr r none v6 now = (r, err not_parsed)
load_ip parse_cidr r (some doc) v6 now =
    store_ip r v6 doc.publication now (net_services parse_cidr doc.services)

abbrev pub max_asn : ℕ
max_asn = 2 ^ 32 - 1

abbrev pub ordered_pair : ℕ → Option ℕ → Option (ℕ × ℕ)
ordered_pair l none = none
ordered_pair l (some h) = if ltb h l then none else some (l, h)

abbrev pub range_of : Option (Text × Text) → Text → Option (ℕ × ℕ)
range_of none s = elim (parse_uint max_asn (trim_space s)) [ none ↦ none | some l ↦ some (l, l) ]
range_of (some (before, after)) s = elim (parse_uint max_asn (trim_space before)) [
  | none ↦ none
  | some l ↦ ordered_pair l (parse_uint max_asn (trim_space after))
]

unfoldable pub parse_asn_range : Text → Option (ℕ × ℕ)
unfolding cut parse_uint trim_space
parse_asn_range spec =
    let s = trim_space spec in if is_empty s then none else range_of (cut (codes "-") s) s

unfoldable pub ranges_of : List Text → List Text → List AsnRange
unfolding parse_asn_range
ranges_of bases [] = []
ranges_of bases (spec ∷ specs) = elim (parse_asn_range spec) [
  | none ↦ ranges_of bases specs
  | some (lo, hi) ↦ record { lo = lo; hi = hi; bases = bases } ∷ ranges_of bases specs
]

abbrev pub served_ranges : List Text → List Text → List AsnRange
served_ranges [] specs = []
served_ranges (b ∷ bs) specs = ranges_of (b ∷ bs) specs

unfoldable pub asn_ranges : List (List (List Text)) → List AsnRange
unfolding prefer_https ranges_of
asn_ranges [] = []
asn_ranges ((specs ∷ urls ∷ []) ∷ svcs) = served_ranges (prefer_https urls) specs ++ asn_ranges svcs
asn_ranges (_ ∷ svcs) = asn_ranges svcs

-- sort.Slice by the low bound; equal bounds keep their order here.
unfoldable pub insert_range : AsnRange → List AsnRange → List AsnRange
insert_range a [] = a ∷ []
insert_range a (b ∷ bs) =
    let rest = b ∷ insert_range a bs in if leb a.lo b.lo then a ∷ b ∷ bs else rest

unfoldable pub sort_ranges : List AsnRange → List AsnRange
unfolding insert_range
sort_ranges [] = []
sort_ranges (a ∷ rest) = insert_range a (sort_ranges rest)

unfoldable pub store_asn :
    NetRegistry → ℕ → ℕ → List AsnRange → NetRegistry × Result LoadError (Unit {0})
unfolding sort_ranges
store_asn r published now [] = (r, err unusable)
store_asn r published now (a ∷ rest) = (
  record r {
    asns = sort_ranges (a ∷ rest);
    publication = newer published r.publication;
    loaded_at = now;
  },
  ok tt,
)

unfoldable pub load_asn :
    NetRegistry → Option Document → ℕ → NetRegistry × Result LoadError (Unit {0})
unfolding store_asn asn_ranges
load_asn r none now = (r, err not_parsed)
load_asn r (some doc) now = store_asn r doc.publication now (asn_ranges doc.services)

-- The best prefix so far: its leading ones and its bases.
abbrev pub Best : Type 0
Best = Option (ℕ × List Text)

abbrev pub better : ℕ → Best → Bool
better ones none = true
better ones (some (best, bases)) = ltb best ones

-- The inner and the outer loop of `LookupIP`.
unfoldable pub best_prefix : Address → List Text → List IpNet → Best → Best
unfolding includes
best_prefix ip bases [] best = best
best_prefix ip bases (n ∷ ns) best =
    best_prefix ip bases ns
      (if includes n ip && better n.ones best then some (n.ones, bases) else best)

unfoldable pub best_service : Address → List NetService → Best → Best
unfolding best_prefix
best_service ip [] best = best
best_service ip (s ∷ ss) best = best_service ip ss (best_prefix ip s.bases s.prefixes best)

abbrev bases_of : Best → Option (List Text)
bases_of none = none
bases_of (some (ones, bases)) = some bases

unfoldable pub lookup_ip : NetRegistry → Option Address → Option (List Text)
unfolding best_service
lookup_ip r none = none
lookup_ip r (some ip) = bases_of (best_service ip (if ip.bits == 32 then r.v4 else r.v6) none)

abbrev pub starts_after : ℕ → Option AsnRange → Bool
starts_after asn none = true
starts_after asn (some a) = ltb asn a.lo

abbrev pub covers : ℕ → AsnRange → Bool
covers asn a = leb a.lo asn && leb asn a.hi

-- The loop backwards from below `i`, over at most `steps` ranges.
unfoldable pub step_back : List AsnRange → ℕ → ℕ → ℕ → Option (List Text)
step_back asns asn zero i = none
step_back asns asn (suc steps) zero = none
step_back asns asn (suc steps) (suc i) =
    let rest = step_back asns asn steps i in
    elim (get_elem? asns i) [ none ↦ rest | some a ↦ if covers asn a then some a.bases else rest ]

unfoldable pub lookup_asn : NetRegistry → ℕ → Option (List Text)
unfolding search step_back
lookup_asn r asn =
    step_back r.asns asn 4 (search (length r.asns) (λ i. starts_after asn (get_elem? r.asns i)))

-- One file of `Refresh`: what the fetch yields is decoded and loaded.
unfoldable pub refresh_ip :
    (Text → Option IpNet)
    → (Text → Option Document)
    → NetRegistry
    → Option Text
    → Bool
    → ℕ
    → NetRegistry × Result LoadError (Unit {0})
unfolding load_ip
refresh_ip parse_cidr decode r none v6 now = (r, err not_fetched)
refresh_ip parse_cidr decode r (some raw) v6 now = load_ip parse_cidr r (decode raw) v6 now

unfoldable pub refresh_asn :
    (Text → Option Document)
    → NetRegistry
    → Option Text
    → ℕ
    → NetRegistry × Result LoadError (Unit {0})
unfolding load_asn
refresh_asn decode r none now = (r, err not_fetched)
refresh_asn decode r (some raw) now = load_asn r (decode raw) now

abbrev pub failures_in : Result LoadError (Unit {0}) → ℕ
failures_in (ok _) = 0
failures_in (err _) = 1

pub data Refreshed : Type 0 where
  refreshed partly failed : Refreshed

abbrev pub outcome_of : ℕ → Refreshed
outcome_of n = if n == 0 then refreshed else if n == 3 then failed else partly

-- `Refresh`; `ip4`, `ip6` and `asn` are what the fetches of the three files yield.
unfoldable pub refresh :
    (Text → Option IpNet)
    → (Text → Option Document)
    → NetRegistry
    → Option Text
    → Option Text
    → Option Text
    → ℕ
    → NetRegistry × Refreshed
unfolding refresh_ip refresh_asn
refresh parse_cidr decode r ip4 ip6 asn now =
    let (r1, a) = refresh_ip parse_cidr decode r ip4 false now in
    let (r2, b) = refresh_ip parse_cidr decode r1 ip6 true now in
    let (r3, c) = refresh_asn decode r2 asn now in
    let n = failures_in a + failures_in b + failures_in c in
    (if n == 3 then r3 else record r3 { from_network = true }, outcome_of n)
