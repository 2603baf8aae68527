-- ===== src/Rdap/Tests.antt =====
-- internal/rdapx/netregistry.go: the theorems at concrete inputs.
use whois_mcp.Prelude.{
  zero, suc, ◌≤◌, ◌≡◌, ◌↔◌, inl, inr, refl, true, false, some, List, [], ◌∷◌, Text, codes, arith,
}
use whois_mcp.Rdap.NetRegistry.{Address, IpNet, NetRegistry, includes, lookup_ip, lookup_asn}
use whois_mcp.Rdap.NetRegistry.Prefixes.{Serves, family, lookup_ip_most_specific}
use whois_mcp.Rdap.NetRegistry.Ranges.{Disjoint, Proper, Covered, lookup_asn_iff}

abbrev arin : List Text
arin = codes "https://rdap.arin.net/" ∷ []

abbrev ripe : List Text
ripe = codes "https://rdap.db.ripe.net/" ∷ []

-- 193.0.0.0/8, and 193.5.0.0/16 inside it.
abbrev wide : IpNet
wide = record { bits = 32; value = 3238002688; ones = 8 }

abbrev narrow : IpNet
narrow = record { bits = 32; value = 3238330368; ones = 16 }

abbrev registry : NetRegistry
registry = record {
  v4 =
      record { prefixes = wide ∷ []; bases = ripe }
      ∷ record { prefixes = narrow ∷ []; bases = arin }
      ∷ [];
  v6 = [];
  asns = record { lo = 1; hi = 9; bases = arin } ∷ [];
  publication = 0;
  loaded_at = 0;
  from_network = false;
}

-- 193.5.0.1.
abbrev host : Address
host = record { bits = 32; value = 3238330369 }

lookup_ip_most_specific_example :
    (n : IpNet) × (bases : List Text) × (lookup_ip registry (some host) ≡ some bases)
    × Serves n bases (family registry host)
    × (includes n host ≡ true)
    × (16 ≤ n.ones)
unfolding includes
lookup_ip_most_specific_example =
    lookup_ip_most_specific registry host narrow arin (inr (inl (refl, inl refl))) refl

one_range-Disjoint : Disjoint registry.asns
one_range-Disjoint zero zero a b h k early = absurd (omega arith)
one_range-Disjoint zero (suc j) a b h k early = absurd (ground arith)
one_range-Disjoint (suc i) j a b h k early = absurd (ground arith)

one_range-Proper : Proper registry.asns
one_range-Proper zero a h = ground arith
one_range-Proper (suc i) a h = absurd (ground arith)

lookup_asn_iff_example : (lookup_asn registry 5 ≡ some arin) ↔ Covered registry.asns 5 arin
lookup_asn_iff_example = lookup_asn_iff registry 5 arin one_range-Disjoint one_range-Proper
