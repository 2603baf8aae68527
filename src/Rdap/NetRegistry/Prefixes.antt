-- ===== src/Rdap/NetRegistry/Prefixes.antt =====
-- internal/rdapx/netregistry.go: the prefix that answers for an address.
use whois_mcp.Prelude.{
  ℕ, ◌≤◌, ◌≡◌, ◌⊎◌, inl, inr, refl, ap, subst, ◌∙◌, true, ◌&&◌, none, some, List, [], ◌∷◌, Text,
  ltb, ◌==◌, if◌then◌else◌, Bool-cases, arith,
}
use whois_mcp.Rdap.NetRegistry.{
  Address, IpNet, NetService, NetRegistry, includes, Best, better, best_prefix, best_service,
  bases_of, lookup_ip,
}

abbrev pub Among : IpNet → List IpNet → Type 0
Among n [] = ⊥
Among n (m ∷ ms) = (m ≡ n) ⊎ Among n ms

-- A prefix of a service, with the bases of that service.
abbrev pub Serves : IpNet → List Text → List NetService → Type 0
Serves n bases [] = ⊥
Serves n bases (s ∷ ss) = ((s.bases ≡ bases) × Among n s.prefixes) ⊎ Serves n bases ss

-- The services of the address's family.
abbrev pub family : NetRegistry → Address → List NetService
family r ip = if ip.bits == 32 then r.v4 else r.v6

abbrev AtLeast : ℕ → Best → Type 0
AtLeast k none = ⊥
AtLeast k (some (ones, bases)) = k ≤ ones

-- Whatever was found so far is found in the services, and covers the address.
abbrev Found : Address → List NetService → Best → Type 0
Found ip all none = Unit
Found ip all (some (ones, bases)) =
    (n : IpNet) × Serves n bases all × (includes n ip ≡ true) × (n.ones ≡ ones)

abbrev step_prefix : Address → List Text → IpNet → Best → Best
step_prefix ip bases n best =
    if includes n ip && better n.ones best then some (n.ones, bases) else best

step_prefix_keeps :
    (ip : Address) (bases : List Text) (n : IpNet) (best : Best) (k : ℕ)
    → AtLeast k best
    → AtLeast k (step_prefix ip bases n best)
step_prefix_keeps ip bases n none k h = absurd h
step_prefix_keeps ip bases n (some (ones, bs)) k h =
    elim (Bool-cases (includes n ip && ltb ones n.ones)) [
      | inl e ↦ rw e (ground arith)
      | inr e ↦ rw e h
    ]

step_prefix_reaches :
    (ip : Address) (bases : List Text) (n : IpNet) (best : Best)
    → includes n ip ≡ true
    → AtLeast n.ones (step_prefix ip bases n best)
step_prefix_reaches ip bases n none h = rw h (omega arith)
step_prefix_reaches ip bases n (some (ones, bs)) h = elim (Bool-cases (ltb ones n.ones)) [
  | inl e ↦ rw (h, e) (omega arith)
  | inr e ↦ rw (h, e) (ground arith)
]

best_prefix_keeps :
    (ip : Address) (bases : List Text) (ns : List IpNet) (best : Best) (k : ℕ)
    → AtLeast k best
    → AtLeast k (best_prefix ip bases ns best)
unfolding best_prefix
best_prefix_keeps ip bases [] best k h = h
best_prefix_keeps ip bases (n ∷ ns) best k h =
    best_prefix_keeps ip bases ns (step_prefix ip bases n best) k
      (step_prefix_keeps ip bases n best k h)

best_prefix_reaches :
    (ip : Address) (bases : List Text) (ns : List IpNet) (best : Best) (m : IpNet)
    → Among m ns
    → includes m ip ≡ true
    → AtLeast m.ones (best_prefix ip bases ns best)
unfolding best_prefix
best_prefix_reaches ip bases [] best m among h = absurd among
best_prefix_reaches ip bases (n ∷ ns) best m (inl e) h =
    best_prefix_keeps ip bases ns (step_prefix ip bases n best) m.ones (
      subst (λ (x : IpNet). AtLeast x.ones (step_prefix ip bases n best)) e
        (step_prefix_reaches ip bases n best (ap (λ (x : IpNet). includes x ip) e ∙ h)))
best_prefix_reaches ip bases (n ∷ ns) best m (inr among) h =
    best_prefix_reaches ip bases ns (step_prefix ip bases n best) m among h

best_service_keeps :
    (ip : Address) (ss : List NetService) (best : Best) (k : ℕ)
    → AtLeast k best
    → AtLeast k (best_service ip ss best)
unfolding best_service
best_service_keeps ip [] best k h = h
best_service_keeps ip (s ∷ ss) best k h =
    best_service_keeps ip ss (best_prefix ip s.bases s.prefixes best) k
      (best_prefix_keeps ip s.bases s.prefixes best k h)

best_service_reaches :
    (ip : Address) (ss : List NetService) (best : Best) (m : IpNet) (bases : List Text)
    → Serves m bases ss
    → includes m ip ≡ true
    → AtLeast m.ones (best_service ip ss best)
unfolding best_service
best_service_reaches ip [] best m bases served h = absurd served
best_service_reaches ip (s ∷ ss) best m bases (inl (own, among)) h =
    best_service_keeps ip ss (best_prefix ip s.bases s.prefixes best) m.ones
      (best_prefix_reaches ip s.bases s.prefixes best m among h)
best_service_reaches ip (s ∷ ss) best m bases (inr served) h =
    best_service_reaches ip ss (best_prefix ip s.bases s.prefixes best) m bases served h

step_prefix-Found :
    (ip : Address) (all : List NetService) (bases : List Text) (n : IpNet) (best : Best)
    → Serves n bases all
    → Found ip all best
    → Found ip all (step_prefix ip bases n best)
step_prefix-Found ip all bases n best served v =
    elim (Bool-cases (includes n ip && better n.ones best)) [
      | inl e ↦ rw e (n, served, ground arith, refl)
      | inr e ↦ rw e v
    ]

best_prefix-Found :
    (ip : Address) (all : List NetService) (bases : List Text) (ns : List IpNet) (best : Best)
    → ((n : IpNet) → Among n ns → Serves n bases all)
    → Found ip all best
    → Found ip all (best_prefix ip bases ns best)
unfolding best_prefix
best_prefix-Found ip all bases [] best served v = v
best_prefix-Found ip all bases (n ∷ ns) best served v =
    best_prefix-Found ip all bases ns (step_prefix ip bases n best)
      (λ m among. served m (inr among))
      (step_prefix-Found ip all bases n best (served n (inl refl)) v)

best_service-Found :
    (ip : Address) (all ss : List NetService) (best : Best)
    → ((n : IpNet) (bases : List Text) → Serves n bases ss → Serves n bases all)
    → Found ip all best
    → Found ip all (best_service ip ss best)
unfolding best_service
best_service-Found ip all [] best within v = v
best_service-Found ip all (s ∷ ss) best within v =
    best_service-Found ip all ss (best_prefix ip s.bases s.prefixes best)
      (λ n bases served. within n bases (inr served))
      (best_prefix-Found ip all s.bases s.prefixes best
        (λ n among. within n s.bases (inl (refl, among))) v)

specific_of :
    (ip : Address) (all : List NetService) (best : Best) (k : ℕ)
    → AtLeast k best
    → Found ip all best
    → (n : IpNet) × (bases : List Text) × (bases_of best ≡ some bases)
      × Serves n bases all
      × (includes n ip ≡ true)
      × (k ≤ n.ones)
specific_of ip all none k h v = absurd h
specific_of ip all (some (ones, bases)) k h (n, served, covers, same) =
    (n, bases, refl, served, covers, omega arith)

-- The answer for an address is the most specific one: where a prefix covers the address, the lookup
-- returns the bases of a service with a covering prefix that is at least as long.
pub lookup_ip_most_specific :
    (r : NetRegistry) (ip : Address) (m : IpNet) (other : List Text)
    → Serves m other (family r ip)
    → includes m ip ≡ true
    → (n : IpNet) × (bases : List Text) × (lookup_ip r (some ip) ≡ some bases)
      × Serves n bases (family r ip)
      × (includes n ip ≡ true)
      × (m.ones ≤ n.ones)
unfolding lookup_ip
lookup_ip_most_specific r ip m other served covers =
    specific_of ip (family r ip) (best_service ip (family r ip) none) m.ones
      (best_service_reaches ip (family r ip) none m other served covers)
      (best_service-Found ip (family r ip) (family r ip) none (λ n bases s. s) tt)
