-- ===== src/Rdap/NetRegistry/Ranges.antt =====
-- internal/rdapx/netregistry.go: the range that answers for an AS number.
use whois_mcp.Prelude.{
  search, IsCut, search-IsCut, ℕ, zero, suc, ◌-◌, ◌≤◌, ◌<◌, ◌≡◌, ◌↔◌, inl, inr, refl, ap, ◌∙◌, Bool,
  true, some, List, [], ◌∷◌, Text, length, get_elem?, ltb, Bool-cases, Option-cases, arith,
}
use whois_mcp.Rdap.NetRegistry.{AsnRange, NetRegistry, starts_after, covers, step_back, lookup_asn}

-- The ranges are in order and do not overlap.
abbrev pub Disjoint : List AsnRange → Type 0
Disjoint asns =
    (i j : ℕ) (a b : AsnRange)
    → get_elem? asns i ≡ some a
    → get_elem? asns j ≡ some b
    → i < j
    → a.hi < b.lo

get_elem-bound :
    (asns : List AsnRange) (i : ℕ) (a : AsnRange) → get_elem? asns i ≡ some a → i < length asns
get_elem-bound [] i a h = absurd (ground arith)
get_elem-bound (x ∷ asns) zero a h = omega arith
get_elem-bound (x ∷ asns) (suc i) a h = omega (arith, get_elem-bound asns i a h)

get_elem-some :
    (asns : List AsnRange) (i : ℕ) → i < length asns → (a : AsnRange) × (get_elem? asns i ≡ some a)
get_elem-some [] i h = absurd (omega arith)
get_elem-some (x ∷ asns) zero h = (x, refl)
get_elem-some (x ∷ asns) (suc i) h = get_elem-some asns i (omega arith)

abbrev pub Proper : List AsnRange → Type 0
Proper asns = (i : ℕ) (a : AsnRange) → get_elem? asns i ≡ some a → a.lo ≤ a.hi

-- Some range of the list covers the number, and has these bases.
abbrev pub Covered : List AsnRange → ℕ → List Text → Type 0
Covered asns asn bases =
    (i : ℕ) × (a : AsnRange) × (get_elem? asns i ≡ some a)
    × (covers asn a ≡ true)
    × (a.bases ≡ bases)

step_back-Covered :
    (asns : List AsnRange) (asn steps i : ℕ) (bases : List Text)
    → step_back asns asn steps i ≡ some bases
    → Covered asns asn bases
unfolding step_back
step_back-Covered asns asn zero i bases h = absurd (ground arith)
step_back-Covered asns asn (suc steps) zero bases h = absurd (ground arith)
step_back-Covered asns asn (suc steps) (suc i) bases h = elim (Option-cases (get_elem? asns i)) [
  | inl e ↦ step_back-Covered asns asn steps i bases (rw (e, step_back) at h)
  | inr (a, e) ↦ elim (Bool-cases (covers asn a)) [
    | inl c ↦ (i, a, e, c, ground arith)
    | inr c ↦ step_back-Covered asns asn steps i bases (rw (e, step_back, c) at h)
  ]
]

abbrev after_at : List AsnRange → ℕ → ℕ → Bool
after_at asns asn i = starts_after asn (get_elem? asns i)

module _ (asns : List AsnRange) (asn k i : ℕ) (a : AsnRange) where
  cut_not_low :
      Disjoint asns
      → Proper asns
      → IsCut (after_at asns asn) (length asns) k
      → get_elem? asns i ≡ some a
      → covers asn a ≡ true
      → i < k
  cut_not_low apart proper v found c = elim (Bool-cases (ltb i k)) [
    | inl e ↦ ground arith
    | inr e ↦
        let inside = get_elem-bound asns i a found in
        let (b, at_k) = get_elem-some asns k (ground arith) in
        let low = proper k b at_k in
        elim v.above [
          | inl top ↦ absurd (ground arith)
          | inr late ↦ elim (Bool-cases (ltb k i)) [
            | inl before ↦
                let gap = apart k i b a at_k found (ground arith) in absurd (ground arith)
            | inr not_before ↦ let same : k ≡ i = ground arith in absurd (ground arith)
          ]
        ]
  ]

  cut_next :
      Disjoint asns
      → IsCut (after_at asns asn) (length asns) k
      → get_elem? asns i ≡ some a
      → covers asn a ≡ true
      → i < k
      → k ≡ suc i
  cut_next apart v found c above_i = elim v.below [
    | inl bottom ↦ absurd (omega arith)
    | inr early ↦
        let (b, at_b) = get_elem-some asns (k - 1) (omega (arith, v.within)) in
        elim (Bool-cases (ltb i (k - 1))) [
          | inr e ↦ ground arith
          | inl e ↦ let gap = apart i (k - 1) a b found at_b (ground arith) in absurd (ground arith)
        ]
  ]

step_back_hit :
    (asns : List AsnRange) (asn steps i : ℕ) (a : AsnRange)
    → get_elem? asns i ≡ some a
    → covers asn a ≡ true
    → step_back asns asn (suc steps) (suc i) ≡ some a.bases
unfolding step_back
step_back_hit asns asn steps i a found c = rw (found, step_back, c) refl

-- In ranges that are in order and do not overlap, the binary search and the steps backwards find
-- exactly what a scan of all ranges would: the lookup returns the bases of the range that covers the
-- number, and nothing if none does.
pub lookup_asn_iff :
    (r : NetRegistry) (asn : ℕ) (bases : List Text)
    → Disjoint r.asns
    → Proper r.asns
    → (lookup_asn r asn ≡ some bases) ↔ Covered r.asns asn bases
unfolding lookup_asn
lookup_asn_iff r asn bases apart proper =
    let k = search (length r.asns) (after_at r.asns asn) in
    let v = search-IsCut (length r.asns) (after_at r.asns asn) in
    (
      λ h. step_back-Covered r.asns asn 4 k bases h,
      λ (i, a, found, c, same).
          let next =
            cut_next r.asns asn k i a apart v found c
              (cut_not_low r.asns asn k i a apart proper v found c) in
          ap (λ (m : ℕ). step_back r.asns asn 4 m) next
          ∙ step_back_hit r.asns asn 3 i a found c
          ∙ ap some same,
    )
