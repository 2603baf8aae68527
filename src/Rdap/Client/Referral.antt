-- ===== src/Rdap/Client/Referral.antt =====
-- internal/rdapx/client.go: what the referral to the registrar changes.
use whois_mcp.Prelude.{
  ◌≤◌, not, if_cases, Option, none, some, Option-cases, List, [], ◌∷◌, Text, codes, equal_fold,
  is_empty, length, leb, ◌≡◌, refl, ◌⊎◌, inl, inr, arith, if◌then◌else◌,
}
use whois_mcp.Normalize.FromRdap.Decoded.{RdapDomain}
use whois_mcp.Rdap.Client.{
  RdapResult, Url, Referred, unreachable, no_domain, domain_record, or_list, or_option,
  merge_domain, registrar_link, take_referral, follow_link, follow_registrar_hop,
}

-- What the registry says stands, and no entity is lost.
abbrev pub Supplements : RdapDomain → RdapDomain → Type 0
Supplements registry d =
    (d.handle ≡ registry.handle)
    × ((registry.status ≡ []) ⊎ (d.status ≡ registry.status))
    × ((registry.events ≡ []) ⊎ (d.events ≡ registry.events))
    × ((registry.nameservers ≡ []) ⊎ (d.nameservers ≡ registry.nameservers))
    × ((registry.secure_dns ≡ none) ⊎ (d.secure_dns ≡ registry.secure_dns))
    × (length registry.entities ≤ length d.entities)

or_list-cases {ℓ} : {A : Type ℓ} (xs ys : List A) → (xs ≡ []) ⊎ (or_list xs ys ≡ xs)
or_list-cases [] ys = inl refl
or_list-cases (x ∷ xs) ys = inr refl

or_option-cases {ℓ} : {A : Type ℓ} (o p : Option A) → (o ≡ none) ⊎ (or_option o p ≡ o)
or_option-cases none p = inl refl
or_option-cases (some a) p = inr refl

longer {ℓ} :
    {A : Type ℓ} (xs ys : List A)
    → length xs ≤ length (if leb (length ys) (length xs) then xs else ys)
longer xs ys =
    if_cases (λ (zs : List _). length xs ≤ length zs) (leb (length ys) (length xs)) _ _
      (λ _. omega arith) (λ h. ground arith)

merge_domain-Supplements :
    (registry d : RdapDomain) → Supplements registry (merge_domain registry d)
unfolding merge_domain
merge_domain-Supplements registry d = (
  refl,
  or_list-cases registry.status d.status,
  or_list-cases registry.events d.events,
  or_list-cases registry.nameservers d.nameservers,
  or_option-cases registry.secure_dns d.secure_dns,
  longer registry.entities d.entities,
)

Supplements-self : (d : RdapDomain) → Supplements d d
Supplements-self d = (refl, inr refl, inr refl, inr refl, inr refl, omega arith)

abbrev SupplementsIn : RdapDomain → Option RdapDomain → Type 0
SupplementsIn registry none = ⊥
SupplementsIn registry (some d) = Supplements registry d

found :
    (registry : RdapDomain) (o : Option RdapDomain)
    → SupplementsIn registry o
    → (d : RdapDomain) × (o ≡ some d) × Supplements registry d
found registry none h = absurd h
found registry (some d) h = (d, refl, h)

abbrev Kept : RdapDomain → RdapResult → Type 0
Kept registry r = SupplementsIn registry r.domain

module _ (parse_url : Text → Option Url) (fetch : Text → Referred) where
  take_referral-Kept :
      (u : Url) (x : Referred) (res : RdapResult) (registry : RdapDomain)
      → res.domain ≡ some registry
      → Kept registry (take_referral parse_url fetch u x res)
  unfolding take_referral
  take_referral-Kept u (unreachable e) res registry h = rw h (Supplements-self registry)
  take_referral-Kept u no_domain res registry h = rw h (Supplements-self registry)
  take_referral-Kept u (domain_record d) res registry h = rw h (merge_domain-Supplements registry d)

  follow_link-Kept :
      (href : Text) (res : RdapResult) (registry : RdapDomain)
      → res.domain ≡ some registry
      → Kept registry (follow_link parse_url fetch href res)
  unfolding follow_link
  follow_link-Kept href res registry h =
      let plain : Kept registry res = rw h (Supplements-self registry) in
      if_cases (Kept registry) (is_empty href) _ _ (λ _. plain)
        (λ _. elim (Option-cases (parse_url href)) [
          | inl e ↦ rw e plain
          | inr (u, e) ↦ rw e (
              if_cases (Kept registry) (not (equal_fold u.scheme (codes "https"))) _ _ (λ _. plain)
                (λ _. take_referral-Kept u (fetch u.text) res registry h))
        ])

  -- The referral to the registrar leaves a domain's handle, statuses, events, nameservers and DNSSEC
  -- as the registry gave them, wherever it gave any, and never leaves fewer entities.
  pub follow_registrar_hop-Supplements :
      (res : RdapResult) (registry : RdapDomain)
      → res.domain ≡ some registry
      → (d : RdapDomain) × ((follow_registrar_hop parse_url fetch res).domain ≡ some d)
        × Supplements registry d
  unfolding follow_registrar_hop
  follow_registrar_hop-Supplements res registry h =
      found registry (follow_link parse_url fetch (registrar_link res.domain) res).domain
        (follow_link-Kept (registrar_link res.domain) res registry h)
