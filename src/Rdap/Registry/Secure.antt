-- ===== src/Rdap/Registry/Secure.antt =====
-- internal/rdapx/bootstrap.go: what the registry answers, and what a refresh leaves of it.
use whois_mcp.Prelude.{
  ℕ, true, Bool-cases, if_cases, Option, none, some, Option-cases, List, [], ◌∷◌, Text, codes,
  is_empty, text_eq, Dict, lookup, insert, lookup-insert, Result, ok, err, Result-cases, All,
  to_lower, to_lower-append, has_prefix-append, ◌++◌, if◌then◌else◌, trim_space, has_prefix, ◌≡◌,
  ◌≢◌, refl, subst, inl, inr,
}
use whois_mcp.Rdap.Bootstrap.{Document, ends_with_slash, prefer_https}
use whois_mcp.Rdap.Registry.{
  Registry, RegistryError, has_none, some_bases, Fetched, no_response, not_modified, other_status,
  no_body, body, add_tlds, add_service, tlds_from, load_document, load, no_registry, new_registry,
  refresh, bases_for,
}

-- A base URL is of the https scheme and ends with a slash.
abbrev pub Secure : Text → Type 0
Secure u = (has_prefix (codes "https://") (to_lower u) ≡ true) × (ends_with_slash u ≡ true)

abbrev SecureIn : Option (List Text) → Type 0
SecureIn none = Unit
SecureIn (some us) = All Secure us

abbrev NonEmptySecure : Option (List Text) → Type 0
NonEmptySecure none = Unit
NonEmptySecure (some us) = (us ≢ []) × All Secure us

abbrev SecureMap : Dict (List Text) → Type 0
SecureMap m = (k : Text) → SecureIn (lookup k m)

ends_with_slash-concat : (u : Text) → ends_with_slash (u ++ b'/' ∷ []) ≡ true
unfolding ends_with_slash
ends_with_slash-concat [] = refl
ends_with_slash-concat (c ∷ []) = refl
ends_with_slash-concat (c ∷ d ∷ u) = ends_with_slash-concat (d ∷ u)

with_slash-Secure :
    (u : Text)
    → has_prefix (codes "https://") (to_lower u) ≡ true
    → Secure (if ends_with_slash u then u else u ++ b'/' ∷ [])
with_slash-Secure u h =
    if_cases Secure (ends_with_slash u) _ _ (λ e. (h, e))
      (λ _. (
        rw (to_lower-append u (b'/' ∷ []))
            (has_prefix-append (codes "https://") (to_lower u) (to_lower (b'/' ∷ [])) h),
        ends_with_slash-concat u,
      ))

nothing : (k : Text) → SecureIn (lookup k [])
unfolding lookup
nothing k = tt

option_clash {ℓ} : {A : Type ℓ} {a : A} → none ≢ some a
option_clash e = cc

some_bases-Secure :
    (o : Option (List Text)) (bases : List Text)
    → SecureIn o
    → some_bases o ≡ some bases
    → (bases ≢ []) × All Secure bases
some_bases-Secure none bases h b = absurd (option_clash b)
some_bases-Secure (some []) bases h b = absurd (option_clash b)
some_bases-Secure (some (u ∷ us)) bases h b =
    subst (λ (o : Option (List Text)). NonEmptySecure o) b ((λ e. cc), h)

prefer_https-Secure : (us : List Text) → All Secure (prefer_https us)
unfolding prefer_https
prefer_https-Secure [] = tt
prefer_https-Secure (u ∷ us) =
    if_cases (All Secure) (has_prefix (codes "https://") (to_lower (trim_space u))) _ _
      (λ e. (with_slash-Secure (trim_space u) e, prefer_https-Secure us))
      (λ _. prefer_https-Secure us)

insert-Secure :
    (t : Text) (secure : List Text) (m : Dict (List Text))
    → All Secure secure
    → SecureMap m
    → SecureMap (insert t secure m)
insert-Secure t secure m s h k = elim (Bool-cases (text_eq t k)) [
  | inl e ↦ rw (lookup-insert t k secure m, e) s
  | inr e ↦ rw (lookup-insert t k secure m, e) (h k)
]

add_tlds-Secure :
    (tlds secure : List Text) (m : Dict (List Text))
    → All Secure secure
    → SecureMap m
    → SecureMap (add_tlds tlds secure m)
unfolding add_tlds
add_tlds-Secure [] secure m s h = h
add_tlds-Secure (tld ∷ tlds) secure m s h =
    let t = to_lower (trim_space tld) in
    add_tlds-Secure tlds secure (if is_empty t then m else insert t secure m) s
      (if_cases SecureMap (is_empty t) _ _ (λ _. h) (λ _. insert-Secure t secure m s h))

add_service-Secure :
    (svc : List (List Text)) (m : Dict (List Text)) → SecureMap m → SecureMap (add_service svc m)
unfolding add_service
add_service-Secure [] m h = h
add_service-Secure (tlds ∷ []) m h = h
add_service-Secure (tlds ∷ urls ∷ []) m h =
    let secure = prefer_https urls in
    if_cases SecureMap (has_none secure) _ _ (λ _. h)
      (λ _. add_tlds-Secure tlds secure m (prefer_https-Secure urls) h)
add_service-Secure (tlds ∷ urls ∷ x ∷ xs) m h = h

tlds_from-Secure :
    (svcs : List (List (List Text))) (m : Dict (List Text))
    → SecureMap m
    → SecureMap (tlds_from svcs m)
unfolding tlds_from
tlds_from-Secure [] m h = h
tlds_from-Secure (svc ∷ svcs) m h =
    tlds_from-Secure svcs (add_service svc m) (add_service-Secure svc m h)

abbrev SecureResult : Result RegistryError Registry → Type 0
SecureResult (err e) = Unit
SecureResult (ok r) = SecureMap r.by_tld

load_document-Secure :
    (doc : Document) (etag : Text) (now : ℕ) (r : Registry)
    → SecureResult (load_document doc etag now r)
unfolding load_document
load_document-Secure doc etag now r =
    if_cases SecureResult (has_none doc.services) _ _ (λ _. tt)
      (λ _.
        if_cases SecureResult (has_none (tlds_from doc.services [])) _ _ (λ _. tt)
          (λ _. tlds_from-Secure doc.services [] (λ k. nothing k)))

module _ (decode : Text → Option Document) where
  load-Secure :
      (raw etag : Text) (now : ℕ) (r : Registry) → SecureResult (load decode raw etag now r)
  unfolding load
  load-Secure raw etag now r = elim (Option-cases (decode raw)) [
    | inl e ↦ rw (e, load) tt
    | inr (doc, e) ↦ rw (e, load) (load_document-Secure doc etag now r)
  ]

  refresh-Secure :
      (f : Fetched) (now : ℕ) (r : Registry)
      → SecureMap r.by_tld
      → SecureMap (refresh decode f now r).0.by_tld
  unfolding refresh
  refresh-Secure no_response now r h = h
  refresh-Secure not_modified now r h = h
  refresh-Secure other_status now r h = h
  refresh-Secure no_body now r h = h
  refresh-Secure (body raw etag) now r h = elim (Result-cases (load decode raw etag now r)) [
    | inl (r', e) ↦ rw (e, refresh) (subst SecureResult e (load-Secure raw etag now r))
    | inr (why, e) ↦ rw (e, refresh) h
  ]

  -- A refresh that reports an error leaves the registry as it is.
  pub refresh_failed :
      (f : Fetched) (now : ℕ) (r : Registry) (why : RegistryError)
      → (refresh decode f now r).1 ≡ some why
      → (refresh decode f now r).0 ≡ r
  unfolding refresh
  refresh_failed no_response now r why h = refl
  refresh_failed not_modified now r why h = cc
  refresh_failed other_status now r why h = refl
  refresh_failed no_body now r why h = refl
  refresh_failed (body raw etag) now r why h = elim (Result-cases (load decode raw etag now r)) [
    | inl (r', e) ↦ absurd (option_clash (rw (e, refresh) at h))
    | inr (w, e) ↦ rw (e, refresh) refl
  ]

  -- The registry after a sequence of refreshes, each with its time.
  abbrev pub refreshed : List (Fetched × ℕ) → Registry → Registry
  refreshed [] r = r
  refreshed ((f, now) ∷ fs) r = refreshed fs (refresh decode f now r).0

  refreshed-Secure :
      (fs : List (Fetched × ℕ)) (r : Registry)
      → SecureMap r.by_tld
      → SecureMap (refreshed fs r).by_tld
  refreshed-Secure [] r h = h
  refreshed-Secure ((f, now) ∷ fs) r h =
      refreshed-Secure fs (refresh decode f now r).0 (refresh-Secure f now r h)

  -- From the embedded snapshot and through any refreshes, the base URLs that a domain has are at least
  -- one, all of the https scheme, and end with a slash.
  pub bases_for-Secure :
      (embedded : Text) (start : ℕ) (r : Registry) (fs : List (Fetched × ℕ)) (tld : Text)
      (bases : List Text)
      → new_registry decode embedded start ≡ ok r
      → bases_for (refreshed fs r) tld ≡ some bases
      → (bases ≢ []) × All Secure bases
  unfolding new_registry bases_for
  bases_for-Secure embedded start r fs tld bases h b =
      let m : SecureMap r.by_tld =
        subst SecureResult h (load-Secure embedded [] start no_registry) in
      some_bases-Secure (lookup (to_lower tld) (refreshed fs r).by_tld) bases
        (refreshed-Secure fs r m (to_lower tld)) b
