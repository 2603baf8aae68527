-- ===== src/Resolve/Lookup/Reuse.antt =====
-- internal/resolve/resolver.go: a lookup that finds the report of an earlier one in the cache.
use whois_mcp.Prelude.{
  ℕ, ◌+◌, ◌-◌, ◌≤◌, ◌<◌, false, if_cases, Option, none, some, Text, leb, ◌==◌, lookup-insert_self,
  ok, ◌≡◌, refl, ap, ◌∙◌, arith,
}
use whois_mcp.Cache.{Memory, get, set, get_across}
use whois_mcp.Normalize.Report.{Query, DomainReport, hit}
use whois_mcp.Resolve.Ttl.{ttl_for}
use whois_mcp.Resolve.Lookup.{
  Resolver, Options, Times, cache_key, store, stored, usable, from_cache, fresh_report, answer_from,
  lookup_query,
}

get-set :
    (m : Memory Text) (key raw : Text) (ttl now later : ℕ)
    → 0 < ttl
    → later ≤ now + ttl
    → get (set m key raw ttl now) key later ≡ (set m key raw ttl now, some raw)
unfolding get get_across set
get-set m key raw ttl now later pos young =
    ground (arith, lookup-insert_self key (record { val = raw; expires_at = now + ttl }) m)

abbrev pub as_hit : DomainReport → DomainReport
as_hit rep = record rep { source = record rep.source { cache = hit } }

module _ {U : Type 0} (r : Resolver U) where
  usable-young :
      (max_age now : ℕ) (raw : Text) (rep : DomainReport)
      → r.decode raw ≡ some rep
      → now - rep.source.fetched_at ≤ max_age
      → usable r max_age now (some raw) ≡ some (as_hit rep)
  unfolding usable
  usable-young max_age now raw rep d young =
      rw (d, usable)
        (if_cases (λ (o : Option DomainReport). o ≡ some (as_hit rep))
          (leb (now - rep.source.fetched_at) max_age) _ _ (λ _. refl) (λ h. ground arith))

  store-set :
      (key : Text) (rep : DomainReport) (now : ℕ) (m : Memory Text) (raw : Text)
      → r.encode rep ≡ some raw
      → store r key rep now m ≡ set m key raw (ttl_for r.policy rep.registered) now
  unfolding store
  store-set key rep now m raw e = rw (e, store) refl

  from_cache-store :
      (key : Text) (rep : DomainReport) (now later max_age : ℕ) (m : Memory Text) (raw : Text)
      → r.encode rep ≡ some raw
      → r.decode raw ≡ some rep
      → 0 < ttl_for r.policy rep.registered
      → later ≤ now + ttl_for r.policy rep.registered
      → 0 < max_age
      → later - rep.source.fetched_at ≤ max_age
      → from_cache r key max_age later (store r key rep now m)
        ≡ (store r key rep now m, some (as_hit rep))
  unfolding from_cache
  from_cache-store key rep now later max_age m raw e d pos live wants young =
      let ttl = ttl_for r.policy rep.registered in
      let never : (max_age == 0) ≡ false = ground arith in
      rw (store-set key rep now m raw e) (
        rw
          (
            never,
            get-set m key raw ttl now later pos live,
            usable-young max_age later raw rep d young,
          )
          refl)

  lookup_query_fresh :
      (q : Query) (opt : Options) (times : Times) (m m' : Memory Text) (u u' : U)
      (rep : DomainReport)
      → from_cache r (cache_key q.ascii) opt.max_age times.read_at m ≡ (m', none)
      → fresh_report r q opt.skip_registrar_referral times.fetched_at u ≡ (u', ok rep)
      → lookup_query r q opt times (m, u)
        ≡ ((store r (cache_key q.ascii) rep times.stored_at m', u'), ok rep)
  unfolding lookup_query
  lookup_query_fresh q opt times m m' u u' rep missed f =
      ap (answer_from r q opt times u) missed
      ∙ ap (stored r (cache_key q.ascii) times.stored_at m') f

  lookup_query_hit :
      (q : Query) (opt : Options) (times : Times) (m : Memory Text) (u : U) (rep : DomainReport)
      → from_cache r (cache_key q.ascii) opt.max_age times.read_at m ≡ (m, some (as_hit rep))
      → lookup_query r q opt times (m, u) ≡ ((m, u), ok (as_hit rep))
  unfolding lookup_query
  lookup_query_hit q opt times m u rep h = ap (answer_from r q opt times u) h

  -- After a lookup that found no usable report in the cache, whatever its tolerance, and was answered
  -- afresh and cached, any lookup of the same domain within the
  -- lifetime of the report and the caller's tolerance gets that report, marked as a hit, and asks no
  -- server: also one that wants the registrar's record where the first left it out.
  pub lookup_query-lookup_query :
      (q : Query) (opt opt' : Options) (times times' : Times) (m m' : Memory Text) (u u' : U)
      (rep : DomainReport) (raw : Text)
      → from_cache r (cache_key q.ascii) opt.max_age times.read_at m ≡ (m', none)
      → fresh_report r q opt.skip_registrar_referral times.fetched_at u ≡ (u', ok rep)
      → r.encode rep ≡ some raw
      → r.decode raw ≡ some rep
      → 0 < ttl_for r.policy rep.registered
      → times'.read_at ≤ times.stored_at + ttl_for r.policy rep.registered
      → 0 < opt'.max_age
      → times'.read_at - rep.source.fetched_at ≤ opt'.max_age
      → let s = (lookup_query r q opt times (m, u)).0 in
        lookup_query r q opt' times' s ≡ (s, ok (as_hit rep))
  lookup_query-lookup_query q opt opt' times times' m m' u u' rep raw missed f e d pos live wants
        young =
      let key = cache_key q.ascii in
      let m1 = store r key rep times.stored_at m' in
      rw (lookup_query_fresh q opt times m m' u u' rep missed f) (
        lookup_query_hit q opt' times' m1 u' rep (
          from_cache-store key rep times.stored_at times'.read_at opt'.max_age m' raw e d pos live
            wants young))
