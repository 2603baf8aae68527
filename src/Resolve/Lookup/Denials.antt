-- ===== src/Resolve/Lookup/Denials.antt =====
-- internal/resolve/resolver.go: what a report that calls a domain free, or taken, rests on.
use whois_mcp.Prelude.{
  ℕ, Bool, ◌&&◌, if_cases, some, Option-cases, ◌++◌, Text, codes, to_lower, Result, ok, err,
  Result-cases, ◌≡◌, ◌≢◌, refl, sym, subst, ◌⊎◌, inl, inr,
}
use whois_mcp.Whois.Client.{QueryResult}
use whois_mcp.Whois.Parsers.Templates.{template_for}
use whois_mcp.Whois.Parsers.Classify.{
  Availability, registered, unregistered, unknown, classify, not_found_signatures,
  registered_signals, rate_limit_signatures,
}
use whois_mcp.Whois.Parsers.Classify.Safe.{Says, absent_phrases, classify-unregistered}
use whois_mcp.Rdap.Client.{RdapResult, no_rdap_service, cancelled}
use whois_mcp.Normalize.Report.{Tristate, affirmed, denied, undecided, Query, DomainReport}
use whois_mcp.Normalize.FromRdap.{from_rdap}
use whois_mcp.Normalize.FromWhois.{from_whois}
use whois_mcp.Resolve.Lookup.{
  Resolver, tristate, last_server, whois_report, is_undecided, is_configured, via_whois,
  rdap_report, choose, fall_back, fresh_report, LookupError,
}

Tristate-cases : (t : Tristate) → (t ≡ affirmed) ⊎ ((t ≡ denied) ⊎ (t ≡ undecided))
Tristate-cases affirmed = inl refl
Tristate-cases denied = inr (inl refl)
Tristate-cases undecided = inr (inr refl)

tristate-denied : (a : Availability) → tristate a ≡ denied → a ≡ unregistered
unfolding tristate
tristate-denied registered h = cc
tristate-denied unregistered h = refl
tristate-denied unknown h = cc

-- A WHOIS response that is no refusal and holds a phrase for a free domain: one of the host's own, or
-- a common one with no sign of a record.
abbrev pub SaysFree : QueryResult → Type 0
SaysFree res =
    (¬ Says (to_lower res.raw) rate_limit_signatures)
    × (Says (to_lower res.raw) (absent_phrases (template_for (last_server res.servers)))
        ⊎ (Says (to_lower res.raw) not_found_signatures
            × (¬ Says (to_lower res.raw) registered_signals)))

abbrev DeniedIn : Result LookupError DomainReport → Type 0
DeniedIn (err e) = ⊥
DeniedIn (ok rep) = rep.registered ≡ denied

module _ {U : Type 0} (r : Resolver U) where
  -- A WHOIS server was asked and its response says that the domain is free.
  abbrev pub WhoisDenies : Query → Type 0
  WhoisDenies q =
      (query : Query → U → U × Result Text QueryResult) × (r.query_whois ≡ some query)
      × (u : U) × (res : QueryResult) × ((query q u).1 ≡ ok res)
      × SaysFree res

  whois_report-denied :
      (q : Query) (at : ℕ) (res : QueryResult)
      → (whois_report r q at res).registered ≡ denied
      → SaysFree res
  unfolding whois_report from_whois
  whois_report-denied q at res h =
      let host = last_server res.servers in
      classify-unregistered host res.raw (tristate-denied (classify host res.raw) h)

  via_whois-denied :
      (q : Query) (at : ℕ) (because : Text) (u : U)
      → (via_whois r q at because u).1.registered ≡ denied
      → WhoisDenies q
  unfolding via_whois
  via_whois-denied q at because u h = elim (Option-cases r.query_whois) [
    | inl e ↦ cc (rw (e, via_whois) at h)
    | inr (query, e) ↦ elim (Result-cases (query q u).1) [
      | inr (w, f) ↦ cc (rw (e, f, via_whois) at h)
      | inl (res, f) ↦
          (query, e, u, res, f, whois_report-denied q at res (rw (e, f, via_whois) at h))
    ]
  ]

  from_rdap-denied :
      (q : Query) (res : RdapResult) (at : ℕ) (state : Text)
      → (from_rdap r.parse_time q res.domain res.servers at state).registered ≢ denied
  unfolding from_rdap
  from_rdap-denied q res at state = elim (Option-cases res.domain) [
    | inl e ↦ rw (e, from_rdap) (λ h. cc)
    | inr (d, e) ↦ rw (e, from_rdap) (λ h. cc)
  ]

  rdap_report-denied :
      (q : Query) (at : ℕ) (res : RdapResult)
      → (rdap_report r q at res).registered ≡ denied
      → res.registered ≡ denied
  unfolding rdap_report
  rdap_report-denied q at res h = elim (Tristate-cases res.registered) [
    | inl e ↦ absurd (from_rdap-denied q res at _ (rw (e, rdap_report) at h))
    | inr (inl e) ↦ e
    | inr (inr e) ↦ cc (rw (e, rdap_report) at h)
  ]

  choose-denied :
      (rep alt : DomainReport)
      → (choose rep alt).registered ≡ denied
      → (rep.registered ≡ denied) ⊎ (alt.registered ≡ denied)
  unfolding choose
  choose-denied rep alt h = elim (Tristate-cases alt.registered) [
    | inl e ↦ cc (rw (e, choose) at h)
    | inr (inl e) ↦ inr e
    | inr (inr e) ↦ inl (rw (e, choose) at h)
  ]

  fall_back-denied :
      (q : Query) (at : ℕ) (rep : DomainReport) (u : U)
      → (fall_back r q at rep u).1.registered ≡ denied
      → (rep.registered ≡ denied) ⊎ WhoisDenies q
  unfolding fall_back
  fall_back-denied q at rep u h =
      let alt = (via_whois r q at (codes "RDAP returned no definite answer") u).1 in
      if_cases
        (λ (p : U × DomainReport).
          p.1.registered ≡ denied → (rep.registered ≡ denied) ⊎ WhoisDenies q)
        (is_undecided rep.registered && is_configured r.query_whois) _ _
        (λ _ d. elim (choose-denied rep alt d) [
          | inl p ↦ inl p
          | inr p ↦ inr (via_whois-denied q at (codes "RDAP returned no definite answer") u p)
        ])
        (λ _ d. inl d) h

  -- A report that is not from the cache says that a domain is not registered only if an RDAP result
  -- says so, or if a WHOIS server was asked whose response is no refusal and holds one of the host's
  -- phrases for a free domain, or a common one with no sign of a record.
  pub fresh_report-denied :
      (q : Query) (skip : Bool) (at : ℕ) (u : U) (rep : DomainReport)
      → (fresh_report r q skip at u).1 ≡ ok rep
      → rep.registered ≡ denied
      → ((res : RdapResult) × ((r.query_rdap q skip u).1 ≡ ok res) × (res.registered ≡ denied))
        ⊎ WhoisDenies q
  unfolding fresh_report
  fresh_report-denied q skip at u rep h d = elim (Result-cases (r.query_rdap q skip u).1) [
    | inr (cancelled, e) ↦ cc (rw (e, fresh_report) at h)
    | inr (no_rdap_service, e) ↦
        let because = codes "TLD ." ++ (q.tld ++ codes " publishes no RDAP service") in
        let u' = (r.query_rdap q skip u).0 in
        inr (via_whois-denied q at because u' (subst DeniedIn (sym (rw (e, fresh_report) at h)) d))
    | inl (res, e) ↦
        let u' = (r.query_rdap q skip u).0 in
        let d' : (fall_back r q at (rdap_report r q at res) u').1.registered ≡ denied =
          subst DeniedIn (sym (rw (e, fresh_report) at h)) d in
        elim (fall_back-denied q at (rdap_report r q at res) u' d') [
          | inl p ↦ inl (res, e, rdap_report-denied q at res p)
          | inr p ↦ inr p
        ]
  ]
