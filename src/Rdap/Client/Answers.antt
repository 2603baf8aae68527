-- ===== src/Rdap/Client/Answers.antt =====
-- internal/rdapx/client.go: which answers of the servers decide.
use whois_mcp.Prelude.{
  Bool, true, not, ◌&&◌, Bool-cases, if_cases, Option, some, Option-cases, List, [], ◌∷◌, Text,
  codes, equal_fold, is_empty, Result, ok, err, Result-cases, ◌≡◌, refl, sym, subst, ◌⊎◌, inl, inr,
  arith, if◌then◌else◌,
}
use whois_mcp.Normalize.Report.{Tristate, affirmed, denied, undecided, Query}
use whois_mcp.Rdap.Registry.{Registry, bases_for}
use whois_mcp.Rdap.Client.{
  RdapResult, Answer, domain_object, other_object, object_does_not_exist, bootstrap_refused, failed,
  stopped, Exchange, rejected, replied, QueryError, LastError, no_error, no_service, other_error,
  Url, Referred, unreachable, no_domain, domain_record, Round, answered, stops, goes_on,
  take_answer, take_exchange, exhausted, query_bases, no_answer, hop_if, take_referral, follow_link,
  follow_registrar_hop, query_with_options, capture, ask_server, registrar_link,
}

-- The exchange says outright that there is such a domain, or that there is none.
abbrev pub Affirms : Answer → Type 0
Affirms (domain_object d) = Unit
Affirms (other_object w) = ⊥
Affirms (object_does_not_exist w) = ⊥
Affirms (bootstrap_refused w) = ⊥
Affirms (failed w) = ⊥
Affirms (stopped w) = ⊥

abbrev pub Denies : Answer → Type 0
Denies (domain_object d) = ⊥
Denies (other_object w) = ⊥
Denies (object_does_not_exist w) = Unit
Denies (bootstrap_refused w) = ⊥
Denies (failed w) = ⊥
Denies (stopped w) = ⊥

abbrev pub Says : (Answer → Type 0) → Exchange → Type 0
Says P (rejected w) = ⊥
Says P (replied reply) = P reply.answer

-- The answer of a report, if it is a definite one, is what the server's answer says.
abbrev Fits : Tristate → Answer → Type 0
Fits affirmed a = Affirms a
Fits denied a = Denies a
Fits undecided a = Unit

abbrev FitsRound : Answer → Round → Type 0
FitsRound a (answered r) = Fits r.registered a
FitsRound a stops = Unit
FitsRound a (goes_on r e) = Unit

take_answer-Fits : (a : Answer) (res : RdapResult) → FitsRound a (take_answer a res)
unfolding take_answer
take_answer-Fits (domain_object d) res = tt
take_answer-Fits (other_object w) res = tt
take_answer-Fits (object_does_not_exist w) res = tt
take_answer-Fits (bootstrap_refused w) res = tt
take_answer-Fits (failed w) res = tt
take_answer-Fits (stopped w) res = tt

abbrev FitsExchange : Tristate → Exchange → Type 0
FitsExchange t (rejected w) = ⊥
FitsExchange t (replied reply) = Fits t reply.answer

take_exchange-Fits :
    (base : Text) (x : Exchange) (res r : RdapResult)
    → take_exchange base x res ≡ answered r
    → FitsExchange r.registered x
unfolding take_exchange
take_exchange-Fits base (rejected w) res r h = cc
take_exchange-Fits base (replied reply) res r h =
    subst (FitsRound reply.answer) h
      (take_answer-Fits reply.answer (capture reply (ask_server res base)))

Says-affirmed : (x : Exchange) → FitsExchange affirmed x → Says Affirms x
Says-affirmed (rejected w) f = absurd f
Says-affirmed (replied reply) f = f

Says-denied : (x : Exchange) → FitsExchange denied x → Says Denies x
Says-denied (rejected w) f = absurd f
Says-denied (replied reply) f = f

Round-cases :
    (x : Round)
    → ((r : RdapResult) × (x ≡ answered r))
      ⊎ ((x ≡ stops) ⊎ ((r : RdapResult) × (e : LastError) × (x ≡ goes_on r e)))
Round-cases (answered r) = inl (r, refl)
Round-cases stops = inr (inl refl)
Round-cases (goes_on r e) = inr (inr (r, e, refl))

module _ {G : Type 0} (is_url : Text → Bool) (ask : Text → G → G × Exchange) where
  -- Some exchange of the run over the base URLs says so.
  abbrev pub Heard : (Answer → Type 0) → List Text → G → Type 0
  Heard P [] g = ⊥
  Heard P (base ∷ bases) g =
      ((is_url base ≡ true) × Says P (ask base g).1)
      ⊎ Heard P bases (if is_url base then (ask base g).0 else g)

  -- A definite answer was heard.
  abbrev pub Backed : Tristate → List Text → G → Type 0
  Backed affirmed bases g = Heard Affirms bases g
  Backed denied bases g = Heard Denies bases g
  Backed undecided bases g = Unit

  Backed-here :
      (t : Tristate) (base : Text) (bases : List Text) (g : G)
      → is_url base ≡ true
      → FitsExchange t (ask base g).1
      → Backed t (base ∷ bases) g
  Backed-here affirmed base bases g u f = inl (u, Says-affirmed (ask base g).1 f)
  Backed-here denied base bases g u f = inl (u, Says-denied (ask base g).1 f)
  Backed-here undecided base bases g u f = tt

  Backed-later :
      (t : Tristate) (base : Text) (bases : List Text) (g : G)
      → Backed t bases (if is_url base then (ask base g).0 else g)
      → Backed t (base ∷ bases) g
  Backed-later affirmed base bases g b = inr b
  Backed-later denied base bases g b = inr b
  Backed-later undecided base bases g b = tt

  exhausted-undecided :
      (last : LastError) (res r : RdapResult) → exhausted last res ≡ ok r → r.registered ≡ undecided
  exhausted-undecided no_error res r h = ground arith
  exhausted-undecided no_service res r h = cc
  exhausted-undecided other_error res r h = ground arith

  query_bases-Backed :
      (bases : List Text) (res : RdapResult) (last : LastError) (g : G) (r : RdapResult)
      → (query_bases is_url ask bases res last g).1 ≡ ok r
      → Backed r.registered bases g
  unfolding query_bases
  query_bases-Backed [] res last g r h = rw (exhausted-undecided last res r h) tt
  query_bases-Backed (base ∷ bases) res last g r h = elim (Bool-cases (is_url base)) [
    | inr u ↦
        Backed-later r.registered base bases g
          (rw u (query_bases-Backed bases res other_error g r (rw (u, query_bases) at h)))
    | inl u ↦ elim (Round-cases (take_exchange base (ask base g).1 res)) [
      | inl (r', e) ↦
          let q : ◌≡◌ {A = Result QueryError RdapResult} (ok r') (ok r) =
            rw (u, e, query_bases) at h in
          Backed-here r.registered base bases g u
            (take_exchange-Fits base (ask base g).1 res r (cc))
      | inr (inl e) ↦ cc (rw (u, e, query_bases) at h)
      | inr (inr (r', w, e)) ↦
          Backed-later r.registered base bases g
            (rw u (query_bases-Backed bases r' w (ask base g).0 r (rw (u, e, query_bases) at h)))
    ]
  ]

abbrev HopKeeps : RdapResult → RdapResult → Type 0
HopKeeps res r = r.registered ≡ res.registered

-- The hop to the registrar leaves the answer alone.
module _ (parse_url : Text → Option Url) (fetch : Text → Referred) where
  take_referral-registered :
      (u : Url) (x : Referred) (res : RdapResult)
      → (take_referral parse_url fetch u x res).registered ≡ res.registered
  unfolding take_referral
  take_referral-registered u (unreachable e) res = refl
  take_referral-registered u no_domain res = refl
  take_referral-registered u (domain_record d) res = refl

  follow_link-registered :
      (href : Text) (res : RdapResult)
      → (follow_link parse_url fetch href res).registered ≡ res.registered
  unfolding follow_link
  follow_link-registered href res =
      if_cases (HopKeeps res) (is_empty href) _ _ (λ _. refl)
        (λ _. elim (Option-cases (parse_url href)) [
          | inl e ↦ rw (e) refl
          | inr (u, e) ↦ rw (e) (
              if_cases (HopKeeps res) (not (equal_fold u.scheme (codes "https"))) _ _ (λ _. refl)
                (λ _. take_referral-registered u (fetch u.text) res))
        ])

  follow_hop-registered :
      (res : RdapResult) → (follow_registrar_hop parse_url fetch res).registered ≡ res.registered
  unfolding follow_registrar_hop
  follow_hop-registered res = follow_link-registered (registrar_link res.domain) res

abbrev SameAnswer : Tristate → Result QueryError RdapResult → Type 0
SameAnswer t (err e) = Unit
SameAnswer t (ok r) = r.registered ≡ t

hop_if-SameAnswer :
    (follow : Bool) (hop : RdapResult → RdapResult)
    → ((r : RdapResult) → (hop r).registered ≡ r.registered)
    → (r : RdapResult) → SameAnswer r.registered (hop_if follow hop (ok r))
hop_if-SameAnswer follow hop same r =
    elim r.registered
      as (λ (t : Tristate). SameAnswer r.registered (elim t [
        | affirmed ↦ if follow then ok (hop r) else ok r
        | denied ↦ ok r
        | undecided ↦ ok r
      ])) [
        | affirmed ↦ if_cases (SameAnswer r.registered) follow _ _ (λ _. same r) (λ _. refl)
        | denied ↦ refl
        | undecided ↦ refl
      ]

module _ {G : Type 0} (is_url : Text → Bool) (ask : Text → Text → G → G × Exchange)
    (parse_url : Text → Option Url) (fetch : Text → Referred) where
  -- The result of a query says that a domain is registered only if a server of its top-level domain
  -- answered with a domain object, and that it is not only if one answered that there is no such
  -- object; a refusal of the rate limit or of the circuit breaker is neither.
  pub query_with_options-Backed :
      (reg : Registry) (follow skip : Bool) (q : Query) (g : G) (r : RdapResult)
      → (query_with_options is_url ask parse_url fetch reg follow q skip g).1 ≡ ok r
      → (bases : List Text) × (bases_for reg q.tld ≡ some bases)
        × Backed is_url (ask q.ascii) r.registered bases g
  unfolding query_with_options
  query_with_options-Backed reg follow skip q g r h = elim (Option-cases (bases_for reg q.tld)) [
    | inl e ↦ cc (rw (e, query_with_options) at h)
    | inr (bases, e) ↦
        let hop = follow_registrar_hop parse_url fetch in
        let found = (query_bases is_url (ask q.ascii) bases no_answer no_error g).1 in
        let k : hop_if (follow && not skip) hop found ≡ ok r = rw (e, query_with_options) at h in
        elim (Result-cases found) [
          | inr (why, f) ↦ cc (rw f at k)
          | inl (r0, f) ↦
              let same : r.registered ≡ r0.registered =
                subst (SameAnswer r0.registered) (rw f at k) (
                  hop_if-SameAnswer (follow && not skip) hop (follow_hop-registered parse_url fetch)
                    r0) in
              (
                bases,
                e,
                subst (λ (t : Tristate). Backed is_url (ask q.ascii) t bases g) (sym same)
                    (query_bases-Backed is_url (ask q.ascii) bases no_answer no_error g r0 f),
              )
        ]
  ]
