-- ===== src/Whois/Client/Hops.antt =====
-- internal/whois/client.go: how far the referral loop goes, and what it keeps.
use whois_mcp.Prelude.{
  holds, ℕ, zero, suc, ◌+◌, ◌≤◌, ◌≡◌, ◌≢◌, ◌∙◌, refl, sym, ap, subst, Bool, true, false, Option,
  some, List, [], ◌∷◌, Text, is_empty, is_empty→eq, to_lower, length, length-append, ◌==◌,
  Bool-cases, Option-cases, inl, inr, arith,
}
use whois_mcp.Whois.Client.{
  referral_loop, referral_failed, not_followed, Response, Exchange, QueryResult, warn, no_result,
  next_host, take_answer, record_hop, exchange_of, query_hops, client_query, max_referral_hops,
}

take_answer-chain :
    (first : Bool) (resp : Response) (res : QueryResult)
    → (take_answer first resp res).chain ≡ res.chain
unfolding take_answer
take_answer-chain first resp res = ground arith

record_hop-length :
    (allowed first : Bool) (resp : Response) (res : QueryResult)
    → length (record_hop allowed first resp res).chain ≡ length res.chain + 1
unfolding record_hop
record_hop-length allowed first resp res =
    length-append (take_answer first resp res).chain (exchange_of allowed resp ∷ [])
    ∙ ap (λ (xs : List Exchange). length xs + 1) (take_answer-chain first resp res)

record_hop_keeps :
    (allowed first : Bool) (resp : Response) (res : QueryResult)
    → is_empty res.raw ≡ false
    → is_empty (record_hop allowed first resp res).raw ≡ false
unfolding record_hop take_answer
record_hop_keeps allowed first resp res h = ground arith

record_hop_takes :
    (allowed first : Bool) (resp : Response) (res : QueryResult)
    → is_empty resp.raw ≡ false
    → is_empty (record_hop allowed first resp res).raw ≡ false
unfolding record_hop take_answer
record_hop_takes allowed first resp res h = ground arith

-- What the hops that are left may do to a result.
record Kept (res : QueryResult) (left : ℕ) (after : QueryResult) : Type 0 where
  longer : length res.chain ≤ length after.chain
  bounded : length after.chain ≤ length res.chain + left
  answered : is_empty res.raw ≡ false → is_empty after.raw ≡ false

module _ (tr : Text → Option Response) (allowed : Bool) where
  Kept-hop :
      (left : ℕ) (first : Bool) (resp : Response) (res after : QueryResult)
      → Kept (record_hop allowed first resp res) left after
      → Kept res (suc left) after
  Kept-hop left first resp res after k = record {
    longer = omega (arith, record_hop-length allowed first resp res, k.longer);
    bounded = omega (arith, record_hop-length allowed first resp res, k.bounded);
    answered = λ h. k.answered (record_hop_keeps allowed first resp res h);
  }

  Kept-self :
      (left : ℕ) (res after : QueryResult)
      → after.chain ≡ res.chain
      → after.raw ≡ res.raw
      → Kept res left after
  Kept-self left res after chain raw = record {
    longer = subst (λ (xs : List Exchange). length res.chain ≤ length xs) (sym chain) (omega arith);
    bounded =
        subst (λ (xs : List Exchange). length xs ≤ length res.chain + left) (sym chain)
          (omega arith);
    answered = λ h. ap is_empty raw ∙ h;
  }

  -- Behind the first exchange the loop always ends with a result.
  later_hops :
      (left : ℕ) (seen : List Text) (host : Text) (res : QueryResult)
      → (after : QueryResult) × (query_hops tr allowed left false seen host res ≡ some after)
        × Kept res left after
  unfolding query_hops
  later_hops zero seen host res = (res, refl, Kept-self 0 res res refl refl)
  later_hops (suc left) seen host res = elim (Bool-cases (holds (to_lower host) seen)) [
    | inl e ↦ (
      warn res (referral_loop host),
      rw (e, query_hops) refl,
      Kept-self (suc left) res _ refl refl,
    )
    | inr e ↦ elim (Option-cases (tr host)) [
      | inl q ↦ (
        warn res (referral_failed host),
        rw (e, q, query_hops) refl,
        Kept-self (suc left) res _ refl refl,
      )
      | inr (resp, q) ↦
          let res' = record_hop allowed false resp res in
          let (after, rest, k) =
            later_hops left (to_lower host ∷ seen) (next_host allowed resp) res' in
          elim (Bool-cases (is_empty (next_host allowed resp))) [
            | inl none_left ↦ (
              res',
              rw (e, q, query_hops, none_left) refl,
              Kept-hop left false resp res res' (Kept-self left res' res' refl refl),
            )
            | inr more ↦ elim (Bool-cases (left == 0)) [
              | inl stop ↦ (
                warn res' (not_followed (next_host allowed resp)),
                rw (e, q, query_hops, more, stop) refl,
                Kept-hop left false resp res _ (Kept-self left res' _ refl refl),
              )
              | inr go ↦ (
                after,
                rw (e, q, query_hops, more, go) rest,
                Kept-hop left false resp res after k,
              )
            ]
          ]
    ]
  ]

  first_hop :
      (host : Text) (resp : Response)
      → tr host ≡ some resp
      → is_empty resp.raw ≡ false
      → (after : QueryResult) × (query_hops tr allowed max_referral_hops true [] host no_result
          ≡ some after)
        × Kept (record_hop allowed true resp no_result) 1 after
  unfolding query_hops holds
  first_hop host resp q says =
      let res' = record_hop allowed true resp no_result in
      let (after, rest, k) = later_hops 1 (to_lower host ∷ []) (next_host allowed resp) res' in
      elim (Bool-cases (is_empty (next_host allowed resp))) [
        | inl none_left ↦
            (res', rw (q, query_hops, none_left) refl, Kept-self 1 res' res' refl refl)
        | inr more ↦ (after, rw (q, query_hops, more) rest, k)
      ]

-- Where the first server answers with data, the query ends with data: after at most two exchanges, no
-- later server's error or silence takes the answer away.
pub client_query_answers :
    (tr : Text → Option Response) (allowed : Bool) (host : Text) (resp : Response)
    → tr host ≡ some resp
    → resp.raw ≢ []
    → (after : QueryResult) × (client_query tr allowed host ≡ some after)
      × (after.raw ≢ [])
      × (1 ≤ length after.chain)
      × (length after.chain ≤ max_referral_hops)
unfolding client_query
client_query_answers tr allowed host resp q says = elim (Bool-cases (is_empty resp.raw)) [
  | inl e ↦ absurd (says (is_empty→eq resp.raw e))
  | inr e ↦
      let (after, done, k) = first_hop tr allowed host resp q e in
      let full = k.answered (record_hop_takes allowed true resp no_result e) in
      let size = record_hop-length allowed true resp no_result in
      (
        after,
        rw (done, client_query, full) refl,
        λ gone. absurd (ground arith),
        omega (arith, size, k.longer),
        omega (arith, size, k.bounded),
      )
]
