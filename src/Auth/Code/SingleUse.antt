-- ===== src/Auth/Code/SingleUse.antt =====
-- internal/auth/authcode.go: a code is redeemed at most once, and only by the client it is bound to.
use whois_mcp.Prelude.{
  ℕ, ◌≤◌, ◌≡◌, ◌≢◌, ◌⊎◌, ◌↔◌, ◌∙◌, refl, ap, subst, none, some, List, [], ◌∷◌, Text, is_empty→eq,
  text_eq_iff, lookup, insert, lookup-insert, lookup-delete, lookup-delete_self, lookup-delete_if,
  All, length, Option-cases, inl, inr, arith, ok, err, ltb,
}
use whois_mcp.Auth.Code.{
  Code, CodeStore, code_unknown, Call, issues, consumes, stamped, issue, consume, check_code, step,
  run,
}

module _ (s256 : Text → Text) where
  -- What the exchange must present for a stored code.
  pub record Bound (c : Code) (verifier redirect_uri client_id : Text) (now : ℕ) : Type 0 where
    pub in_time : now ≤ c.expires_at
    pub client : (c.client_id ≡ []) ⊎ (client_id ≡ []) ⊎ (c.client_id ≡ client_id)
    pub redirect : (c.redirect_uri ≡ []) ⊎ (c.redirect_uri ≡ redirect_uri)
    pub challenge : s256 verifier ≡ c.challenge
    pub challenged : c.challenge ≢ []
    pub long : 43 ≤ length verifier
    pub short : length verifier ≤ 128

  check_code-Bound :
      (c d : Code) (verifier redirect_uri client_id : Text) (now : ℕ)
      → check_code s256 c verifier redirect_uri client_id now ≡ ok d
      → (c ≡ d) × Bound c verifier redirect_uri client_id now
  unfolding check_code
  check_code-Bound c d verifier redirect_uri client_id now h = ground (
    arith,
    text_eq_iff (s256 verifier) c.challenge,
    text_eq_iff c.client_id client_id,
    text_eq_iff c.redirect_uri redirect_uri,
    is_empty→eq c.client_id,
    is_empty→eq client_id,
    is_empty→eq c.redirect_uri,
  )

  Bound-check_code :
      (c : Code) (verifier redirect_uri client_id : Text) (now : ℕ)
      → Bound c verifier redirect_uri client_id now
      → check_code s256 c verifier redirect_uri client_id now ≡ ok c
  unfolding check_code
  Bound-check_code c verifier redirect_uri client_id now b = ground (
    arith,
    text_eq_iff (s256 verifier) c.challenge,
    text_eq_iff c.client_id client_id,
    text_eq_iff c.redirect_uri redirect_uri,
    is_empty→eq c.challenge,
  )

  module _ (s : CodeStore) (code verifier redirect_uri client_id : Text) (now : ℕ) where
    -- The exchange hands out a stored code exactly when it presents what the code is bound to: it
    -- comes by the code's expiry; where the code and the exchange both name a client, they name the
    -- same one; where the code has a redirect target, the exchange has that one; and the verifier, of
    -- 43 to 128 bytes, hashes to the code's challenge, which is not empty.
    pub consume_iff :
        (c : Code)
        → ((consume s256 s code verifier redirect_uri client_id now).1 ≡ ok c)
          ↔ ((lookup code s ≡ some c) × Bound c verifier redirect_uri client_id now)
    unfolding consume
    consume_iff c = elim (Option-cases (lookup code s)) [
      | inl missing ↦ (λ h. absurd (ground arith), λ (found, _). absurd (ground arith))
      | inr (d, found) ↦ (
        λ h.
            let (e, b) =
              check_code-Bound d c verifier redirect_uri client_id now (rw (found, consume) at h) in
            (
              found ∙ ap some e,
              subst (λ (x : Code). Bound x verifier redirect_uri client_id now) e b,
            ),
        λ (at, b). rw (at, consume) (Bound-check_code c verifier redirect_uri client_id now b),
      )
    ]

    consume_gone : lookup code (consume s256 s code verifier redirect_uri client_id now).0 ≡ none
    unfolding consume
    consume_gone = ground (arith, lookup-delete_self code s)

    consume_keeps_gone :
        (k : Text)
        → lookup k s ≡ none
        → lookup k (consume s256 s code verifier redirect_uri client_id now).0 ≡ none
    unfolding consume
    consume_keeps_gone k gone = ground (arith, lookup-delete code k s)

  issue_keeps_gone :
      (s : CodeStore) (c : Code) (k code : Text) (now : ℕ)
      → k ≢ code
      → lookup code s ≡ none
      → lookup code (issue s c k now) ≡ none
  unfolding issue
  issue_keeps_gone s c k code now other gone = ground (
    arith,
    lookup-delete_if (λ (c : Code). ltb c.expires_at now) code (insert k (stamped c k now) s),
    lookup-insert k code (stamped c k now) s,
    text_eq_iff k code,
  )

  -- A code is drawn at random, so no later call issues one that was issued before.
  abbrev pub Issues : Text → Call → Type 0
  Issues code (issues c k now) = k ≡ code
  Issues code (consumes k v r i now) = ⊥

  run_keeps_gone :
      (s : CodeStore) (code : Text) (cs : List Call)
      → All (λ c. ¬ Issues code c) cs
      → lookup code s ≡ none
      → lookup code (run s256 s cs) ≡ none
  unfolding run step
  run_keeps_gone s code [] fresh gone = gone
  run_keeps_gone s code (issues c k now ∷ cs) fresh gone =
      run_keeps_gone (issue s c k now) code cs fresh.1
        (issue_keeps_gone s c k code now fresh.0 gone)
  run_keeps_gone s code (consumes k v r i now ∷ cs) fresh gone =
      run_keeps_gone (consume s256 s k v r i now).0 code cs fresh.1
        (consume_keeps_gone s k v r i now code gone)

  -- A code is spent by the first exchange that names it, also one that fails: whatever calls follow,
  -- no later exchange of it succeeds.
  pub consume-consume :
      (s : CodeStore) (code v r i v' r' i' : Text) (now later : ℕ) (cs : List Call)
      → All (λ c. ¬ Issues code c) cs
      → (consume s256 (run s256 (consume s256 s code v r i now).0 cs) code v' r' i' later).1
        ≡ err code_unknown
  unfolding consume
  consume-consume s code v r i v' r' i' now later cs fresh =
      let gone =
        run_keeps_gone (consume s256 s code v r i now).0 code cs fresh
          (consume_gone s code v r i now) in
      rw (gone, consume) refl
