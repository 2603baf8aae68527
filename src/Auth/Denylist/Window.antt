-- ===== src/Auth/Denylist/Window.antt =====
-- internal/auth/denylist.go and internal/auth/verifier.go: how long a revoked session can keep
-- working.
use whois_mcp.Prelude.{
  ℕ, ◌+◌, ◌≤◌, ◌*◌, ◌/◌, ◌≡◌, ◌≢◌, refl, true, false, some, List, [], ◌∷◌, Text, is_empty,
  is_empty→eq, text_eq, text_eq_iff, lookup, lookup-insert, lookup-insert_self, lookup-delete, All,
  is_ok, ltb, Bool-cases, inl, inr, arith,
}
use whois_mcp.Auth.Token.{
  Codec, IsCodec, IsIssuer, IsSid, read_back, Issuer, Claims, access_token_ttl, second, mint,
}
use whois_mcp.Auth.Token.Minted.{verify-mint}
use whois_mcp.Auth.Denylist.{
  Denylist, Call, adds, checks, time_of, add, denied, step, run, verify_token, admit,
}

-- The session is denied until `bound` at least.
abbrev pub DeniedUntil : Text → ℕ → Denylist → Type 0
DeniedUntil sid bound d = (until : ℕ) × (lookup sid d.revoked ≡ some until) × (bound ≤ until)

add-DeniedUntil :
    (d : Denylist) (sid k : Text) (bound now : ℕ)
    → bound ≤ now + d.ttl
    → DeniedUntil sid bound d
    → DeniedUntil sid bound (add d k now)
unfolding add
add-DeniedUntil d sid k bound now late (u, found, far) = elim (Bool-cases (is_empty k)) [
  | inl e ↦ rw (e, add) (u, found, far)
  | inr e ↦ elim (Bool-cases (text_eq k sid)) [
    | inl here ↦
        rw (e, add) (now + d.ttl, ground (arith, lookup-insert k sid (now + d.ttl) d.revoked), late)
    | inr there ↦ rw (e, add) (u, ground (arith, lookup-insert k sid (now + d.ttl) d.revoked), far)
  ]
]

denied-DeniedUntil :
    (d : Denylist) (sid k : Text) (bound now : ℕ)
    → now ≤ bound
    → DeniedUntil sid bound d
    → DeniedUntil sid bound (denied d k now).0
unfolding denied
denied-DeniedUntil d sid k bound now soon (u, found, far) = elim (Bool-cases (text_eq k sid)) [
  | inl here ↦ (u, ground (arith, text_eq_iff k sid), far)
  | inr there ↦ (u, ground (arith, lookup-delete k sid d.revoked), far)
]

denied-ttl : (d : Denylist) (k : Text) (now : ℕ) → (denied d k now).0.ttl ≡ d.ttl
unfolding denied
denied-ttl d k now = ground arith

add-ttl : (d : Denylist) (k : Text) (now : ℕ) → (add d k now).ttl ≡ d.ttl
unfolding add
add-ttl d k now = ground arith

run-DeniedUntil :
    (d : Denylist) (sid : Text) (from bound : ℕ) (cs : List Call)
    → bound ≤ from + d.ttl
    → All (λ c. (from ≤ time_of c) × (time_of c ≤ bound)) cs
    → DeniedUntil sid bound d
    → DeniedUntil sid bound (run d cs)
unfolding run step
run-DeniedUntil d sid from bound [] far times v = v
run-DeniedUntil d sid from bound (adds k now ∷ cs) far times v =
    run-DeniedUntil (add d k now) sid from bound cs (omega (arith, add-ttl d k now)) times.1
      (add-DeniedUntil d sid k bound now (omega arith) v)
run-DeniedUntil d sid from bound (checks k now ∷ cs) far times v =
    run-DeniedUntil (denied d k now).0 sid from bound cs (omega (arith, denied-ttl d k now)) times.1
      (denied-DeniedUntil d sid k bound now (omega arith) v)

add-DeniedUntil_self :
    (d : Denylist) (sid : Text) (from bound : ℕ)
    → sid ≢ []
    → bound ≤ from + d.ttl
    → DeniedUntil sid bound (add d sid from)
unfolding add
add-DeniedUntil_self d sid from bound named soon = elim (Bool-cases (is_empty sid)) [
  | inl e ↦ absurd (named (is_empty→eq sid e))
  | inr e ↦ rw (e, add) (from + d.ttl, lookup-insert_self sid (from + d.ttl) d.revoked, soon)
]

denied_of_DeniedUntil :
    (d : Denylist) (sid : Text) (now : ℕ)
    → sid ≢ []
    → DeniedUntil sid now d
    → (denied d sid now).1 ≡ true
unfolding denied
denied_of_DeniedUntil d sid now named (u, found, far) = ground (arith, is_empty→eq sid)

-- After a session is added, it is denied at every moment of the next ten minutes, whatever sessions
-- are added and checked in between.
pub denied-add :
    (d : Denylist) (sid : Text) (from now : ℕ) (cs : List Call)
    → sid ≢ []
    → now ≤ from + d.ttl
    → All (λ c. (from ≤ time_of c) × (time_of c ≤ now)) cs
    → (denied (run (add d sid from) cs) sid now).1 ≡ true
denied-add d sid from now cs named soon times = denied_of_DeniedUntil _ sid now named (
    run-DeniedUntil (add d sid from) sid from now cs (omega (arith, add-ttl d sid from)) times
      (add-DeniedUntil_self d sid from now named soon))

admit-denied :
    (d : Denylist) (now : ℕ) (k : Claims)
    → (denied d k.sid now).1 ≡ true
    → is_ok (admit (some d) now k).1 ≡ false
unfolding admit
admit-denied d now k h = rw h refl

module _ (c : Codec) (law : IsCodec c) (i : Issuer) (pair : IsIssuer c i) where
  -- A token that was minted for a session before the session was revoked is refused at every later
  -- moment: by the denylist for ten minutes, and by its own expiry from then on. The
  -- names of the issuer, its resource, its key and the session are valid UTF-8.
  pub verify_token_revoked :
      (d : Denylist) (sid label : Text) (granted : List Text) (jti : Text) (at from now : ℕ)
      (cs : List Call)
      → d.ttl ≡ access_token_ttl
      → IsSid c sid
      → at ≤ from
      → All (λ e. (from ≤ time_of e) × (time_of e ≤ now)) cs
      → is_ok
          (verify_token c i
            (some (run (add d sid from) cs))
            (mint c i sid label granted jti at).0
            now).1
        ≡ false
  unfolding verify_token mint
  verify_token_revoked d sid label granted jti at from now cs ten named early times =
      elim (Bool-cases (ltb ((at + access_token_ttl) / second * second) now)) [
        | inl late ↦
            rw (verify-mint c law i pair sid label granted jti at now named, late, verify_token)
              refl
        | inr soon ↦
            rw (verify-mint c law i pair sid label granted jti at now named, soon, verify_token)
              (admit-denied _ now (read_back c (mint c i sid label granted jti at).1)
                (rw named.1 (denied-add d sid from now cs named.0 (ground arith) times)))
      ]
