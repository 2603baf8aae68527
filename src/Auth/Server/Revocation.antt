-- ===== src/Auth/Server/Revocation.antt =====
-- internal/auth/oauthsrv.go: an access token at the revocation endpoint.
use whois_mcp.Prelude.{
  ℕ, ◌+◌, ◌≤◌, ◌≡◌, ◌≢◌, ◌∙◌, refl, sym, ap, subst, false, Option, some, List, [], Text, is_empty,
  is_empty→eq, lookup, lookup-insert_self, ◌*◌, ◌/◌, le→ltb_false, ok, is_ok, All, Bool-cases, inl,
  inr,
}
use whois_mcp.Auth.Session.{Session, MemoryStore, revoke, revoked_session}
use whois_mcp.Auth.Session.History.{Revoked}
use whois_mcp.Auth.Token.Minted.{verify-mint}
use whois_mcp.Auth.Token.{
  second, Claims, Codec, IsCodec, IsIssuer, IsSid, read_back, mint, verify, access_token_ttl,
}
use whois_mcp.Auth.Denylist.{Denylist, Call, time_of, run, add, verify_token}
use whois_mcp.Auth.Denylist.Window.{verify_token_revoked}
use whois_mcp.Auth.Server.{
  Server, Form, Draws, Answer, revocation_ok, deny, handle_revoke, revoke_session,
}

revoke_ok :
    (m : MemoryStore) (sid : Text) (now : ℕ) (q : Session)
    → lookup sid m.sessions ≡ some q
    → (revoke m sid now).1 ≡ ok tt
unfolding revoke
revoke_ok m sid now q stored = rw (stored, revoke) refl

pub revoke-Revoked :
    (m : MemoryStore) (sid : Text) (now : ℕ) (q : Session)
    → lookup sid m.sessions ≡ some q
    → Revoked sid (revoke m sid now).0
unfolding revoke
revoke-Revoked m sid now q stored =
    rw (stored, revoke)
      (revoked_session q now, lookup-insert_self sid (revoked_session q now) m.sessions, refl)

revoke_session_stored :
    (s : Server) (sid : Text) (now : ℕ) (q : Session)
    → sid ≢ []
    → lookup sid s.sessions.sessions ≡ some q
    → revoke_session s sid now
      ≡ record s { sessions = (revoke s.sessions sid now).0; denylist = deny s.denylist sid now }
unfolding revoke_session
revoke_session_stored s sid now q named stored = elim (Bool-cases (is_empty sid)) [
  | inl e ↦ absurd (named (is_empty→eq sid e))
  | inr e ↦ rw (e, revoke_ok s.sessions sid now q stored, revoke_session) refl
]

handle_revoke_open :
    (c : Codec) (s : Server) (f : Form) (draws : Draws) (now : ℕ) (k : Claims)
    → f.token ≢ []
    → verify c s.issuer f.token now ≡ ok k
    → handle_revoke c s f draws now ≡ (revoke_session s k.sid now, revocation_ok)
unfolding handle_revoke
handle_revoke_open c s f draws now k present h = elim (Bool-cases (is_empty f.token)) [
  | inl e ↦ absurd (present (is_empty→eq f.token e))
  | inr e ↦ rw (e, h, handle_revoke) refl
]

-- An access token that the server minted, presented at the revocation endpoint while it is in force,
-- revokes its session; and from then on neither it nor any other access token that was minted for the
-- session up to that time is accepted. The names of the issuer, its resource, its key and the
-- session are valid UTF-8.
pub handle_revoke-mint :
    (c : Codec) (law : IsCodec c) (s : Server) (pair : IsIssuer c s.issuer) (f : Form)
    (draws : Draws) (sid : Text) (q : Session) (d : Denylist) (label label' : Text)
    (granted granted' : List Text) (jti jti' : Text) (at at' now later : ℕ) (cs : List Call)
    → lookup sid s.sessions.sessions ≡ some q
    → s.denylist ≡ some d
    → d.ttl ≡ access_token_ttl
    → IsSid c sid
    → f.token ≡ (mint c s.issuer sid label granted jti at).0
    → f.token ≢ []
    → now ≤ (at + access_token_ttl) / second * second
    → at' ≤ now
    → All (λ e. (now ≤ time_of e) × (time_of e ≤ later)) cs
    → let (after, answer) = handle_revoke c s f draws now in
      (answer ≡ revocation_ok)
      × Revoked sid after.sessions
      × (after.denylist ≡ some (add d sid now))
      × (is_ok
            (verify_token c s.issuer
              (some (run (add d sid now) cs))
              (mint c s.issuer sid label' granted' jti' at').0
              later).1
          ≡ false)
unfolding deny mint
handle_revoke-mint c law s pair f draws sid q d label label' granted granted' jti jti' at at' now
      later cs stored denies ten named presents present alive early times =
    let opened =
      ap (λ (t : Text). verify c s.issuer t now) presents
      ∙ verify-mint c law s.issuer pair sid label granted jti at now named in
    let done =
      handle_revoke_open c s f draws now (read_back c (mint c s.issuer sid label granted jti at).1)
        present
        (opened ∙ rw (le→ltb_false ((at + access_token_ttl) / second * second) now alive) refl)
      ∙ ap (λ (k : Text). (revoke_session s k now, revocation_ok)) named.1
      ∙ ap (λ (x : Server). (x, revocation_ok))
          (revoke_session_stored s sid now q named.0 stored) in
    (
      ap (λ (x : Server × Answer). x.1) done,
      subst (λ (x : Server × Answer). Revoked sid x.0.sessions) (sym done)
          (revoke-Revoked s.sessions sid now q stored),
      ap (λ (x : Server × Answer). x.0.denylist) done
          ∙ ap (λ (o : Option Denylist). deny o sid now) denies,
      verify_token_revoked c law s.issuer pair d sid label' granted' jti' at' now later cs ten named
          early times,
    )
