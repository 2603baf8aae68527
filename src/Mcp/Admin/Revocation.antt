-- ===== src/Mcp/Admin/Revocation.antt =====
-- internal/mcpsrv/tools_m2.go: what session_revoke leaves of a session.
use whois_mcp.Prelude.{
  ℕ, ◌≤◌, ◌≡◌, ◌≢◌, ◌∙◌, refl, sym, ap, subst, Bool, true, false, Option, some, List, [], Text,
  is_empty, is_empty→eq, lookup, trim_space, Result, ok, is_ok, All, Bool-cases, inl, inr, text_eq,
}
use whois_mcp.Auth.Session.{Session, revoke}
use whois_mcp.Auth.Session.History.{Revoked}
use whois_mcp.Auth.Server.Revocation.{revoke-Revoked}
use whois_mcp.Auth.Token.{Codec, IsCodec, IsIssuer, IsSid, Issuer, mint, access_token_ttl}
use whois_mcp.Auth.Denylist.{Denylist, TokenInfo, Call, time_of, run, add, has_scope, verify_token}
use whois_mcp.Auth.Denylist.Window.{verify_token_revoked}
use whois_mcp.Auth.Scopes.{admin_scope}
use whois_mcp.Mcp.Admin.{
  AuthOptions, ToolError, SessionRevoked, session_id, refuses, revoke_sid, session_revoke, deny_sid,
}

revoke_sid_stored :
    (info : Option TokenInfo) (sid : Text) (now later : ℕ) (a : AuthOptions) (q : Session)
    → sid ≢ []
    → lookup sid a.sessions.sessions ≡ some q
    → revoke_sid info sid now later a ≡ (
      record { sessions = (revoke a.sessions sid now).0; denylist = deny_sid a.denylist sid later },
      ok (record { sid = sid; self_revoked = text_eq sid (session_id info) }),
    )
unfolding revoke_sid revoke
revoke_sid_stored info sid now later a q named stored = elim (Bool-cases (is_empty sid)) [
  | inl e ↦ absurd (named (is_empty→eq sid e))
  | inr e ↦ rw (e, stored, revoke_sid, revoke) refl
]

session_revoke_admin :
    (enforce : Bool) (info : Option TokenInfo) (sid : Text) (now later : ℕ) (a : AuthOptions)
    → has_scope info admin_scope ≡ true
    → session_revoke enforce info sid now later a ≡ revoke_sid info (trim_space sid) now later a
unfolding session_revoke refuses
session_revoke_admin enforce info sid now later a admin = rw (session_revoke, refuses, admin) refl

-- An administrator's session_revoke of a stored session, whose id it trims, revokes the session and
-- denies its access tokens: from then on no token that was minted for the session up to the denial
-- is accepted, whatever checks and revocations come in between in the order of time. The names
-- of the issuer, its resource, its key and the session are valid UTF-8.
pub session_revoke-mint :
    (c : Codec) (law : IsCodec c) (i : Issuer) (pair : IsIssuer c i) (enforce : Bool)
    (info : Option TokenInfo) (sid : Text) (now later asked : ℕ) (a : AuthOptions) (q : Session)
    (d : Denylist) (label : Text) (granted : List Text) (jti : Text) (at : ℕ) (cs : List Call)
    → has_scope info admin_scope ≡ true
    → lookup (trim_space sid) a.sessions.sessions ≡ some q
    → a.denylist ≡ some d
    → d.ttl ≡ access_token_ttl
    → IsSid c (trim_space sid)
    → at ≤ later
    → All (λ e. (later ≤ time_of e) × (time_of e ≤ asked)) cs
    → let after = (session_revoke enforce info sid now later a).0 in
      let denying = add d (trim_space sid) later in
      Revoked (trim_space sid) after.sessions
      × (after.denylist ≡ some denying)
      × (is_ok
            (verify_token c i
              (some (run denying cs))
              (mint c i (trim_space sid) label granted jti at).0
              asked).1
          ≡ false)
session_revoke-mint c law i pair enforce info sid now later asked a q d label granted jti at cs
      admin stored denies ten named early times =
    let done =
      session_revoke_admin enforce info sid now later a admin
      ∙ revoke_sid_stored info (trim_space sid) now later a q named.0 stored in
    (
      subst
          (λ (x : AuthOptions × Result ToolError SessionRevoked).
            Revoked (trim_space sid) x.0.sessions)
          (sym done) (revoke-Revoked a.sessions (trim_space sid) now q stored),
      ap (λ (x : AuthOptions × Result ToolError SessionRevoked). x.0.denylist) done
          ∙ ap (λ (o : Option Denylist). deny_sid o (trim_space sid) later) denies,
      verify_token_revoked c law i pair d (trim_space sid) label granted jti at later asked cs ten
          named early times,
    )
