-- ===== src/Auth/Server/Reuse.antt =====
-- internal/auth/oauthsrv.go: what the endpoints do with a replayed refresh token and with a revoked
-- access token.
use whois_mcp.Prelude.{
  ◌+◌, ◌*◌, ◌/◌, le→ltb_false, none, ℕ, ◌≤◌, ◌≡◌, ◌≢◌, ◌∙◌, refl, sym, ap, subst, true, false,
  Option, some, List, [], Text, is_empty, is_empty→eq, lookup, err, is_ok, All, Bool-cases,
  Result-cases, inl, inr, arith,
}
use whois_mcp.Auth.Session.{RefreshRecord, refresh_reused, rotate}
use whois_mcp.Auth.Session.Families.{WellFormed}
use whois_mcp.Auth.Session.History.{Revoked, rotate_spent}
use whois_mcp.Auth.Token.{
  Codec, IsCodec, IsIssuer, IsSid, Issuer, second, mint, verify, access_token_ttl,
}
use whois_mcp.Auth.Token.Minted.{verify-mint}
use whois_mcp.Auth.Denylist.{Denylist, Call, time_of, run, add, denied, admit, verify_token}
use whois_mcp.Auth.Denylist.Window.{verify_token_revoked}
use whois_mcp.Auth.Server.{
  Server, Form, Draws, Answer, rejected, revocation_ok, invalid_grant, wrong_resource,
  token_from_refresh, token_for_refresh, deny_reuse, deny, handle_revoke, revoke_refresh,
}

-- The request presents a refresh token that was used before, and passes the checks in front of the
-- exchange.
pub record Replays (s : Server) (f : Form) (draws : Draws) (sid : Text) : Type 0 where
  pub spent : RefreshRecord
  pub stored : lookup f.refresh_token s.sessions.refresh ≡ some spent
  pub used : spent.used ≡ true
  pub own : spent.sid ≡ sid
  pub present : f.refresh_token ≢ []
  pub resource : wrong_resource s f.resource ≡ false
  pub next : Text
  pub drawn : draws.refresh ≡ some next

module _ (c : Codec) (s : Server) (f : Form) (draws : Draws) (sid : Text) (now : ℕ) where
  rotate_replayed :
      WellFormed s.sessions
      → (r : Replays s f draws sid)
      → ((rotate s.sessions f.refresh_token r.next now).1 ≡ err (refresh_reused sid))
        × Revoked sid (rotate s.sessions f.refresh_token r.next now).0
  rotate_replayed v r =
      let (q, owner) = v.owned f.refresh_token r.spent r.stored in
      let (answer, gone) =
        rotate_spent s.sessions f.refresh_token r.next now r.spent q r.stored owner r.used
          (v.keyed r.spent.sid q owner) in
      (
        answer ∙ ap (λ (k : Text). err (refresh_reused k)) r.own,
        subst (λ (k : Text). Revoked k (rotate s.sessions f.refresh_token r.next now).0) r.own gone,
      )

  token_for_refresh_replayed :
      (next : Text)
      → (rotate s.sessions f.refresh_token next now).1 ≡ err (refresh_reused sid)
      → token_for_refresh c s f next draws now ≡ (
        record s {
          sessions = (rotate s.sessions f.refresh_token next now).0;
          denylist = deny s.denylist sid now;
        },
        rejected invalid_grant,
      )
  unfolding token_for_refresh deny_reuse
  token_for_refresh_replayed next h = rw (h, token_for_refresh) refl

  token_from_refresh_replayed :
      WellFormed s.sessions
      → (r : Replays s f draws sid)
      → token_from_refresh c s f draws now ≡ (
        record s {
          sessions = (rotate s.sessions f.refresh_token r.next now).0;
          denylist = deny s.denylist sid now;
        },
        rejected invalid_grant,
      )
  unfolding token_from_refresh
  token_from_refresh_replayed v r = elim (Bool-cases (is_empty f.refresh_token)) [
    | inl e ↦ absurd (r.present (is_empty→eq f.refresh_token e))
    | inr e ↦
        rw (e, r.resource, r.drawn, token_from_refresh)
          (token_for_refresh_replayed r.next (rotate_replayed v r).0)
  ]

  revoke_refresh_replayed :
      WellFormed s.sessions
      → (r : Replays s f draws sid)
      → revoke_refresh s f.refresh_token draws.refresh now
        ≡ record s { sessions = (rotate s.sessions f.refresh_token r.next now).0 }
  unfolding revoke_refresh
  revoke_refresh_replayed v r = rw (r.drawn, (rotate_replayed v r).0, revoke_refresh) refl

-- A replay at the token endpoint ends the session at once: the request is refused, the session is
-- revoked, and from then on, whatever sessions are denied or checked in between, no access token that
-- was minted for it up to that time is accepted. The names of the issuer, its resource,
-- its key and the session are valid UTF-8.
pub token_from_refresh_replay :
    (c : Codec) (law : IsCodec c) (s : Server) (pair : IsIssuer c s.issuer) (f : Form)
    (draws : Draws) (sid : Text) (now : ℕ) (d : Denylist) (label : Text) (granted : List Text)
    (jti : Text) (at later : ℕ) (cs : List Call)
    → WellFormed s.sessions
    → Replays s f draws sid
    → s.denylist ≡ some d
    → d.ttl ≡ access_token_ttl
    → IsSid c sid
    → at ≤ now
    → All (λ e. (now ≤ time_of e) × (time_of e ≤ later)) cs
    → let (after, answer) = token_from_refresh c s f draws now in
      (answer ≡ rejected invalid_grant)
      × Revoked sid after.sessions
      × (after.denylist ≡ some (add d sid now))
      × (is_ok
            (verify_token c s.issuer
              (some (run (add d sid now) cs))
              (mint c s.issuer sid label granted jti at).0
              later).1
          ≡ false)
unfolding deny
token_from_refresh_replay c law s pair f draws sid now d label granted jti at later cs v r denies
      ten named early times =
    let done = token_from_refresh_replayed c s f draws sid now v r in
    (
      ap (λ (x : Server × Answer). x.1) done,
      subst (λ (x : Server × Answer). Revoked sid x.0.sessions) (sym done)
          (rotate_replayed c s f draws sid now v r).1,
      ap (λ (x : Server × Answer). x.0.denylist) done
          ∙ ap (λ (o : Option Denylist). deny o sid now) denies,
      verify_token_revoked c law s.issuer pair d sid label granted jti at now later cs ten named
          early times,
    )

handle_revoke_opaque :
    (c : Codec) (s : Server) (f : Form) (draws : Draws) (now : ℕ)
    → f.token ≢ []
    → is_ok (verify c s.issuer f.token now) ≡ false
    → handle_revoke c s f draws now ≡ (revoke_refresh s f.token draws.refresh now, revocation_ok)
unfolding handle_revoke
handle_revoke_opaque c s f draws now present opaque = elim (Bool-cases (is_empty f.token)) [
  | inl e ↦ absurd (present (is_empty→eq f.token e))
  | inr e ↦ elim (Result-cases (verify c s.issuer f.token now)) [
    | inl (k, h) ↦ absurd (ground arith)
    | inr (x, h) ↦ rw (e, h, handle_revoke) refl
  ]
]

handle_revoke_kept :
    (c : Codec) (s : Server) (f : Form) (draws : Draws) (sid : Text) (now : ℕ)
    → WellFormed s.sessions
    → Replays s f draws sid
    → f.token ≡ f.refresh_token
    → is_ok (verify c s.issuer f.token now) ≡ false
    → let (after, answer) = handle_revoke c s f draws now in
      (answer ≡ revocation_ok) × Revoked sid after.sessions × (after.denylist ≡ s.denylist)
unfolding handle_revoke
handle_revoke_kept c s f draws sid now v r same opaque =
    let done =
      handle_revoke_opaque c s f draws now (λ e. r.present (sym same ∙ e)) opaque
      ∙ ap (λ (t : Text). (revoke_refresh s t draws.refresh now, revocation_ok)) same
      ∙ ap (λ (x : Server). (x, revocation_ok)) (revoke_refresh_replayed c s f draws sid now v r) in
    (
      ap (λ (x : Server × Answer). x.1) done,
      subst (λ (x : Server × Answer). Revoked sid x.0.sessions) (sym done)
          (rotate_replayed c s f draws sid now v r).1,
      ap (λ (x : Server × Answer). x.0.denylist) done,
    )

verify_token_open :
    (c : Codec) (law : IsCodec c) (i : Issuer) (pair : IsIssuer c i) (d : Denylist)
    (sid label : Text) (granted : List Text) (jti : Text) (at later : ℕ)
    → IsSid c sid
    → lookup sid d.revoked ≡ none
    → later ≤ (at + access_token_ttl) / second * second
    → is_ok (verify_token c i (some d) (mint c i sid label granted jti at).0 later).1 ≡ true
unfolding verify_token admit denied mint
verify_token_open c law i pair d sid label granted jti at later named free alive =
    rw
      (
        verify-mint c law i pair sid label granted jti at later named,
        le→ltb_false ((at + access_token_ttl) / second * second) later alive,
        verify_token,
        admit,
        named.1,
      )
      (ground (arith, free))

-- A spent refresh token of a well-formed store at the revocation endpoint revokes the session and
-- leaves the denylist as it was: an access token that was minted for the session is accepted until
-- its own expiry, if the session was not denied before. The names of the issuer, its resource, its
-- key and the session are valid UTF-8.
pub handle_revoke_replay :
    (c : Codec) (law : IsCodec c) (s : Server) (pair : IsIssuer c s.issuer) (f : Form)
    (draws : Draws) (sid : Text) (now : ℕ) (d : Denylist) (label : Text) (granted : List Text)
    (jti : Text) (at later : ℕ)
    → WellFormed s.sessions
    → Replays s f draws sid
    → f.token ≡ f.refresh_token
    → is_ok (verify c s.issuer f.token now) ≡ false
    → s.denylist ≡ some d
    → IsSid c sid
    → lookup sid d.revoked ≡ none
    → later ≤ (at + access_token_ttl) / second * second
    → let (after, answer) = handle_revoke c s f draws now in
      (answer ≡ revocation_ok)
      × Revoked sid after.sessions
      × (after.denylist ≡ some d)
      × (is_ok
            (verify_token c s.issuer after.denylist
              (mint c s.issuer sid label granted jti at).0
              later).1
          ≡ true)
handle_revoke_replay c law s pair f draws sid now d label granted jti at later v r same opaque
      denies named free alive =
    let (answered, gone, kept) = handle_revoke_kept c s f draws sid now v r same opaque in
    let still = kept ∙ denies in
    (
      answered,
      gone,
      still,
      subst
          (λ (o : Option Denylist).
            is_ok (verify_token c s.issuer o (mint c s.issuer sid label granted jti at).0 later).1
            ≡ true)
          (sym still)
          (verify_token_open c law s.issuer pair d sid label granted jti at later named free alive),
    )
