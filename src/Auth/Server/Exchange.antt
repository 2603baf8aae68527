-- ===== src/Auth/Server/Exchange.antt =====
-- internal/auth/oauthsrv.go: from the accepted enrollment to the first tokens.
use whois_mcp.Prelude.{
  ℕ, ◌+◌, ◌≤◌, ◌<◌, ◌≡◌, ◌≢◌, ◌∙◌, refl, sym, ap, subst, false, none, some, [], Text, is_empty→eq,
  lookup, insert, lookup-insert_self, lookup-delete_if, ok, ltb, lt→ltb, inr, arith, length,
}
use whois_mcp.Auth.Session.{Session, MemoryStore, create, get, active, issue_refresh, issue_for}
use whois_mcp.Auth.Token.{Codec, mint}
use whois_mcp.Auth.Code.{Code, CodeStore, auth_code_ttl, stamped, issue, consume}
use whois_mcp.Auth.Code.SingleUse.{Bound, consume_iff}
use whois_mcp.Auth.Server.{
  Server, Form, Draws, Answer, issued, wrong_resource, token_from_code, token_for_code,
  first_refresh, answer_with,
}
use whois_mcp.Auth.Server.Authorize.{
  AuthRequest, Authorized, redirected, new_session, new_code, enrol, issue_code,
}

lookup-issue :
    (s : CodeStore) (c : Code) (code : Text) (now : ℕ)
    → lookup code (issue s c code now) ≡ some (stamped c code now)
unfolding issue
lookup-issue s c code now = ground (
  arith,
  lookup-delete_if (λ (c : Code). ltb c.expires_at now) code (insert code (stamped c code now) s),
  lookup-insert_self code (stamped c code now) s,
)

create_fresh :
    (m : MemoryStore) (s : Session)
    → s.id ≢ []
    → lookup s.id m.sessions ≡ none
    → create m (some s) ≡ (record m { sessions = insert s.id s m.sessions }, ok tt)
unfolding create
create_fresh m s named free = ground (arith, is_empty→eq s.id)

-- The random values that an enrollment draws, none of them drawn before.
pub record Fresh (s : Server) (draws : Draws) : Type 0 where
  pub sid : Text
  pub code : Text
  pub sid_drawn : draws.session_id ≡ some sid
  pub code_drawn : draws.auth_code ≡ some code
  pub named : sid ≢ []
  pub free : lookup sid s.sessions.sessions ≡ none

abbrev pub enrolled : Server → AuthRequest → Text → Text → Text → ℕ → Server
enrolled s req label sid code now = record s {
  sessions = record s.sessions {
    sessions = insert sid (new_session req sid label now) s.sessions.sessions;
  };
  auth_codes = issue s.auth_codes (new_code req sid label) code now;
}

enrol_fresh :
    (s : Server) (req : AuthRequest) (label : Text) (draws : Draws) (now : ℕ) (v : Fresh s draws)
    → enrol s req label draws now
      ≡ (enrolled s req label v.sid v.code now, redirected req.redirect_uri v.code)
unfolding enrol issue_code
enrol_fresh s req label draws now v =
    let created = create_fresh s.sessions (new_session req v.sid label now) v.named v.free in
    let fine : (create s.sessions (some (new_session req v.sid label now))).1 ≡ ok tt =
      ap (λ r. r.1) created in
    rw (v.sid_drawn, enrol, fine)
      (rw (v.code_drawn, issue_code)
        (ap
          (λ (m : MemoryStore). (
            record s {
              sessions = m;
              auth_codes = issue s.auth_codes (new_code req v.sid label) v.code now;
            },
            redirected req.redirect_uri v.code,
          ))
          (ap (λ r. r.0) created)))

-- The first token request of a session: its own code's secret, and fresh random values.
pub record Redeems (s256 : Text → Text) (s : Server) (req : AuthRequest) (f : Form) (draws : Draws)
    : Type 0 where
  pub verifier : s256 f.code_verifier ≡ req.challenge
  pub challenged : req.challenge ≢ []
  pub long : 43 ≤ length f.code_verifier
  pub short : length f.code_verifier ≤ 128
  pub target : f.redirect_uri ≡ req.redirect_uri
  pub client : f.client_id ≡ req.client_id
  pub resource : wrong_resource s f.resource ≡ false
  pub jti : Text
  pub next : Text
  pub jti_drawn : draws.jti ≡ some jti
  pub next_drawn : draws.refresh ≡ some next
  pub next_named : next ≢ []
  pub next_free : lookup next s.sessions.refresh ≡ none

issue_refresh_fresh :
    (m : MemoryStore) (sid token : Text) (now : ℕ) (q : Session)
    → token ≢ []
    → lookup sid m.sessions ≡ some q
    → q.revoked ≡ false
    → lookup token m.refresh ≡ none
    → (issue_refresh m sid token now).1 ≡ ok tt
unfolding issue_refresh issue_for
issue_refresh_fresh m sid token now q named stored alive free = ground (arith, is_empty→eq token)

first_refresh_fresh :
    (c : Codec) (s : Server) (q : Session) (jti next : Text) (now : ℕ)
    → next ≢ []
    → lookup q.id s.sessions.sessions ≡ some q
    → q.revoked ≡ false
    → lookup next s.sessions.refresh ≡ none
    → (first_refresh c s q jti (some next) now).1
      ≡ issued (mint c s.issuer q.id q.label q.scopes jti now).0 next q.scopes
unfolding first_refresh answer_with
first_refresh_fresh c s q jti next now named stored alive free =
    rw (issue_refresh_fresh s.sessions q.id next now q named stored alive free, first_refresh) refl

token_for_code_active :
    (c : Codec) (s : Server) (code : Code) (q : Session) (draws : Draws) (jti next : Text) (now : ℕ)
    → lookup code.session_id s.sessions.sessions ≡ some q
    → q.revoked ≡ false
    → now < q.expires_at
    → draws.jti ≡ some jti
    → draws.refresh ≡ some next
    → token_for_code c s code draws now ≡ first_refresh c s q jti (some next) now
unfolding token_for_code get active
token_for_code_active c s code q draws jti next now stored alive early drawn next_drawn =
    rw (stored, token_for_code, get)
      (rw (alive, active, lt→ltb now q.expires_at early, drawn, next_drawn) refl)

token_from_code_consumed :
    (c : Codec) (s256 : Text → Text) (s : Server) (f : Form) (draws : Draws) (now : ℕ) (code : Code)
    → wrong_resource s f.resource ≡ false
    → (consume s256 s.auth_codes f.code f.code_verifier f.redirect_uri f.client_id now).1 ≡ ok code
    → token_from_code c s256 s f draws now
      ≡ token_for_code c
          (record s {
            auth_codes =
                (consume s256 s.auth_codes f.code f.code_verifier f.redirect_uri f.client_id now).0;
          })
          code
          draws
          now
unfolding token_from_code
token_from_code_consumed c s256 s f draws now code here spent =
    rw (here, spent, token_from_code) refl

Bound-enrolled :
    (s256 : Text → Text) (s t : Server) (req : AuthRequest) (label sid code : Text) (f : Form)
    (draws : Draws) (at now : ℕ)
    → Redeems s256 t req f draws
    → now ≤ at + auth_code_ttl
    → Bound s256
        (stamped (new_code req sid label) code at)
        f.code_verifier
        f.redirect_uri
        f.client_id
        now
Bound-enrolled s256 s t req label sid code f draws at now r soon = record {
  in_time = soon;
  client = inr (inr (sym r.client));
  redirect = inr (sym r.target);
  challenge = r.verifier;
  challenged = r.challenged;
  long = r.long;
  short = r.short;
}

token_from_code-enrolled :
    (c : Codec) (s256 : Text → Text) (s : Server) (req : AuthRequest) (label sid code : Text)
    (at : ℕ) (f : Form) (draws : Draws) (now : ℕ)
    → (r : Redeems s256 (enrolled s req label sid code at) req f draws) → f.code ≡ code
    → now ≤ at + auth_code_ttl
    → (token_from_code c s256 (enrolled s req label sid code at) f draws now).1
      ≡ issued (mint c s.issuer sid label req.scopes r.jti now).0 r.next req.scopes
token_from_code-enrolled c s256 s req label sid code at f draws now r same soon =
    let t = enrolled s req label sid code at in
    let grant = stamped (new_code req sid label) code at in
    let q = new_session req sid label at in
    let bound = Bound-enrolled s256 s t req label sid code f draws at now r soon in
    let found : lookup f.code t.auth_codes ≡ some grant =
      ap (λ (k : Text). lookup k t.auth_codes) same
      ∙ lookup-issue s.auth_codes (new_code req sid label) code at in
    let spent =
      (consume_iff s256 t.auth_codes f.code f.code_verifier f.redirect_uri f.client_id now grant).1
        (found, bound) in
    let here = lookup-insert_self sid q s.sessions.sessions in
    let rest = record t {
      auth_codes =
          (consume s256 t.auth_codes f.code f.code_verifier f.redirect_uri f.client_id now).0;
    } in
    ap (λ (x : Server × Answer). x.1)
      (token_from_code_consumed c s256 t f draws now grant r.resource spent
        ∙ token_for_code_active c rest grant q draws r.jti r.next now here refl (omega arith)
            r.jti_drawn r.next_drawn)
    ∙ first_refresh_fresh c rest q r.jti r.next now r.next_named here refl r.next_free

-- An accepted enrollment leads to tokens: the code that it redirects with, redeemed within its minute
-- at the same client and redirect target with the verifier of its challenge, is answered by an access
-- token and a refresh token for the new session with the scopes that were asked for.
pub token_from_code-enrol :
    (c : Codec) (s256 : Text → Text) (s after : Server) (answer : Authorized) (req : AuthRequest)
    (label : Text) (draws : Draws) (at : ℕ) (v : Fresh s draws) (f : Form) (draws' : Draws)
    (now : ℕ)
    → enrol s req label draws at ≡ (after, answer)
    → (r : Redeems s256 after req f draws') → f.code ≡ v.code
    → now ≤ at + auth_code_ttl
    → (answer ≡ redirected req.redirect_uri v.code)
      × ((token_from_code c s256 after f draws' now).1
          ≡ issued (mint c s.issuer v.sid label req.scopes r.jti now).0 r.next req.scopes)
token_from_code-enrol c s256 s after answer req label draws at v f draws' now enrols r same soon =
    let done = sym (enrol_fresh s req label draws at v) ∙ enrols in
    (
      sym (ap (λ (x : Server × Authorized). x.1) done),
      subst
          (λ (t : Server).
            (r : Redeems s256 t req f draws')
            → (token_from_code c s256 t f draws' now).1
              ≡ issued (mint c s.issuer v.sid label req.scopes r.jti now).0 r.next req.scopes)
          (ap (λ (x : Server × Authorized). x.0) done)
          (λ q.
            token_from_code-enrolled c s256 s req label v.sid v.code at f draws' now q same soon)
          r,
    )
