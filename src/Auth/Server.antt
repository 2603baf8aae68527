-- ===== src/Auth/Server.antt =====
-- internal/auth/oauthsrv.go: the handlers of the authorize, token and revoke endpoints over the
-- stores. A handler is taken as one step at one time, HTTP and HTML are left out, and an answer keeps
-- the error's code. `Draws` holds the random values that a request draws; `none` is a failed draw.
pub mod Reuse
pub mod Revocation
pub mod Exchange
pub mod Authorize
pub mod Gate
use whois_mcp.Prelude.{
  ℕ, ◌+◌, Bool, true, false, not, ◌&&◌, ◌||◌, Option, none, some, List, [], ◌∷◌, Text, codes,
  is_empty, text_eq, Result, ok, err, ltb, if◌then◌else◌, take, length, trim_space, fields, ◌>>=◌,
  require, or_fail,
}
use whois_mcp.Auth.Session.{
  Session, MemoryStore, StoreError, refresh_reused, active, create, get, issue_refresh, rotate,
  revoke, refresh_ttl,
}
use whois_mcp.Auth.Token.{Codec, Issuer, Claims, mint, verify}
use whois_mcp.Auth.Denylist.{Denylist, add}
use whois_mcp.Auth.Code as AuthCode
use whois_mcp.Auth.Code.{Code, CodeStore, CodeError, consume, issue, Url, validate_redirect_uri}
use whois_mcp.Auth.Enrollment.{Enrollment, Hashes, EnrollError}
use whois_mcp.Auth.Enrollment as Enrolling
use whois_mcp.Auth.Scopes.{normalize_scopes, known_scope, same_resource, minimum_scopes}

pub record Server : Type 0 where
  pub issuer : Issuer
  pub sessions : MemoryStore
  pub auth_codes : CodeStore
  pub enrollment : Enrollment
  pub denylist : Option Denylist

-- The parameters of a request that a handler reads; an absent one is empty.
pub record Form : Type 0 where
  pub grant_type : Text
  pub code : Text
  pub code_verifier : Text
  pub redirect_uri : Text
  pub client_id : Text
  pub refresh_token : Text
  pub resource : Text
  pub token : Text
  pub response_type : Text
  pub code_challenge : Text
  pub code_challenge_method : Text
  pub scope : Text
  pub enrollment_token : Text
  pub label : Text

pub record Draws : Type 0 where
  pub session_id : Option Text
  pub auth_code : Option Text
  pub refresh : Option Text
  pub jti : Option Text

pub data OauthError : Type 0 where
  invalid_request invalid_target invalid_grant invalid_scope unsupported_grant_type
        unsupported_response_type server_error :
      OauthError

-- `issued` carries the access token, the refresh token and the scopes.
pub data Answer : Type 0 where
  issued : Text → Text → List Text → Answer
  rejected : OauthError → Answer
  revocation_ok : Answer

unfoldable pub wrong_resource : Server → Text → Bool
unfolding same_resource
wrong_resource s res = not (is_empty res) && not (same_resource res s.issuer.audience)

-- The mint and the answer that both grants end with.
unfoldable pub answer_with : Codec → Server → Session → Option Text → Text → ℕ → Answer
answer_with c s sess none refresh now = rejected server_error
answer_with c s sess (some jti) refresh now =
    issued (mint c s.issuer sess.id sess.label sess.scopes jti now).0 refresh sess.scopes

-- `firstRefresh` and what follows the mint; `jti` is that of the token that was minted.
unfoldable pub first_refresh : Codec → Server → Session → Text → Option Text → ℕ → Server × Answer
unfolding answer_with
first_refresh c s sess jti none now = (s, rejected server_error)
first_refresh c s sess jti (some next) now =
    let (m, r) = issue_refresh s.sessions sess.id next now in
    elim r [
      | err _ ↦ (record s { sessions = m }, rejected server_error)
      | ok _ ↦ (record s { sessions = m }, answer_with c s sess (some jti) next now)
    ]

-- `tokenFromCode` once the code is spent.
unfoldable pub token_for_code : Codec → Server → Code → Draws → ℕ → Server × Answer
unfolding first_refresh
token_for_code c s code draws now = elim (get s.sessions code.session_id) [
  | err _ ↦ (s, rejected invalid_grant)
  | ok sess ↦ if not (active (some sess) now) then (s, rejected invalid_grant) else elim draws.jti [
    | none ↦ (s, rejected server_error)
    | some jti ↦ first_refresh c s sess jti draws.refresh now
  ]
]

unfoldable pub token_from_code : Codec → (Text → Text) → Server → Form → Draws → ℕ → Server × Answer
unfolding token_for_code
token_from_code c s256 s f draws now =
    if wrong_resource s f.resource
    then (s, rejected invalid_target)
    else let (rest, r) =
        consume s256 s.auth_codes f.code f.code_verifier f.redirect_uri f.client_id now in
      elim r [
        | err _ ↦ (record s { auth_codes = rest }, rejected invalid_grant)
        | ok code ↦ token_for_code c (record s { auth_codes = rest }) code draws now
      ]

unfoldable pub deny : Option Denylist → Text → ℕ → Option Denylist
deny none sid now = none
deny (some d) sid now = some (add d sid now)

-- What a failed rotation leaves: a reuse is denied at once.
unfoldable pub deny_reuse : Server → StoreError → ℕ → Server
unfolding deny
deny_reuse s (refresh_reused sid) now = record s { denylist = deny s.denylist sid now }
deny_reuse s _ now = s

-- `tokenFromRefresh` with the refresh token that was drawn.
unfoldable pub token_for_refresh : Codec → Server → Form → Text → Draws → ℕ → Server × Answer
unfolding answer_with deny_reuse
token_for_refresh c s f next draws now =
    let (m, r) = rotate s.sessions f.refresh_token next now in
    elim r [
      | err e ↦ (deny_reuse (record s { sessions = m }) e now, rejected invalid_grant)
      | ok sess ↦ (record s { sessions = m }, answer_with c s sess draws.jti next now)
    ]

unfoldable pub token_from_refresh : Codec → Server → Form → Draws → ℕ → Server × Answer
unfolding token_for_refresh
token_from_refresh c s f draws now =
    if is_empty f.refresh_token
    then (s, rejected invalid_request)
    else if wrong_resource s f.resource
    then (s, rejected invalid_target)
    else elim draws.refresh [
      | none ↦ (s, rejected server_error)
      | some next ↦ token_for_refresh c s f next draws now
    ]

unfoldable pub handle_token : Codec → (Text → Text) → Server → Form → Draws → ℕ → Server × Answer
unfolding token_from_code token_from_refresh
handle_token c s256 s f draws now =
    if text_eq f.grant_type (codes "authorization_code")
    then token_from_code c s256 s f draws now
    else if text_eq f.grant_type (codes "refresh_token")
    then token_from_refresh c s f draws now
    else if is_empty f.grant_type
    then (s, rejected invalid_request)
    else (s, rejected unsupported_grant_type)

unfoldable pub revoke_session : Server → Text → ℕ → Server
unfolding deny
revoke_session s sid now =
    if is_empty sid
    then s
    else let (m, r) = revoke s.sessions sid now in
      elim r [
        | err _ ↦ record s { sessions = m }
        | ok _ ↦ record s { sessions = m; denylist = deny s.denylist sid now }
      ]

-- The part of `handleRevoke` that takes the token for a refresh token.
unfoldable pub revoke_refresh : Server → Text → Option Text → ℕ → Server
unfolding revoke_session
revoke_refresh s token none now = s
revoke_refresh s token (some throwaway) now =
    let (m, r) = rotate s.sessions token throwaway now in
    elim r [
      | err _ ↦ record s { sessions = m }
      | ok sess ↦ revoke_session (record s { sessions = m }) sess.id now
    ]

unfoldable pub handle_revoke : Codec → Server → Form → Draws → ℕ → Server × Answer
unfolding revoke_session revoke_refresh
handle_revoke c s f draws now =
    if is_empty f.token
    then (s, rejected invalid_request)
    else elim (verify c s.issuer f.token now) [
      | ok k ↦ (revoke_session s k.sid now, revocation_ok)
      | err _ ↦ (revoke_refresh s f.token draws.refresh now, revocation_ok)
    ]
