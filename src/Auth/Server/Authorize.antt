-- ===== src/Auth/Server/Authorize.antt =====
-- internal/auth/oauthsrv.go: the authorization endpoint. `parse` is `url.Parse`; the source of a
-- request is what SourceFromRequest finds.
use whois_mcp.Prelude.{
  ℕ, ◌+◌, Bool, true, false, not, ◌&&◌, Option, none, some, List, [], ◌∷◌, Text, codes, is_empty,
  text_eq, Result, ok, err, ◌>>=◌, require, if◌then◌else◌, take, trim_space, fields,
}
use whois_mcp.Auth.Session.{Session, create, refresh_ttl}
use whois_mcp.Auth.Code.{Code, Url, RedirectError, issue, validate_redirect_uri}
use whois_mcp.Auth.Enrollment.{Hashes, EnrollError}
use whois_mcp.Auth.Enrollment as Enrolling
use whois_mcp.Auth.Scopes.{normalize_scopes, known_scope, minimum_scopes}
use whois_mcp.Auth.Server.{
  Server, Form, Draws, OauthError, invalid_request, invalid_target, invalid_scope,
  unsupported_response_type, wrong_resource,
}

pub record AuthRequest : Type 0 where
  pub client_id : Text
  pub redirect_uri : Text
  pub challenge : Text
  pub resource : Text
  pub scopes : List Text

-- Where an error may be reported: in the browser only, or also by the redirect.
pub data AuthError : Type 0 where
  in_browser : RedirectError → AuthError
  by_redirect : OauthError → AuthError

unfoldable pub all_known : List Text → Bool
unfolding known_scope
all_known [] = true
all_known (s ∷ ss) = known_scope s && all_known ss

abbrev default_scopes : List Text → List Text
default_scopes [] = minimum_scopes
default_scopes (s ∷ ss) = s ∷ ss

unfoldable pub requested_scopes : Text → List Text
requested_scopes scope = default_scopes (normalize_scopes (fields scope))

abbrev pub request_of : Form → AuthRequest
request_of f = record {
  client_id = f.client_id;
  redirect_uri = f.redirect_uri;
  challenge = f.code_challenge;
  resource = f.resource;
  scopes = requested_scopes f.scope;
}

-- The checks of `parseAuthRequest` behind that of the redirect target.
unfoldable pub check_request : Server → Form → Result AuthError AuthRequest
unfolding all_known
check_request s f = do
  _ ← require (text_eq f.response_type (codes "code")) (by_redirect unsupported_response_type)
  _ ← require (text_eq f.code_challenge_method (codes "S256")) (by_redirect invalid_request)
  _ ← require (not (is_empty f.code_challenge)) (by_redirect invalid_request)
  _ ← require (not (wrong_resource s f.resource)) (by_redirect invalid_target)
  _ ← require (all_known (requested_scopes f.scope)) (by_redirect invalid_scope)
  ok (request_of f)

unfoldable pub parse_auth_request :
    (Text → Option Url) → Server → Form → Result AuthError AuthRequest
unfolding check_request
parse_auth_request parse s f = elim (validate_redirect_uri parse f.redirect_uri) [
  | err e ↦ err (in_browser e)
  | ok _ ↦ check_request s f
]

pub data Authorized : Type 0 where
  -- The redirect's target and code.
  redirected : Text → Text → Authorized
  refused : AuthError → Authorized
  form_again : EnrollError → Authorized
  failed : Authorized

unfoldable pub session_label : Text → Text
session_label label =
    let l = trim_space label in take 64 (if is_empty l then codes "unnamed session" else l)

abbrev pub new_session : AuthRequest → Text → Text → ℕ → Session
new_session req sid label now = record {
  id = sid;
  label = label;
  scopes = req.scopes;
  created_at = now;
  last_seen = now;
  expires_at = now + refresh_ttl;
  revoked = false;
  revoked_at = 0;
  rotations = 0;
  client_hint = req.client_id;
}

-- The code before the store stamps it.
abbrev pub new_code : AuthRequest → Text → Text → Code
new_code req sid label = record {
  code = [];
  session_id = sid;
  label = label;
  scopes = req.scopes;
  client_id = req.client_id;
  redirect_uri = req.redirect_uri;
  challenge = req.challenge;
  resource = req.resource;
  issued_at = 0;
  expires_at = 0;
}

unfoldable pub issue_code :
    Server → AuthRequest → Text → Text → Option Text → ℕ → Server × Authorized
issue_code s req sid label none now = (s, failed)
issue_code s req sid label (some code) now = (
  record s { auth_codes = issue s.auth_codes (new_code req sid label) code now },
  redirected req.redirect_uri code,
)

-- `authorizePOST` once the enrollment secret is accepted.
unfoldable pub enrol : Server → AuthRequest → Text → Draws → ℕ → Server × Authorized
unfolding issue_code
enrol s req label draws now = elim draws.session_id [
  | none ↦ (s, failed)
  | some sid ↦
      let (m, r) = create s.sessions (some (new_session req sid label now)) in
      elim r [
        | err _ ↦ (record s { sessions = m }, failed)
        | ok _ ↦ issue_code (record s { sessions = m }) req sid label draws.auth_code now
      ]
]

unfoldable pub authorize_post :
    (Text → Option Url) → Hashes → Server → Form → Text → Draws → ℕ → Server × Authorized
unfolding parse_auth_request enrol session_label
authorize_post parse h s f source draws now = elim (parse_auth_request parse s f) [
  | err e ↦ (s, refused e)
  | ok req ↦
      let (e, r) = Enrolling.verify h s.enrollment source f.enrollment_token now in
      elim r [
        | err x ↦ (record s { enrollment = e }, form_again x)
        | ok _ ↦ enrol (record s { enrollment = e }) req (session_label f.label) draws now
      ]
]
