-- ===== src/Auth/Server/Gate.antt =====
-- internal/auth/oauthsrv.go: what stands between an authorization request and its redirect.
use whois_mcp.Prelude.{
  ℕ, ◌≡◌, ◌≢◌, true, false, Option, none, some, [], Text, codes, text_eq_iff, ok, Result-cases,
  Option-cases, ◌∙◌, ap, inl, inr, arith,
}
use whois_mcp.Auth.Code.{Url, validate_redirect_uri}
use whois_mcp.Auth.Enrollment.{Hashes}
use whois_mcp.Auth.Enrollment as Enrolling
use whois_mcp.Auth.Session.{create}
use whois_mcp.Auth.Server.{Server, Form, Draws, wrong_resource}
use whois_mcp.Auth.Server.Authorize.{
  AuthRequest, redirected, all_known, requested_scopes, request_of, check_request,
  parse_auth_request, session_label, new_session, issue_code, enrol, authorize_post,
}

-- What a request must hold before a code is issued for it.
pub record Sound (parse : Text → Option Url) (s : Server) (f : Form) : Type 0 where
  pub target : validate_redirect_uri parse f.redirect_uri ≡ ok tt
  pub code_flow : f.response_type ≡ codes "code"
  pub hashed : f.code_challenge_method ≡ codes "S256"
  pub challenged : f.code_challenge ≢ []
  pub resource : wrong_resource s f.resource ≡ false
  pub scopes : all_known (requested_scopes f.scope) ≡ true

check_request_ok :
    (parse : Text → Option Url) (s : Server) (f : Form) (req : AuthRequest)
    → validate_redirect_uri parse f.redirect_uri ≡ ok tt
    → check_request s f ≡ ok req
    → Sound parse s f × (req ≡ request_of f)
unfolding check_request
check_request_ok parse s f req target h = (
  record {
    target = target;
    code_flow = ground (arith, text_eq_iff f.response_type (codes "code"));
    hashed = ground (arith, text_eq_iff f.code_challenge_method (codes "S256"));
    challenged = ground arith;
    resource = ground arith;
    scopes = ground arith;
  },
  ground arith,
)

issue_code_redirects :
    (s : Server) (req : AuthRequest) (sid label : Text) (draw : Option Text) (now : ℕ)
    (uri code : Text)
    → (issue_code s req sid label draw now).1 ≡ redirected uri code
    → uri ≡ req.redirect_uri
unfolding issue_code
issue_code_redirects s req sid label none now uri code h = absurd (ground arith)
issue_code_redirects s req sid label (some c) now uri code h = ground arith

enrol_redirects :
    (s : Server) (req : AuthRequest) (label : Text) (draws : Draws) (now : ℕ) (uri code : Text)
    → (enrol s req label draws now).1 ≡ redirected uri code
    → uri ≡ req.redirect_uri
unfolding enrol
enrol_redirects s req label draws now uri code h = elim (Option-cases draws.session_id) [
  | inl e ↦ absurd (ground arith)
  | inr (sid, e) ↦
      elim (Result-cases (create s.sessions (some (new_session req sid label now))).1) [
        | inr (x, q) ↦ absurd (ground arith)
        | inl (_, q) ↦
            issue_code_redirects _ req sid label draws.auth_code now uri code
              (rw (e, enrol, q) at h)
      ]
]

-- A browser is sent on with a code only to the target of a valid request, and only after the
-- enrollment secret has been accepted.
pub authorize_post_redirects :
    (parse : Text → Option Url) (h : Hashes) (s : Server) (f : Form) (source : Text) (draws : Draws)
    (now : ℕ) (uri code : Text)
    → (authorize_post parse h s f source draws now).1 ≡ redirected uri code
    → Sound parse s f
      × (uri ≡ f.redirect_uri)
      × ((Enrolling.verify h s.enrollment source f.enrollment_token now).1 ≡ ok tt)
unfolding authorize_post parse_auth_request
authorize_post_redirects parse h s f source draws now uri code sent =
    elim (Result-cases (validate_redirect_uri parse f.redirect_uri)) [
      | inr (x, e) ↦ absurd (ground arith)
      | inl (u, e) ↦ elim (Result-cases (check_request s f)) [
        | inr (x, k) ↦ absurd (ground arith)
        | inl (req, k) ↦
            elim (Result-cases (Enrolling.verify h s.enrollment source f.enrollment_token now).1) [
              | inr (x, q) ↦ absurd (ground arith)
              | inl (w, q) ↦
                  let (sound, is) = check_request_ok parse s f req e k in
                  let target =
                    enrol_redirects _ req (session_label f.label) draws now uri code
                      (rw (e, k, authorize_post, parse_auth_request, q) at sent) in
                  (sound, target ∙ ap (λ (r : AuthRequest). r.redirect_uri) is, q)
            ]
      ]
    ]
