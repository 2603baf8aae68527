-- ===== src/Mcp/Admin.antt =====
-- internal/mcpsrv/tools_m2.go: the privileged tools, with the handlers of session_list and
-- session_revoke; RequireScope and SessionID are those of internal/auth/verifier.go. `info` is the
-- caller's token, none without one.
pub mod Revocation
use mathlib.Core.List.{map}
use whois_mcp.Prelude.{
  ℕ, Bool, true, false, not, ◌&&◌, Option, none, some, List, [], ◌∷◌, Text, codes, is_empty,
  text_eq, trim_space, length, Result, ok, err, if◌then◌else◌,
}
use whois_mcp.Auth.Session.{Session, MemoryStore, StoreError, no_session, revoke}
use whois_mcp.Auth.Session.Listing.{list}
use whois_mcp.Auth.Denylist.{Denylist, TokenInfo, add, has_scope}
use whois_mcp.Auth.Scopes.{whois_raw, admin_scope}
use whois_mcp.Auth.ScopeGate.{ToolScopes}

abbrev pub privileged_tools : ToolScopes
privileged_tools =
    (codes "rdap_raw", whois_raw)
    ∷ (codes "whois_raw", whois_raw)
    ∷ (codes "session_list", admin_scope)
    ∷ (codes "session_revoke", admin_scope)
    ∷ []

-- The stores that the tools share with the authorization server; `none` is the nil denylist.
pub record AuthOptions : Type 0 where
  pub sessions : MemoryStore
  pub denylist : Option Denylist

pub record SessionView : Type 0 where
  pub session : Session
  pub current : Bool

pub record SessionList : Type 0 where
  pub sessions : List SessionView
  pub count : ℕ

pub record SessionRevoked : Type 0 where
  pub sid : Text
  pub self_revoked : Bool

pub data ToolError : Type 0 where
  insufficient_scope not_found : Text → ToolError
  invalid_request : ToolError
  failed : StoreError → ToolError

unfoldable pub session_id : Option TokenInfo → Text
session_id none = []
session_id (some info) = info.user_id

-- `RequireScope`, which only counts when scopes are enforced.
unfoldable pub refuses : Bool → Option TokenInfo → Text → Bool
unfolding has_scope
refuses enforce info want = not (has_scope info want) && enforce

-- The fields of a session that an operator sees are those of the session.
abbrev view_of : Text → Session → SessionView
view_of current s = record { session = s; current = text_eq s.id current }

unfoldable pub session_list : Bool → Option TokenInfo → AuthOptions → Result ToolError SessionList
unfolding refuses list session_id
session_list enforce info a =
    if refuses enforce info admin_scope
    then err (insufficient_scope admin_scope)
    else ok (record {
      sessions = map (view_of (session_id info)) (list a.sessions);
      count = length (list a.sessions);
    })

abbrev pub deny_sid : Option Denylist → Text → ℕ → Option Denylist
deny_sid none sid now = none
deny_sid (some d) sid now = some (add d sid now)

abbrev revoke_error : StoreError → ToolError
revoke_error (no_session sid) = not_found sid
revoke_error e = failed e

-- The session is revoked in the store, and denied then, at `later`.
abbrev revoke_answer :
    Option TokenInfo
    → Text
    → ℕ
    → AuthOptions
    → MemoryStore × Result StoreError (Unit {0})
    → AuthOptions × Result ToolError SessionRevoked
revoke_answer info sid later a (m, err e) = (record a { sessions = m }, err (revoke_error e))
revoke_answer info sid later a (m, ok _) = (
  record { sessions = m; denylist = deny_sid a.denylist sid later },
  ok (record { sid = sid; self_revoked = text_eq sid (session_id info) }),
)

unfoldable pub revoke_sid :
    Option TokenInfo → Text → ℕ → ℕ → AuthOptions → AuthOptions × Result ToolError SessionRevoked
unfolding revoke session_id add
revoke_sid info sid now later a =
    if is_empty sid
    then (a, err invalid_request)
    else revoke_answer info sid later a (revoke a.sessions sid now)

unfoldable pub session_revoke :
    Bool
    → Option TokenInfo
    → Text
    → ℕ
    → ℕ
    → AuthOptions
    → AuthOptions × Result ToolError SessionRevoked
unfolding refuses revoke_sid trim_space
session_revoke enforce info sid now later a =
    if refuses enforce info admin_scope
    then (a, err (insufficient_scope admin_scope))
    else revoke_sid info (trim_space sid) now later a
