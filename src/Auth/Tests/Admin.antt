-- ===== src/Auth/Tests/Admin.antt =====
-- internal/auth/scopegate.go and internal/mcpsrv/tools_m2.go: the theorems at concrete inputs.
use whois_mcp.Prelude.{
  ◌≡◌, ◌↔◌, refl, true, false, Option, none, some, [], ◌∷◌, Text, codes, lookup, insert, text_eq,
  text_eq_false→ne, is_ok, trim_space, contains, take, if◌then◌else◌, arith,
}
use whois_mcp.Auth.Session.{
  run, step, new_memory_store, create, issue_refresh, issue_for, rotate, rotate_known,
  rotated_session,
}
use whois_mcp.Auth.Session.History.{Revoked}
use whois_mcp.Auth.Token.{mint}
use whois_mcp.Auth.Denylist.{Denylist, TokenInfo, add, verify_token, has_scope}
use whois_mcp.Auth.Denylist as Deny
use whois_mcp.Auth.Scopes.{admin_scope}
use whois_mcp.Auth.ScopeGate.{Decoder, forwarded, max_gate_body, scope_gate}
use whois_mcp.Auth.ScopeGate.Decisions.{posted, Permitted, scope_gate_forwards_iff}
use whois_mcp.Mcp.Admin.{privileged_tools, AuthOptions, session_revoke}
use whois_mcp.Mcp.Admin.Revocation.{session_revoke-mint}
use whois_mcp.Auth.Tests.Codec.{codec, codec-IsCodec, codec-IsIssuer}
use whois_mcp.Auth.Tests.Servers.{issuer, login, list}

abbrev operator : Option TokenInfo
operator = some (record {
  scopes = admin_scope ∷ [];
  expiration = 20;
  user_id = codes "s0";
  label = [];
  jti = codes "j0";
})

abbrev stores : AuthOptions
stores = record { sessions = run new_memory_store login; denylist = some list }

session_revoke-mint_example :
    let after = (session_revoke true operator (codes " s1") 8 9 stores).0 in
    Revoked (trim_space (codes " s1")) after.sessions
    × (after.denylist ≡ some (add list (trim_space (codes " s1")) 9))
    × (is_ok
          (verify_token codec issuer
            (some (add list (trim_space (codes " s1")) 9))
            (mint codec issuer (trim_space (codes " s1")) [] [] (codes "j1") 7).0
            11).1
        ≡ false)
unfolding Deny.run run step create issue_refresh issue_for rotate rotate_known rotated_session
    lookup insert text_eq new_memory_store trim_space has_scope
session_revoke-mint_example =
    session_revoke-mint codec codec-IsCodec issuer (codec-IsIssuer issuer refl) true operator
      (codes " s1") 8 9 11 stores _ list [] [] (codes "j1") 7 [] refl refl refl refl
      (text_eq_false→ne (codes "s1") [] refl, refl) (omega arith) tt

abbrev call_body : Text
call_body = codes " {\"method\":\"tools/call\",\"params\":{\"name\":\"session_revoke\"}}"

-- One that knows the call of one tool.
abbrev decoder : Decoder
decoder = record {
  unmarshal = λ body.
      if contains (codes "session_revoke") body
      then some (record { method = codes "tools/call"; name = codes "session_revoke" })
      else none;
  quoted = λ s. s;
}

scope_gate_forwards_iff_example :
    (scope_gate decoder privileged_tools (codes "https://mcp/prm") operator (posted call_body)
      ≡ forwarded (some (take max_gate_body call_body)))
    ↔ Permitted decoder privileged_tools operator (take max_gate_body call_body)
scope_gate_forwards_iff_example =
    scope_gate_forwards_iff decoder privileged_tools (codes "https://mcp/prm") operator call_body
      refl
