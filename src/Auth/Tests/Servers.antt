-- ===== src/Auth/Tests/Servers.antt =====
-- internal/auth/oauthsrv.go: the theorems on the endpoints at concrete inputs.
use whois_mcp.Prelude.{
  ◌≡◌, refl, true, false, Option, some, List, [], ◌∷◌, Text, codes, lookup, insert, text_eq,
  text_eq_false→ne, ok, is_ok, trim_space, split_on, to_lower, fields, arith,
}
use whois_mcp.Auth.Keyring.{KeyPair}
use whois_mcp.Auth.Session.{
  Session, Call, creates, issues, rotates, run, step, new_memory_store, create, issue_refresh,
  issue_for, rotate, rotate_known, rotated_session,
}
use whois_mcp.Auth.Session.Families.{run-WellFormed}
use whois_mcp.Auth.Session.History.{Revoked}
use whois_mcp.Auth.Token.{Issuer, mint, verify, access_token_ttl, sign}
use whois_mcp.Auth.Denylist.{Denylist, add, verify_token}
use whois_mcp.Auth.Denylist as Deny
use whois_mcp.Auth.Code.{Url, validate_redirect_uri}
use whois_mcp.Auth.Enrollment.{Hashes, Enrollment}
use whois_mcp.Auth.Enrollment as Enrolling
use whois_mcp.Auth.Scopes.{same_resource, normalize_scopes, whois_read}
use whois_mcp.Auth.Server.{
  Server, Form, Draws, issued, rejected, revocation_ok, invalid_grant, wrong_resource,
  token_from_refresh, token_from_code, handle_revoke,
}
use whois_mcp.Auth.Server.Reuse.{Replays, token_from_refresh_replay, handle_revoke_replay}
use whois_mcp.Auth.Server.Revocation.{handle_revoke-mint}
use whois_mcp.Auth.Server.Authorize.{
  AuthRequest, redirected, enrol, issue_code, authorize_post, parse_auth_request, check_request,
  requested_scopes, session_label,
}
use whois_mcp.Auth.Server.Exchange.{Fresh, Redeems, token_from_code-enrol}
use whois_mcp.Auth.Server.Gate.{Sound, authorize_post_redirects}
use whois_mcp.Auth.Tests.Codec.{codec, codec-IsCodec, codec-IsIssuer}

abbrev key : KeyPair
key = record { id = codes "k1"; public = codes "P1"; private = codes "P1" }

abbrev pub issuer : Issuer
issuer = record {
  keys = record { active = key; previous = [] };
  issuer = codes "https://auth";
  audience = codes "https://mcp";
}

abbrev laptop : Session
laptop = record {
  id = codes "s1";
  label = [];
  scopes = whois_read ∷ [];
  created_at = 0;
  last_seen = 0;
  expires_at = 50;
  revoked = false;
  revoked_at = 0;
  rotations = 0;
  client_hint = [];
}

abbrev pub login : List Call
login =
    creates (some laptop)
    ∷ issues (codes "s1") (codes "t1") 1
    ∷ rotates (codes "t1") (codes "t2") 2
    ∷ []

abbrev pub list : Denylist
list = record { ttl = access_token_ttl; revoked = [] }

abbrev server : Server
server = record {
  issuer = issuer;
  sessions = run new_memory_store login;
  auth_codes = [];
  enrollment = record { salt = []; hash = codes "open"; sources = [] };
  denylist = some list;
}

abbrev blank : Form
blank = record {
  grant_type = [];
  code = [];
  code_verifier = [];
  redirect_uri = [];
  client_id = [];
  refresh_token = [];
  resource = [];
  token = [];
  response_type = [];
  code_challenge = [];
  code_challenge_method = [];
  scope = [];
  enrollment_token = [];
  label = [];
}

abbrev draws : Draws
draws = record {
  session_id = some (codes "s9");
  auth_code = some (codes "c9");
  refresh = some (codes "t9");
  jti = some (codes "j9");
}

abbrev replay : Form
replay = record blank { refresh_token = codes "t1"; token = codes "t1" }

replay-Replays : Replays server replay draws (codes "s1")
unfolding run step create issue_refresh issue_for rotate rotate_known rotated_session lookup insert
    text_eq new_memory_store wrong_resource same_resource
replay-Replays = record {
  spent = _;
  stored = refl;
  used = refl;
  own = refl;
  present = text_eq_false→ne (codes "t1") [] refl;
  resource = refl;
  next = codes "t9";
  drawn = refl;
}

token_from_refresh_replay_example :
    let (after, answer) = token_from_refresh codec server replay draws 9 in
    (answer ≡ rejected invalid_grant)
    × Revoked (codes "s1") after.sessions
    × (after.denylist ≡ some (add list (codes "s1") 9))
    × (is_ok
          (verify_token codec issuer
            (some (add list (codes "s1") 9))
            (mint codec issuer (codes "s1") [] [] (codes "j1") 7).0
            11).1
        ≡ false)
unfolding Deny.run text_eq
token_from_refresh_replay_example =
    token_from_refresh_replay codec codec-IsCodec server (codec-IsIssuer server.issuer refl) replay
      draws (codes "s1") 9 list [] [] (codes "j1") 7 11 [] (run-WellFormed login) replay-Replays
      refl refl (text_eq_false→ne (codes "s1") [] refl, refl) (omega arith) tt

handle_revoke_replay_example :
    let (after, answer) = handle_revoke codec server replay draws 9 in
    (answer ≡ revocation_ok)
    × Revoked (codes "s1") after.sessions
    × (after.denylist ≡ some list)
    × (is_ok
          (verify_token codec issuer after.denylist
            (mint codec issuer (codes "s1") [] [] (codes "j1") 7).0
            11).1
        ≡ true)
unfolding verify split_on lookup text_eq
handle_revoke_replay_example =
    handle_revoke_replay codec codec-IsCodec server (codec-IsIssuer server.issuer refl) replay draws
      (codes "s1") 9 list [] [] (codes "j1") 7 11 (run-WellFormed login) replay-Replays refl refl
      refl (text_eq_false→ne (codes "s1") [] refl, refl) refl (omega arith)

abbrev minted : Text
minted = (mint codec issuer (codes "s1") [] [] (codes "j1") 7).0

handle_revoke-mint_example :
    let (after, answer) = handle_revoke codec server (record blank { token = minted }) draws 9 in
    (answer ≡ revocation_ok)
    × Revoked (codes "s1") after.sessions
    × (after.denylist ≡ some (add list (codes "s1") 9))
    × (is_ok
          (verify_token codec issuer
            (some (add list (codes "s1") 9))
            (mint codec issuer (codes "s1") [] [] (codes "j2") 8).0
            11).1
        ≡ false)
unfolding Deny.run run step create issue_refresh issue_for rotate rotate_known rotated_session
    lookup insert text_eq new_memory_store mint sign
handle_revoke-mint_example =
    handle_revoke-mint codec codec-IsCodec server (codec-IsIssuer server.issuer refl)
      (record blank { token = minted }) draws (codes "s1") _ list [] [] [] [] (codes "j1")
      (codes "j2") 7 8 9 11 [] refl refl refl (text_eq_false→ne (codes "s1") [] refl, refl) refl
      (text_eq_false→ne minted [] refl) (omega arith) (omega arith) tt

abbrev verifier : Text
verifier = codes "0123456789012345678901234567890123456789abc"

abbrev request : AuthRequest
request = record {
  client_id = codes "app";
  redirect_uri = codes "https://app/cb";
  challenge = verifier;
  resource = [];
  scopes = whois_read ∷ [];
}

abbrev redeem : Form
redeem = record blank {
  code = codes "c9";
  code_verifier = verifier;
  redirect_uri = codes "https://app/cb";
  client_id = codes "app";
}

server-Fresh : Fresh server draws
unfolding run step create issue_refresh issue_for rotate rotate_known rotated_session lookup insert
    text_eq new_memory_store
server-Fresh = record {
  sid = codes "s9";
  code = codes "c9";
  sid_drawn = refl;
  code_drawn = refl;
  named = text_eq_false→ne (codes "s9") [] refl;
  free = refl;
}

redeem-Redeems : Redeems (λ v. v) (enrol server request [] draws 5).0 request redeem draws
unfolding run step create issue_refresh issue_for rotate rotate_known rotated_session lookup insert
    text_eq new_memory_store enrol issue_code wrong_resource
redeem-Redeems = record {
  verifier = refl;
  challenged = text_eq_false→ne verifier [] refl;
  long = omega arith;
  short = omega arith;
  target = refl;
  client = refl;
  resource = refl;
  jti = codes "j9";
  next = codes "t9";
  jti_drawn = refl;
  next_drawn = refl;
  next_named = text_eq_false→ne (codes "t9") [] refl;
  next_free = refl;
}

token_from_code-enrol_example :
    ((enrol server request [] draws 5).1 ≡ redirected (codes "https://app/cb") server-Fresh.code)
    × ((token_from_code codec (λ v. v) (enrol server request [] draws 5).0 redeem draws 6).1
        ≡ issued
            (mint codec issuer server-Fresh.sid [] (whois_read ∷ []) redeem-Redeems.jti 6).0
            redeem-Redeems.next
            (whois_read ∷ []))
unfolding server-Fresh
token_from_code-enrol_example =
    token_from_code-enrol codec (λ v. v) server (enrol server request [] draws 5).0
      (enrol server request [] draws 5).1 request [] draws 5 server-Fresh redeem draws 6 refl
      redeem-Redeems refl (omega arith)

abbrev parse_url : Text → Option Url
parse_url raw =
    some
      (record { scheme = codes "https"; host = codes "app"; hostname = codes "app"; fragment = [] })

abbrev hashes : Hashes
hashes = record { id_key = λ secret salt. secret; hash_source = λ source. source }

abbrev consent : Form
consent = record blank {
  redirect_uri = codes "https://app/cb";
  response_type = codes "code";
  code_challenge = verifier;
  code_challenge_method = codes "S256";
  enrollment_token = codes "open";
  scope = codes "whois:read";
}

authorize_post_redirects_example :
    Sound parse_url server consent
    × (codes "https://app/cb" ≡ codes "https://app/cb")
    × ((Enrolling.verify hashes
          (record { salt = []; hash = codes "open"; sources = [] })
          (codes "ip")
          (codes "open")
          3).1
        ≡ ok tt)
unfolding authorize_post parse_auth_request check_request enrol issue_code session_label
    requested_scopes run step create issue_refresh issue_for rotate rotate_known rotated_session
    lookup insert text_eq new_memory_store wrong_resource validate_redirect_uri normalize_scopes
    fields trim_space to_lower Enrolling.verify Enrolling.forget_stale Enrolling.state_of
    Enrolling.matches_secret
authorize_post_redirects_example =
    authorize_post_redirects parse_url hashes server consent (codes "ip") draws 3
      (codes "https://app/cb") (codes "c9") refl
