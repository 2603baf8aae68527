-- ===== src/Auth/Denylist.antt =====
-- internal/auth/denylist.go and internal/auth/verifier.go: the revocation denylist, and the check
-- that every request's token passes. `read_entry` and `evict` are the two critical sections of
-- `Denied`; `denied` is the call with nothing in between.
pub mod Window
pub mod Eviction
use whois_mcp.Prelude.{
  holds, ℕ, ◌+◌, Bool, true, false, Option, none, some, List, [], ◌∷◌, Text, codes, is_empty,
  text_eq, Dict, lookup, insert, delete, Result, ok, err, ltb, if◌then◌else◌,
}
use whois_mcp.Auth.Token.{
  Codec, Issuer, Claims, TokenError, access_token_ttl, verify, expires_at, scopes,
}

pub record Denylist : Type 0 where
  pub ttl : ℕ
  pub revoked : Dict ℕ

unfoldable pub new_denylist : Denylist
new_denylist = record { ttl = access_token_ttl; revoked = [] }

unfoldable pub add : Denylist → Text → ℕ → Denylist
add d sid now =
    if is_empty sid then d else record d { revoked = insert sid (now + d.ttl) d.revoked }

-- The section under the read lock.
unfoldable pub read_entry : Denylist → Text → Option ℕ
read_entry d sid = lookup sid d.revoked

-- The section under the write lock, which looks at nothing.
unfoldable pub evict : Denylist → Text → Denylist
evict d sid = record d { revoked = delete sid d.revoked }

-- `Denied` with other calls between its sections: `d` is the denylist when the entry is read, and
-- `d'` when the write lock is taken.
unfoldable pub denied_across : Denylist → Denylist → Text → ℕ → Denylist × Bool
unfolding read_entry evict
denied_across d d' sid now = if is_empty sid then (d', false) else elim (read_entry d sid) [
  | none ↦ (d', false)
  | some until ↦ if ltb until now then (evict d' sid, false) else (d', true)
]

unfoldable pub denied : Denylist → Text → ℕ → Denylist × Bool
unfolding denied_across
denied d sid now = denied_across d d sid now

-- Calls on the denylist, each with its time.
pub data Call : Type 0 where
  adds checks : Text → ℕ → Call

abbrev pub time_of : Call → ℕ
time_of (adds sid now) = now
time_of (checks sid now) = now

unfoldable pub step : Denylist → Call → Denylist
step d (adds sid now) = add d sid now
step d (checks sid now) = (denied d sid now).0

unfoldable pub run : Denylist → List Call → Denylist
run d [] = d
run d (c ∷ cs) = run (step d c) cs

-- What the middleware learns of an accepted token.
pub record TokenInfo : Type 0 where
  pub scopes : List Text
  pub expiration : ℕ
  pub user_id : Text
  pub label : Text
  pub jti : Text

pub data InvalidToken : Type 0 where
  not_verified : TokenError → InvalidToken
  session_revoked : Text → InvalidToken

abbrev info_of : Claims → TokenInfo
info_of k = record {
  scopes = scopes k;
  expiration = expires_at k;
  user_id = k.sid;
  label = k.label;
  jti = k.jti;
}

-- The denylist part of the callback; `none` is the nil denylist.
unfoldable pub admit :
    Option Denylist → ℕ → Claims → Option Denylist × Result InvalidToken TokenInfo
admit none now k = (none, ok (info_of k))
admit (some d) now k =
    let (d', out) = denied d k.sid now in
    (some d', if out then err (session_revoked k.sid) else ok (info_of k))

-- The callback of `TokenVerifier`.
unfoldable pub verify_token :
    Codec → Issuer → Option Denylist → Text → ℕ → Option Denylist × Result InvalidToken TokenInfo
unfolding admit
verify_token c i deny token now = elim (verify c i token now) [
  | err e ↦ (deny, err (not_verified e))
  | ok k ↦ admit deny now k
]

-- `HasScope`; `none` is a request with no token.
unfoldable pub has_scope : Option TokenInfo → Text → Bool
unfolding holds
has_scope none want = false
has_scope (some info) want = holds want info.scopes
