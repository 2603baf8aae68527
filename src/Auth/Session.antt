-- ===== src/Auth/Session.antt =====
-- internal/auth/session.go: sessions, refresh-token families and the in-process MemoryStore. Times
-- are nanoseconds since the epoch; a method runs under the store's mutex, so it is one step.
pub mod Branches
pub mod Families
pub mod History
pub mod Rotation
pub mod Listing
use mathlib.Core.List.{foldl}
use whois_mcp.Prelude.{
  ℕ, ◌+◌, ◌*◌, Bool, true, false, not, ◌&&◌, Option, none, some, List, [], ◌∷◌, Text, is_empty,
  text_eq, ◌≡◌, refl, Dict, lookup, insert, map_values, Result, ok, err, ltb, if◌then◌else◌,
}

abbrev pub second : ℕ
second = 1_000_000_000

-- Thirty days.
abbrev pub refresh_ttl : ℕ
refresh_ttl = 30 * 24 * 3600 * second

pub record Session : Type 0 where
  pub id : Text
  pub label : Text
  pub scopes : List Text
  pub created_at : ℕ
  pub last_seen : ℕ
  pub expires_at : ℕ
  pub revoked : Bool
  pub revoked_at : ℕ
  pub rotations : ℕ
  pub client_hint : Text

-- `(*Session).Active`; `none` is the nil session.
unfoldable pub active : Option Session → ℕ → Bool
active none now = false
active (some s) now = not s.revoked && ltb now s.expires_at

pub data StoreError : Type 0 where
  id_required token_required token_issued refresh_unknown : StoreError
  session_exists no_session session_revoked refresh_reused : Text → StoreError
  refresh_expired : ℕ → StoreError

pub record RefreshRecord : Type 0 where
  pub sid : Text
  pub expires_at : ℕ
  pub used : Bool
  pub used_at : ℕ
  pub replaced : Text

pub record MemoryStore : Type 0 where
  pub sessions : Dict Session
  pub refresh : Dict RefreshRecord

unfoldable pub new_memory_store : MemoryStore
new_memory_store = record { sessions = []; refresh = [] }

-- What the map holds for a record that `IssueRefresh` or `Rotate` writes.
abbrev pub fresh_record : Text → ℕ → RefreshRecord
fresh_record sid expires = record {
  sid = sid;
  expires_at = expires;
  used = false;
  used_at = 0;
  replaced = [];
}

unfoldable pub create : MemoryStore → Option Session → MemoryStore × Result StoreError (Unit {0})
create m none = (m, err id_required)
create m (some s) = if is_empty s.id then (m, err id_required) else elim (lookup s.id m.sessions) [
  | some _ ↦ (m, err (session_exists s.id))
  | none ↦ (record m { sessions = insert s.id s m.sessions }, ok tt)
]

-- The part of `IssueRefresh` after the session is found.
unfoldable pub issue_for :
    MemoryStore → Text → Text → ℕ → Session → MemoryStore × Result StoreError (Unit {0})
issue_for m sid token now s =
    if s.revoked then (m, err (session_revoked sid)) else elim (lookup token m.refresh) [
      | some _ ↦ (m, err token_issued)
      | none ↦ (
        record m {
          sessions = insert sid (record s { last_seen = now }) m.sessions;
          refresh = insert token (fresh_record sid s.expires_at) m.refresh;
        },
        ok tt,
      )
    ]

unfoldable pub issue_refresh :
    MemoryStore → Text → Text → ℕ → MemoryStore × Result StoreError (Unit {0})
unfolding issue_for
issue_refresh m sid token now =
    if is_empty token then (m, err token_required) else elim (lookup sid m.sessions) [
      | none ↦ (m, err (no_session sid))
      | some s ↦ issue_for m sid token now s
    ]

unfoldable pub get : MemoryStore → Text → Result StoreError Session
get m sid = elim (lookup sid m.sessions) [ none ↦ err (no_session sid) | some s ↦ ok s ]

-- One record under the loop of `revokeFamilyLocked`.
unfoldable pub spend : Text → ℕ → RefreshRecord → RefreshRecord
spend sid now r =
    if text_eq r.sid sid && not r.used then record r { used = true; used_at = now } else r

unfoldable pub revoke_family : Text → ℕ → Dict RefreshRecord → Dict RefreshRecord
unfolding spend
revoke_family sid now = map_values (spend sid now)

abbrev pub revoked_session : Session → ℕ → Session
revoked_session s now = record s { revoked = true; revoked_at = now }

-- The session's lifetime slides to a full `refresh_ttl` from now.
unfoldable pub rotated_session : Session → ℕ → Session
rotated_session s now = record s {
  last_seen = now;
  expires_at = now + refresh_ttl;
  rotations = s.rotations + 1;
}

pub rotated_session-id : (s : Session) (now : ℕ) → (rotated_session s now).id ≡ s.id
unfolding rotated_session
rotated_session-id s now = refl

pub rotated_session-revoked : (s : Session) (now : ℕ) → (rotated_session s now).revoked ≡ s.revoked
unfolding rotated_session
rotated_session-revoked s now = refl

abbrev pub consumed_record : RefreshRecord → Text → ℕ → RefreshRecord
consumed_record r new_token now = record r { used = true; used_at = now; replaced = new_token }

-- The part of `Rotate` after the record and its session are found.
unfoldable pub rotate_known :
    MemoryStore
    → Text
    → Text
    → ℕ
    → RefreshRecord
    → Session
    → MemoryStore × Result StoreError Session
unfolding revoke_family
rotate_known m old_token new_token now r s =
    if r.used
    then (
      record {
        sessions = insert r.sid (revoked_session s now) m.sessions;
        refresh = revoke_family s.id now m.refresh;
      },
      err (refresh_reused s.id),
    )
    else if s.revoked
    then (m, err (session_revoked s.id))
    else if ltb r.expires_at now
    then (m, err (refresh_expired r.expires_at))
    else (
      record {
        sessions = insert r.sid (rotated_session s now) m.sessions;
        refresh =
            insert new_token (fresh_record s.id (now + refresh_ttl))
              (insert old_token (consumed_record r new_token now) m.refresh);
      },
      ok (rotated_session s now),
    )

unfoldable pub rotate : MemoryStore → Text → Text → ℕ → MemoryStore × Result StoreError Session
unfolding rotate_known
rotate m old_token new_token now = elim (lookup old_token m.refresh) [
  | none ↦ (m, err refresh_unknown)
  | some r ↦ elim (lookup r.sid m.sessions) [
    | none ↦ (m, err (no_session r.sid))
    | some s ↦ rotate_known m old_token new_token now r s
  ]
]

unfoldable pub revoke : MemoryStore → Text → ℕ → MemoryStore × Result StoreError (Unit {0})
unfolding revoke_family
revoke m sid now = elim (lookup sid m.sessions) [
  | none ↦ (m, err (no_session sid))
  | some s ↦ (
    record {
      sessions = insert sid (revoked_session s now) m.sessions;
      refresh = revoke_family sid now m.refresh;
    },
    ok tt,
  )
]

unfoldable pub touch : MemoryStore → Text → ℕ → MemoryStore × Result StoreError (Unit {0})
touch m sid now = elim (lookup sid m.sessions) [
  | none ↦ (m, err (no_session sid))
  | some s ↦ (record m { sessions = insert sid (record s { last_seen = now }) m.sessions }, ok tt)
]

-- The calls that change the store, as the clients of the mutex interleave them.
pub data Call : Type 0 where
  creates : Option Session → Call
  issues : Text → Text → ℕ → Call
  rotates : Text → Text → ℕ → Call
  revokes touches : Text → ℕ → Call

unfoldable pub step : MemoryStore → Call → MemoryStore
step m (creates s) = (create m s).0
step m (issues sid token now) = (issue_refresh m sid token now).0
step m (rotates old_token new_token now) = (rotate m old_token new_token now).0
step m (revokes sid now) = (revoke m sid now).0
step m (touches sid now) = (touch m sid now).0

unfoldable pub run : MemoryStore → List Call → MemoryStore
run m [] = m
run m (c ∷ cs) = run (step m c) cs
