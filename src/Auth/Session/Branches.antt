-- ===== src/Auth/Session/Branches.antt =====
-- internal/auth/session.go: the branches of the store's calls. A predicate holds of the store after
-- a call if it holds in each branch, with what the branch has tested.
use whois_mcp.Prelude.{
  ℕ, ◌+◌, ◌≤◌, ◌≡◌, true, false, Option, none, some, Text, lookup, insert, Option-cases, Bool-cases,
  inl, inr, is_empty, ltb, ltb_false→le, arith, ok,
}
use whois_mcp.Auth.Session.{
  Session, RefreshRecord, MemoryStore, create, issue_for, issue_refresh, rotate, rotate_known,
  revoke, touch, revoke_family, fresh_record, revoked_session, rotated_session, consumed_record,
  refresh_ttl,
}

module _ {ℓ} (P : MemoryStore → Type ℓ) (m : MemoryStore) where
  pub create_cases :
      (s : Option Session)
      → P m
      → ((s : Session)
          → lookup s.id m.sessions ≡ none
          → P (record m { sessions = insert s.id s m.sessions }))
      → P (create m s).0
  unfolding create
  create_cases none same stored = same
  create_cases (some s) same stored = elim (Bool-cases (is_empty s.id)) [
    | inl e ↦ rw (e, create) same
    | inr e ↦ elim (Option-cases (lookup s.id m.sessions)) [
      | inl free ↦ rw (e, free, create) (stored s free)
      | inr (_, taken) ↦ rw (e, taken, create) same
    ]
  ]

  issue_for_cases :
      (sid token : Text) (now : ℕ) (s : Session)
      → P m
      → (s.revoked ≡ false
          → lookup token m.refresh ≡ none
          → P (record {
            sessions = insert sid (record s { last_seen = now }) m.sessions;
            refresh = insert token (fresh_record sid s.expires_at) m.refresh;
          }))
      → P (issue_for m sid token now s).0
  unfolding issue_for
  issue_for_cases sid token now s same issued = elim (Bool-cases s.revoked) [
    | inl e ↦ rw (e, issue_for) same
    | inr e ↦ elim (Option-cases (lookup token m.refresh)) [
      | inl free ↦ rw (e, free, issue_for) (issued e free)
      | inr (_, taken) ↦ rw (e, taken, issue_for) same
    ]
  ]

  pub issue_cases :
      (sid token : Text) (now : ℕ)
      → P m
      → ((s : Session)
          → lookup sid m.sessions ≡ some s
          → s.revoked ≡ false
          → lookup token m.refresh ≡ none
          → P (record {
            sessions = insert sid (record s { last_seen = now }) m.sessions;
            refresh = insert token (fresh_record sid s.expires_at) m.refresh;
          }))
      → P (issue_refresh m sid token now).0
  unfolding issue_refresh
  issue_cases sid token now same issued = elim (Bool-cases (is_empty token)) [
    | inl e ↦ rw (e, issue_refresh) same
    | inr e ↦ elim (Option-cases (lookup sid m.sessions)) [
      | inl missing ↦ rw (e, missing, issue_refresh) same
      | inr (s, found) ↦
          rw (e, found, issue_refresh) (issue_for_cases sid token now s same (issued s found))
    ]
  ]

  rotate_known_cases :
      (old_token new_token : Text) (now : ℕ) (r : RefreshRecord) (s : Session)
      → P m
      → (r.used ≡ true
          → P (record {
            sessions = insert r.sid (revoked_session s now) m.sessions;
            refresh = revoke_family s.id now m.refresh;
          }))
      → (r.used ≡ false
          → s.revoked ≡ false
          → now ≤ r.expires_at
          → P (record {
            sessions = insert r.sid (rotated_session s now) m.sessions;
            refresh =
                insert new_token
                  (fresh_record s.id (now + refresh_ttl))
                  (insert old_token (consumed_record r new_token now) m.refresh);
          }))
      → P (rotate_known m old_token new_token now r s).0
  unfolding rotate_known
  rotate_known_cases old_token new_token now r s same reused rotated = elim (Bool-cases r.used) [
    | inl e ↦ rw (e, rotate_known) (reused e)
    | inr e ↦ elim (Bool-cases s.revoked) [
      | inl dead ↦ rw (e, dead, rotate_known) same
      | inr alive ↦ elim (Bool-cases (ltb r.expires_at now)) [
        | inl late ↦ rw (e, alive, late, rotate_known) same
        | inr early ↦
            simp (e, alive, early, rotate_known)
              (rotated e alive (ltb_false→le r.expires_at now early))
      ]
    ]
  ]

  pub rotate_cases :
      (old_token new_token : Text) (now : ℕ)
      → P m
      → ((r : RefreshRecord) (s : Session)
          → lookup old_token m.refresh ≡ some r
          → lookup r.sid m.sessions ≡ some s
          → r.used ≡ true
          → P (record {
            sessions = insert r.sid (revoked_session s now) m.sessions;
            refresh = revoke_family s.id now m.refresh;
          }))
      → ((r : RefreshRecord) (s : Session)
          → lookup old_token m.refresh ≡ some r
          → lookup r.sid m.sessions ≡ some s
          → r.used ≡ false
          → s.revoked ≡ false
          → now ≤ r.expires_at
          → P (record {
            sessions = insert r.sid (rotated_session s now) m.sessions;
            refresh =
                insert new_token
                  (fresh_record s.id (now + refresh_ttl))
                  (insert old_token (consumed_record r new_token now) m.refresh);
          }))
      → P (rotate m old_token new_token now).0
  unfolding rotate
  rotate_cases old_token new_token now same reused rotated =
      elim (Option-cases (lookup old_token m.refresh)) [
        | inl missing ↦ rw (missing, rotate) same
        | inr (r, found) ↦ elim (Option-cases (lookup r.sid m.sessions)) [
          | inl orphan ↦ rw (found, orphan, rotate) same
          | inr (s, owner) ↦
              rw (found, owner, rotate)
                (rotate_known_cases old_token new_token now r s same (reused r s found owner)
                  (rotated r s found owner))
        ]
      ]

  pub revoke_cases :
      (sid : Text) (now : ℕ)
      → P m
      → ((s : Session)
          → lookup sid m.sessions ≡ some s
          → P (record {
            sessions = insert sid (revoked_session s now) m.sessions;
            refresh = revoke_family sid now m.refresh;
          }))
      → P (revoke m sid now).0
  unfolding revoke
  revoke_cases sid now same revoked = elim (Option-cases (lookup sid m.sessions)) [
    | inl missing ↦ rw (missing, revoke) same
    | inr (s, found) ↦ rw (found, revoke) (revoked s found)
  ]

  pub touch_cases :
      (sid : Text) (now : ℕ)
      → P m
      → ((s : Session)
          → lookup sid m.sessions ≡ some s
          → P (record m { sessions = insert sid (record s { last_seen = now }) m.sessions }))
      → P (touch m sid now).0
  unfolding touch
  touch_cases sid now same touched = elim (Option-cases (lookup sid m.sessions)) [
    | inl missing ↦ rw (missing, touch) same
    | inr (s, found) ↦ rw (found, touch) (touched s found)
  ]

-- What a successful `Rotate` has checked, and what it leaves.
pub rotate_ok :
    (m : MemoryStore) (old_token new_token : Text) (now : ℕ) (q : Session)
    → (rotate m old_token new_token now).1 ≡ ok q
    → (r : RefreshRecord) × (s : Session) × (lookup old_token m.refresh ≡ some r)
      × (lookup r.sid m.sessions ≡ some s)
      × (r.used ≡ false)
      × (s.revoked ≡ false)
      × (now ≤ r.expires_at)
      × (rotate m old_token new_token now ≡ (
        record {
          sessions = insert r.sid (rotated_session s now) m.sessions;
          refresh =
              insert new_token
                (fresh_record s.id (now + refresh_ttl))
                (insert old_token (consumed_record r new_token now) m.refresh);
        },
        ok (rotated_session s now),
      ))
unfolding rotate rotate_known
rotate_ok m old_token new_token now q h = elim (Option-cases (lookup old_token m.refresh)) [
  | inl missing ↦ absurd (ground arith)
  | inr (r, found) ↦ elim (Option-cases (lookup r.sid m.sessions)) [
    | inl orphan ↦ absurd (ground arith)
    | inr (s, owner) ↦ (r, s, found, owner, ground arith, ground arith, ground arith, ground arith)
  ]
]
