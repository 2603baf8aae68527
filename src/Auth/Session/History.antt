-- ===== src/Auth/Session/History.antt =====
-- internal/auth/session.go: theft detection over histories of calls. A revocation is final, and a
-- spent token stays a trap, whatever the clients do in between.
use whois_mcp.Prelude.{
  ℕ, ◌+◌, ◌≡◌, ◌≢◌, ◌∙◌, refl, sym, ap, subst, true, none, some, List, [], ◌∷◌, Text, text_eq,
  text_eq_iff, Dict, lookup, insert, lookup-insert, lookup-insert_self, Bool-cases, inl, inr, arith,
  All, Result, ok, err,
}
use whois_mcp.Auth.Session.{
  Session, RefreshRecord, MemoryStore, StoreError, Call, creates, issues, rotates, revokes, touches,
  step, run, refresh_ttl, rotate, rotate_known, spend, revoke_family, rotated_session,
  rotated_session-revoked, rotated_session-id, refresh_reused, revoked_session, fresh_record,
  consumed_record,
}
use whois_mcp.Auth.Session.Branches.{
  create_cases, issue_cases, rotate_cases, revoke_cases, touch_cases, rotate_ok,
}
use whois_mcp.Auth.Session.Families.{
  WellFormed, step-WellFormed, run_from-WellFormed, lookup-revoke_family,
}

abbrev pub RevokedIn : Text → Dict Session → Type 0
RevokedIn sid ss = (s : Session) × (lookup sid ss ≡ some s) × (s.revoked ≡ true)

-- The session is stored and revoked.
abbrev pub Revoked : Text → MemoryStore → Type 0
Revoked sid m = RevokedIn sid m.sessions

RevokedIn-insert :
    (sid k : Text) (ss : Dict Session) (s s' : Session)
    → lookup k ss ≡ some s
    → (s.revoked ≡ true → s'.revoked ≡ true)
    → RevokedIn sid ss
    → RevokedIn sid (insert k s' ss)
RevokedIn-insert sid k ss s s' found keep (q, at_sid, dead) = elim (Bool-cases (text_eq k sid)) [
  | inl e ↦
      (s', ground (arith, lookup-insert k sid s' ss), keep (ground (arith, text_eq_iff k sid)))
  | inr e ↦ (q, ground (arith, lookup-insert k sid s' ss), dead)
]

RevokedIn-create :
    (sid : Text) (ss : Dict Session) (s : Session)
    → lookup s.id ss ≡ none
    → RevokedIn sid ss
    → RevokedIn sid (insert s.id s ss)
RevokedIn-create sid ss s free (q, at_sid, dead) =
    (q, ground (arith, lookup-insert s.id sid s ss, text_eq_iff s.id sid), dead)

step-Revoked : (m : MemoryStore) (sid : Text) (c : Call) → Revoked sid m → Revoked sid (step m c)
unfolding step
step-Revoked m sid (creates s) v =
    create_cases (Revoked sid) m s v λ s free. RevokedIn-create sid m.sessions s free v
step-Revoked m sid (issues k token now) v =
    issue_cases (Revoked sid) m k token now v
      λ s found _ _. RevokedIn-insert sid k m.sessions s _ found (λ dead. dead) v
step-Revoked m sid (rotates old_token new_token now) v =
    rotate_cases (Revoked sid) m old_token new_token now v
      (λ r s _ owner _. RevokedIn-insert sid r.sid m.sessions s _ owner (λ _. refl) v)
      (λ r s _ owner _ _ _.
        RevokedIn-insert sid r.sid m.sessions s (rotated_session s now) owner
          (λ dead. rotated_session-revoked s now ∙ dead) v)
step-Revoked m sid (revokes k now) v =
    revoke_cases (Revoked sid) m k now v
      λ s found. RevokedIn-insert sid k m.sessions s _ found (λ _. refl) v
step-Revoked m sid (touches k now) v =
    touch_cases (Revoked sid) m k now v
      λ s found. RevokedIn-insert sid k m.sessions s _ found (λ dead. dead) v

run-Revoked :
    (m : MemoryStore) (sid : Text) (cs : List Call) → Revoked sid m → Revoked sid (run m cs)
unfolding run
run-Revoked m sid [] v = v
run-Revoked m sid (c ∷ cs) v = run-Revoked (step m c) sid cs (step-Revoked m sid c v)

-- A spent record makes `Rotate` revoke the session and report the reuse.
pub rotate_spent :
    (m : MemoryStore) (token new_token : Text) (now : ℕ) (r : RefreshRecord) (s : Session)
    → lookup token m.refresh ≡ some r
    → lookup r.sid m.sessions ≡ some s
    → r.used ≡ true
    → s.id ≡ r.sid
    → ((rotate m token new_token now).1 ≡ err (refresh_reused r.sid))
      × Revoked r.sid (rotate m token new_token now).0
unfolding rotate rotate_known
rotate_spent m token new_token now r s found owner used own_id =
    rw (found, owner, rotate, used, rotate_known)
      (
        ap (λ (k : Text). err (refresh_reused k)) own_id,
        (revoked_session s now, lookup-insert_self r.sid _ m.sessions, refl),
      )

-- Once a session is revoked, then after any further calls each refresh token of its family is
-- answered by the reuse error: none is ever exchanged again.
pub rotate_of_Revoked :
    (m : MemoryStore) (sid : Text) (cs : List Call) (token new_token : Text) (now : ℕ)
    (r : RefreshRecord)
    → WellFormed m
    → Revoked sid m
    → lookup token (run m cs).refresh ≡ some r
    → r.sid ≡ sid
    → (rotate (run m cs) token new_token now).1 ≡ err (refresh_reused sid)
rotate_of_Revoked m sid cs token new_token now r v dead found own =
    let later = run_from-WellFormed m cs v in
    let (s, at_sid, revoked) = run-Revoked m sid cs dead in
    let owner : lookup r.sid (run m cs).sessions ≡ some s = rw own at_sid in
    rw (← own)
      (rotate_spent (run m cs) token new_token now r s found owner
        (later.spent token r s found owner revoked) (later.keyed r.sid s owner)).0

-- The token was issued for the session and is spent.
abbrev pub UsedIn : Text → Text → Dict RefreshRecord → Type 0
UsedIn sid token rs =
    (r : RefreshRecord) × (lookup token rs ≡ some r) × (r.used ≡ true) × (r.sid ≡ sid)

-- A refresh token is drawn at random, so no later call writes one that was issued before.
abbrev pub Mints : Text → Call → Type 0
Mints token (rotates old_token new_token now) = new_token ≡ token
Mints token (creates s) = ⊥
Mints token (issues sid t now) = ⊥
Mints token (revokes sid now) = ⊥
Mints token (touches sid now) = ⊥

module _ (sid token : Text) where
  UsedIn-insert :
      (rs : Dict RefreshRecord) (t : Text) (r : RefreshRecord)
      → t ≢ token
      → UsedIn sid token rs
      → UsedIn sid token (insert t r rs)
  UsedIn-insert rs t r other (q, found, used, own) =
      (q, ground (arith, lookup-insert t token r rs, text_eq_iff t token), used, own)

  UsedIn-consume :
      (rs : Dict RefreshRecord) (t new_token : Text) (now : ℕ) (r : RefreshRecord)
      → lookup t rs ≡ some r
      → UsedIn sid token rs
      → UsedIn sid token (insert t (consumed_record r new_token now) rs)
  UsedIn-consume rs t new_token now r at_t (q, found, used, own) =
      elim (Bool-cases (text_eq t token)) [
        | inl e ↦ (
          consumed_record r new_token now,
          ground (arith, lookup-insert t token (consumed_record r new_token now) rs),
          refl,
          ground (arith, text_eq_iff t token),
        )
        | inr e ↦ (
          q,
          ground (arith, lookup-insert t token (consumed_record r new_token now) rs),
          used,
          own,
        )
      ]

  UsedIn-revoke_family :
      (rs : Dict RefreshRecord) (k : Text) (now : ℕ)
      → UsedIn sid token rs
      → UsedIn sid token (revoke_family k now rs)
  unfolding spend
  UsedIn-revoke_family rs k now (q, found, used, own) =
      (q, ground (arith, lookup-revoke_family rs k token now), used, own)

  UsedIn-ne :
      (rs : Dict RefreshRecord) (t : Text) → lookup t rs ≡ none → UsedIn sid token rs → t ≢ token
  UsedIn-ne rs t free (q, found, _, _) = λ e. absurd (ground arith)

  abbrev Used : MemoryStore → Type 0
  Used m = UsedIn sid token m.refresh

  step-Used : (m : MemoryStore) (c : Call) → ¬ Mints token c → Used m → Used (step m c)
  unfolding step
  step-Used m (creates s) fresh v = create_cases Used m s v (λ s free. v)
  step-Used m (issues k t now) fresh v = issue_cases Used m k t now v λ s found alive free.
      UsedIn-insert m.refresh t (fresh_record k s.expires_at) (UsedIn-ne m.refresh t free v) v
  step-Used m (rotates old_token new_token now) fresh v =
      rotate_cases Used m old_token new_token now v
        (λ r s _ owner _. UsedIn-revoke_family m.refresh s.id now v)
        (λ r s found _ _ _ _.
          UsedIn-insert _ new_token (fresh_record s.id (now + refresh_ttl)) fresh
            (UsedIn-consume m.refresh old_token new_token now r found v))
  step-Used m (revokes k now) fresh v =
      revoke_cases Used m k now v (λ s found. UsedIn-revoke_family m.refresh k now v)
  step-Used m (touches k now) fresh v = touch_cases Used m k now v (λ s found. v)

  run-Used :
      (m : MemoryStore) (cs : List Call) → All (λ c. ¬ Mints token c) cs → Used m → Used (run m cs)
  unfolding run
  run-Used m [] fresh v = v
  run-Used m (c ∷ cs) fresh v = run-Used (step m c) cs fresh.1 (step-Used m c fresh.0 v)

pub ok-injective : {s t : Session} → ◌≡◌ {A = Result StoreError Session} (ok s) (ok t) → s ≡ t
ok-injective h = cc

-- The state that a successful exchange leaves: well formed, with the token spent.
rotated_state :
    (m m' : MemoryStore) (token new_token : Text) (now : ℕ) (s : Session)
    → WellFormed m
    → rotate m token new_token now ≡ (m', ok s)
    → new_token ≢ token
    → WellFormed m' × UsedIn s.id token m'.refresh
unfolding step
rotated_state m m' token new_token now s v exchanged fresh =
    let (r, q, found, owner, _, _, _, e) =
      rotate_ok m token new_token now s (ap (λ x. x.1) exchanged) in
    let own_id : r.sid ≡ s.id =
      sym (v.keyed r.sid q owner)
      ∙ sym (rotated_session-id q now)
      ∙ ap (λ (t : Session). t.id) (ok-injective (ap (λ x. x.1) (sym e ∙ exchanged))) in
    (
      subst WellFormed (ap (λ x. x.0) exchanged)
          (step-WellFormed m v (rotates token new_token now)),
      subst (λ (n : MemoryStore). UsedIn s.id token n.refresh) (ap (λ x. x.0) (sym e ∙ exchanged))
          (UsedIn-insert s.id token _ new_token _ fresh
            (consumed_record r new_token now, lookup-insert_self token _ m.refresh, refl, own_id)),
    )

-- A refresh token that was exchanged once is never exchanged again: whatever calls come between, the
-- next use of it is answered by the reuse error, and leaves its session revoked.
pub rotate-rotate :
    (m m' : MemoryStore) (token new_token : Text) (now : ℕ) (s : Session) (cs : List Call)
    (second_token : Text) (later : ℕ)
    → WellFormed m
    → rotate m token new_token now ≡ (m', ok s)
    → new_token ≢ token
    → All (λ c. ¬ Mints token c) cs
    → ((rotate (run m' cs) token second_token later).1 ≡ err (refresh_reused s.id))
      × Revoked s.id (rotate (run m' cs) token second_token later).0
rotate-rotate m m' token new_token now s cs second_token later v exchanged fresh never =
    let (wf', spent) = rotated_state m m' token new_token now s v exchanged fresh in
    let wf = run_from-WellFormed m' cs wf' in
    let (r, found, used, own) = run-Used s.id token m' cs never spent in
    let (q, owner) = wf.owned token r found in
    let caught =
      rotate_spent (run m' cs) token second_token later r q found owner used
        (wf.keyed r.sid q owner) in
    (
      caught.0 ∙ ap (λ (k : Text). err (refresh_reused k)) own,
      subst (λ (k : Text). Revoked k (rotate (run m' cs) token second_token later).0) own caught.1,
    )
