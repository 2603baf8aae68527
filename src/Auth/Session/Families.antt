-- ===== src/Auth/Session/Families.antt =====
-- internal/auth/session.go: what every call keeps. A session stands under its own id, a refresh
-- record names a stored session, and a revoked session's records are all spent.
use mathlib.Core.Option
use whois_mcp.Prelude.{
  ℕ, ◌≡◌, ◌∙◌, refl, true, false, Option, none, some, List, [], ◌∷◌, Text, text_eq, text_eq_iff,
  Dict, lookup, insert, lookup-insert, lookup-insert_self, lookup-map_values, Option-cases,
  Bool-cases, inl, inr, arith,
}
use whois_mcp.Auth.Session.{
  Session, RefreshRecord, MemoryStore, Call, creates, issues, rotates, revokes, touches, step, run,
  new_memory_store, create, issue_refresh, rotate, revoke, touch, spend, revoke_family,
  rotated_session, rotated_session-id, rotated_session-revoked,
}
use whois_mcp.Auth.Session.Branches.{
  create_cases, issue_cases, rotate_cases, revoke_cases, touch_cases,
}

abbrev pub Keyed : Dict Session → Type 0
Keyed ss = (k : Text) (s : Session) → lookup k ss ≡ some s → s.id ≡ k

abbrev pub Owned : Dict Session → Dict RefreshRecord → Type 0
Owned ss rs =
    (t : Text) (r : RefreshRecord)
    → lookup t rs ≡ some r
    → (s : Session) × (lookup r.sid ss ≡ some s)

abbrev pub Spent : Dict Session → Dict RefreshRecord → Type 0
Spent ss rs =
    (t : Text) (r : RefreshRecord) (s : Session)
    → lookup t rs ≡ some r
    → lookup r.sid ss ≡ some s
    → s.revoked ≡ true
    → r.used ≡ true

pub record WellFormed (m : MemoryStore) : Type 0 where
  pub keyed : Keyed m.sessions
  pub owned : Owned m.sessions m.refresh
  pub spent : Spent m.sessions m.refresh

module _ (ss : Dict Session) where
  Keyed-insert : (k : Text) (s : Session) → s.id ≡ k → Keyed ss → Keyed (insert k s ss)
  Keyed-insert k s e v = λ j t h. ground (arith, lookup-insert k j s ss, text_eq_iff k j, v j t)

  Owned-insert_session :
      (rs : Dict RefreshRecord) (k : Text) (s : Session) → Owned ss rs → Owned (insert k s ss) rs
  Owned-insert_session rs k s v = λ t r h. elim (Bool-cases (text_eq k r.sid)) [
    | inl e ↦ (s, ground (arith, lookup-insert k r.sid s ss))
    | inr e ↦ let (s', q) = v t r h in (s', ground (arith, lookup-insert k r.sid s ss))
  ]

  Owned-insert_record :
      (rs : Dict RefreshRecord) (t : Text) (r : RefreshRecord) (s : Session)
      → lookup r.sid ss ≡ some s
      → Owned ss rs
      → Owned ss (insert t r rs)
  Owned-insert_record rs t r s found v = λ j q h. elim (Bool-cases (text_eq t j)) [
    | inl e ↦ (s, ground (arith, lookup-insert t j r rs))
    | inr e ↦ v j q (ground (arith, lookup-insert t j r rs))
  ]

spend-sid : (k : Text) (now : ℕ) (r : RefreshRecord) → (spend k now r).sid ≡ r.sid
unfolding spend
spend-sid k now r = ground arith

module _ (rs : Dict RefreshRecord) where
  pub lookup-revoke_family :
      (k t : Text) (now : ℕ)
      → lookup t (revoke_family k now rs) ≡ Option.map (spend k now) (lookup t rs)
  unfolding revoke_family
  lookup-revoke_family k t now = lookup-map_values (spend k now) t rs

  -- A record of the revoked family, and where it comes from.
  revoke_family_inv :
      (k t : Text) (now : ℕ) (q : RefreshRecord)
      → lookup t (revoke_family k now rs) ≡ some q
      → (r : RefreshRecord) × (lookup t rs ≡ some r) × (q ≡ spend k now r)
  revoke_family_inv k t now q h = elim (Option-cases (lookup t rs)) [
    | inl e ↦ absurd (ground (arith, lookup-revoke_family k t now))
    | inr (r, e) ↦ (r, e, ground (arith, lookup-revoke_family k t now))
  ]

  Owned-revoke_family :
      (ss : Dict Session) (k : Text) (now : ℕ) → Owned ss rs → Owned ss (revoke_family k now rs)
  Owned-revoke_family ss k now v = λ t q h.
      let (r, found, e) = revoke_family_inv k t now q h in
      let (s, p) = v t r found in (s, rw (e, spend-sid k now r) p)

module _ (ss : Dict Session) (rs : Dict RefreshRecord) where
  -- The session is written back with its revocation as it was, or lifted by nobody.
  Spent-insert_session :
      (k : Text) (s s' : Session)
      → lookup k ss ≡ some s
      → s'.revoked ≡ s.revoked
      → Spent ss rs
      → Spent (insert k s' ss) rs
  Spent-insert_session k s s' found same v = λ t r q h p.
      ground (arith, lookup-insert k r.sid s' ss, text_eq_iff k r.sid, v t r s, v t r q)

  Spent-insert_new :
      (k : Text) (s : Session)
      → lookup k ss ≡ none
      → Owned ss rs
      → Spent ss rs
      → Spent (insert k s ss) rs
  Spent-insert_new k s free owned v = λ t r q h p.
      let (s', found) = owned t r h in
      ground (arith, lookup-insert k r.sid s ss, text_eq_iff k r.sid, v t r q)

  Spent-insert_record :
      (t : Text) (r : RefreshRecord) (s : Session)
      → lookup r.sid ss ≡ some s
      → s.revoked ≡ false
      → Spent ss rs
      → Spent ss (insert t r rs)
  Spent-insert_record t r s found alive v =
      λ j q s' h p. ground (arith, lookup-insert t j r rs, v j q s')

  Spent-revoke :
      (k : Text) (s : Session) (now : ℕ)
      → Spent ss rs
      → Spent (insert k s ss) (revoke_family k now rs)
  unfolding spend
  Spent-revoke k s now v = λ t q s' h p.
      let (r, found, e) = revoke_family_inv rs k t now q h in
      ground (arith, lookup-insert k r.sid s ss, text_eq_iff k r.sid, text_eq_iff r.sid k, v t r s')

module _ (m : MemoryStore) (v : WellFormed m) where
  create-WellFormed : (s : Option Session) → WellFormed (create m s).0
  create-WellFormed s = create_cases WellFormed m s v λ s free. record {
    keyed = Keyed-insert m.sessions s.id s refl v.keyed;
    owned = Owned-insert_session m.sessions m.refresh s.id s v.owned;
    spent = Spent-insert_new m.sessions m.refresh s.id s free v.owned v.spent;
  }

  issue_refresh-WellFormed :
      (sid token : Text) (now : ℕ) → WellFormed (issue_refresh m sid token now).0
  issue_refresh-WellFormed sid token now =
      issue_cases WellFormed m sid token now v λ s found alive _.
        let s' : Session = record s { last_seen = now } in
        let here = lookup-insert_self sid s' m.sessions in
        record {
          keyed = Keyed-insert m.sessions sid s' (v.keyed sid s found) v.keyed;
          owned =
              Owned-insert_record (insert sid s' m.sessions) m.refresh token _ s' here
                (Owned-insert_session m.sessions m.refresh sid s' v.owned);
          spent =
              Spent-insert_record (insert sid s' m.sessions) m.refresh token _ s' here alive
                (Spent-insert_session m.sessions m.refresh sid s s' found refl v.spent);
        }

  rotate-WellFormed :
      (old_token new_token : Text) (now : ℕ) → WellFormed (rotate m old_token new_token now).0
  rotate-WellFormed old_token new_token now =
      rotate_cases WellFormed m old_token new_token now v
        (λ r s found owner used. record {
          keyed = Keyed-insert m.sessions r.sid _ (v.keyed r.sid s owner) v.keyed;
          owned =
              Owned-revoke_family m.refresh _ s.id now
                (Owned-insert_session m.sessions m.refresh r.sid _ v.owned);
          spent =
              rw (v.keyed r.sid s owner) (Spent-revoke m.sessions m.refresh r.sid _ now v.spent);
        })
        (λ r s found owner unused alive early.
          let s' : Session = rotated_session s now in
          let same : s'.revoked ≡ s.revoked = rotated_session-revoked s now in
          let here = lookup-insert_self r.sid s' m.sessions in
          let own_id = v.keyed r.sid s owner in
          record {
            keyed = Keyed-insert m.sessions r.sid s' (rotated_session-id s now ∙ own_id) v.keyed;
            owned = Owned-insert_record _ _ new_token _ s' (simp own_id here) (
                Owned-insert_record _ _ old_token _ s' here
                  (Owned-insert_session m.sessions m.refresh r.sid s' v.owned));
            spent = Spent-insert_record _ _ new_token _ s' (simp own_id here) (same ∙ alive) (
                Spent-insert_record _ _ old_token _ s' here (same ∙ alive)
                  (Spent-insert_session m.sessions m.refresh r.sid s s' owner same v.spent));
          })

  revoke-WellFormed : (sid : Text) (now : ℕ) → WellFormed (revoke m sid now).0
  revoke-WellFormed sid now = revoke_cases WellFormed m sid now v λ s found. record {
    keyed = Keyed-insert m.sessions sid _ (v.keyed sid s found) v.keyed;
    owned =
        Owned-revoke_family m.refresh _ sid now
          (Owned-insert_session m.sessions m.refresh sid _ v.owned);
    spent = Spent-revoke m.sessions m.refresh sid _ now v.spent;
  }

  touch-WellFormed : (sid : Text) (now : ℕ) → WellFormed (touch m sid now).0
  touch-WellFormed sid now = touch_cases WellFormed m sid now v λ s found.
      let s' : Session = record s { last_seen = now } in
      record {
        keyed = Keyed-insert m.sessions sid s' (v.keyed sid s found) v.keyed;
        owned = Owned-insert_session m.sessions m.refresh sid s' v.owned;
        spent = Spent-insert_session m.sessions m.refresh sid s s' found refl v.spent;
      }

  -- Every call of the store keeps it well formed, whatever the call answers.
  pub step-WellFormed : (c : Call) → WellFormed (step m c)
  unfolding step
  step-WellFormed (creates s) = create-WellFormed s
  step-WellFormed (issues sid token now) = issue_refresh-WellFormed sid token now
  step-WellFormed (rotates old_token new_token now) = rotate-WellFormed old_token new_token now
  step-WellFormed (revokes sid now) = revoke-WellFormed sid now
  step-WellFormed (touches sid now) = touch-WellFormed sid now

new_memory_store-WellFormed : WellFormed new_memory_store
unfolding new_memory_store lookup
new_memory_store-WellFormed = record {
  keyed = λ k s h. cc;
  owned = λ t r h. absurd (cc h);
  spent = λ t r s h. cc;
}

pub run_from-WellFormed : (m : MemoryStore) (cs : List Call) → WellFormed m → WellFormed (run m cs)
unfolding run
run_from-WellFormed m [] v = v
run_from-WellFormed m (c ∷ cs) v = run_from-WellFormed (step m c) cs (step-WellFormed m v c)

-- After any calls, in any order and at any times, on a new store: each session stands under its own
-- id, each refresh record names a stored session, and no unspent record names a revoked session.
pub run-WellFormed : (cs : List Call) → WellFormed (run new_memory_store cs)
run-WellFormed cs = run_from-WellFormed new_memory_store cs new_memory_store-WellFormed
