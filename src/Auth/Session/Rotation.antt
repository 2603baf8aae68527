-- ===== src/Auth/Session/Rotation.antt =====
-- internal/auth/session.go: what one exchange does to a token family, and to everything else.
use mathlib.Core.Path.{subst₂}
use mathlib.Core.Option
use whois_mcp.Prelude.{
  ℕ, ◌+◌, ◌≡◌, ◌≢◌, ◌∙◌, refl, sym, ap, true, false, some, Text, text_eq, text_eq_iff, Dict,
  if◌then◌else◌, lookup, insert, lookup-insert, Bool-cases, Option-cases, inl, inr, arith, ok, err,
}
use whois_mcp.Auth.Session.{
  Session, RefreshRecord, MemoryStore, StoreError, rotate, rotate_known, refresh_reused,
  refresh_ttl, spend, revoke_family, rotated_session, fresh_record, consumed_record,
}
use whois_mcp.Auth.Session.Branches.{rotate_cases, rotate_ok}
use whois_mcp.Auth.Session.History.{ok-injective}
use whois_mcp.Auth.Session.Families.{WellFormed, lookup-revoke_family}

-- At most one unspent token in each family.
abbrev pub OneLiveIn : Dict RefreshRecord → Type 0
OneLiveIn rs =
    (t u : Text) (r q : RefreshRecord)
    → lookup t rs ≡ some r
    → lookup u rs ≡ some q
    → r.used ≡ false
    → q.used ≡ false
    → r.sid ≡ q.sid
    → t ≡ u

abbrev pub OneLive : MemoryStore → Type 0
OneLive m = OneLiveIn m.refresh

unspent_before :
    (rs : Dict RefreshRecord) (k t : Text) (now : ℕ) (q : RefreshRecord)
    → lookup t (revoke_family k now rs) ≡ some q
    → q.used ≡ false
    → lookup t rs ≡ some q
unfolding spend
unspent_before rs k t now q h unused = ground (arith, lookup-revoke_family rs k t now)

unspent_other :
    (rs : Dict RefreshRecord) (old new u : Text) (r f q : RefreshRecord)
    → lookup u (insert new f (insert old r rs)) ≡ some q
    → r.used ≡ true
    → q.used ≡ false
    → text_eq new u ≡ false
    → (old ≢ u) × (lookup u rs ≡ some q)
unspent_other rs old new u r f q h spent unused other = ground (
  arith,
  lookup-insert new u f (insert old r rs),
  lookup-insert old u r rs,
  text_eq_iff new u,
  text_eq_iff old u,
)

module _ (rs : Dict RefreshRecord) (old new : Text) (r f c : RefreshRecord) where
  OneLiveIn-exchange :
      lookup old rs ≡ some r
      → r.used ≡ false
      → c.used ≡ true
      → f.sid ≡ r.sid
      → OneLiveIn rs
      → OneLiveIn (insert new f (insert old c rs))
  OneLiveIn-exchange found unused spent own v = λ t u p q ht hu up uq same.
      let new_is =
        λ (x : Text) (y : RefreshRecord) (hit : text_eq new x ≡ true)
            (at_x : lookup x (insert new f (insert old c rs)) ≡ some y).
          new_entry x y hit at_x in
      elim (Bool-cases (text_eq new t)) [
        | inl et ↦ elim (Bool-cases (text_eq new u)) [
          | inl eu ↦ ground (arith, text_eq_iff new t, text_eq_iff new u)
          | inr nu ↦
              let (apart, before) = unspent_other rs old new u c f q hu spent uq nu in
              let e = new_is t p et ht in
              absurd (apart (v old u r q found before unused uq (ground arith)))
        ]
        | inr nt ↦
            let (apart, before) = unspent_other rs old new t c f p ht spent up nt in
            elim (Bool-cases (text_eq new u)) [
              | inl eu ↦
                  let e = new_is u q eu hu in
                  absurd (apart (v old t r p found before unused up (ground arith)))
              | inr nu ↦
                  let (_, before_u) = unspent_other rs old new u c f q hu spent uq nu in
                  v t u p q before before_u up uq same
            ]
      ]
    where
      new_entry :
          (x : Text) (y : RefreshRecord)
          → text_eq new x ≡ true
          → lookup x (insert new f (insert old c rs)) ≡ some y
          → y ≡ f
      new_entry x y hit at_x = ground (arith, lookup-insert new x f (insert old c rs))

-- `Rotate` never leaves two unspent tokens in one family of a well-formed store, if there was at most
-- one in each before.
pub rotate-OneLive :
    (m : MemoryStore) (old_token new_token : Text) (now : ℕ)
    → WellFormed m
    → OneLive m
    → OneLive (rotate m old_token new_token now).0
rotate-OneLive m old_token new_token now v one =
    rotate_cases OneLive m old_token new_token now one
      (λ r s _ owner _ t u p q ht hu up uq same.
        one t u p q (unspent_before m.refresh s.id t now p ht up)
          (unspent_before m.refresh s.id u now q hu uq) up uq same)
      (λ r s found owner unused _ _.
        OneLiveIn-exchange m.refresh old_token new_token r (fresh_record s.id (now + refresh_ttl))
          (consumed_record r new_token now) found unused refl (v.keyed r.sid s owner) one)

-- The stored session slides to a full lifetime from now, the old token's record is spent, the new
-- token's expires with the session, and every other token and session is as it was.
abbrev pub Slides : MemoryStore → MemoryStore → Text → Text → ℕ → Session → Type 0
Slides m m' old_token new_token now s =
    (s.expires_at ≡ now + refresh_ttl)
    × ((t : Text)
        → lookup t m'.refresh ≡ (
            if text_eq new_token t
            then some (fresh_record s.id s.expires_at)
            else if text_eq old_token t
            then Option.map (λ (r : RefreshRecord). consumed_record r new_token now)
                (lookup t m.refresh)
            else lookup t m.refresh))
    × ((k : Text) → lookup k m'.sessions ≡ (if text_eq s.id k then some s else lookup k m.sessions))

Slides-exchange :
    (m : MemoryStore) (old_token new_token : Text) (now : ℕ) (r : RefreshRecord) (q : Session)
    → q.id ≡ r.sid
    → lookup old_token m.refresh ≡ some r
    → Slides m
        (record {
          sessions = insert r.sid (rotated_session q now) m.sessions;
          refresh =
              insert new_token
                (fresh_record q.id (now + refresh_ttl))
                (insert old_token (consumed_record r new_token now) m.refresh);
        })
        old_token
        new_token
        now
        (rotated_session q now)
unfolding rotated_session
Slides-exchange m old_token new_token now r q own_id found =
    let spent = insert old_token (consumed_record r new_token now) m.refresh in
    (
      refl,
      λ t. ground (
        arith,
        lookup-insert new_token t (fresh_record q.id (now + refresh_ttl)) spent,
        lookup-insert old_token t (consumed_record r new_token now) m.refresh,
        text_eq_iff old_token t,
      ),
      λ k. ground (arith, lookup-insert r.sid k (rotated_session q now) m.sessions),
    )

-- A successful exchange slides the session's lifetime to thirty days from now: the session that it
-- returns is the stored one, the old token is spent, the new token is unspent and expires with the
-- session, and neither another token nor another session is touched.
pub rotate-Slides :
    (m m' : MemoryStore) (old_token new_token : Text) (now : ℕ) (s : Session)
    → WellFormed m
    → rotate m old_token new_token now ≡ (m', ok s)
    → Slides m m' old_token new_token now s
rotate-Slides m m' old_token new_token now s v exchanged =
    let (r, q, found, owner, _, _, _, e) =
      rotate_ok m old_token new_token now s (ap (λ x. x.1) exchanged) in
    let result = sym e ∙ exchanged in
    subst₂ (λ (n : MemoryStore) (t : Session). Slides m n old_token new_token now t)
      (ap (λ x. x.0) result) (ok-injective (ap (λ x. x.1) result))
      (Slides-exchange m old_token new_token now r q (v.keyed r.sid q owner) found)

-- A failed `Rotate` other than a detected reuse leaves the store as it was.
pub rotate_failed :
    (m : MemoryStore) (old_token new_token : Text) (now : ℕ) (e : StoreError)
    → (rotate m old_token new_token now).1 ≡ err e
    → ((sid : Text) → e ≢ refresh_reused sid)
    → (rotate m old_token new_token now).0 ≡ m
unfolding rotate rotate_known
rotate_failed m old_token new_token now e h plain =
    elim (Option-cases (lookup old_token m.refresh)) [
      | inl missing ↦ ground arith
      | inr (r, found) ↦ elim (Option-cases (lookup r.sid m.sessions)) [
        | inl orphan ↦ ground arith
        | inr (s, owner) ↦ ground (arith, plain s.id)
      ]
    ]
