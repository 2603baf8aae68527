-- ===== src/Auth/Tests/Sessions.antt =====
-- internal/auth/session.go: the theorems on the store at concrete inputs.
use whois_mcp.Prelude.{
  ◌≡◌, refl, true, false, some, List, [], ◌∷◌, codes, lookup, insert, text_eq, text_eq_false→ne,
  text_eq_iff, ok, arith, map_values, err,
}
use whois_mcp.Auth.Session.{
  Session, MemoryStore, refresh_reused, Call, creates, issues, revokes, touches, step, run,
  new_memory_store, rotate, rotate_known, revoke_family, spend, revoke, create, issue_refresh,
  issue_for, touch, fresh_record, rotated_session,
}
use whois_mcp.Auth.Session.Families.{WellFormed, run-WellFormed}
use whois_mcp.Auth.Session.History.{Revoked, rotate_of_Revoked, rotate-rotate}
use whois_mcp.Auth.Session.Rotation.{OneLive, rotate-OneLive}

abbrev laptop : Session
laptop = record {
  id = codes "s1";
  label = codes "laptop";
  scopes = codes "whois:read" ∷ [];
  created_at = 0;
  last_seen = 0;
  expires_at = 5;
  revoked = false;
  revoked_at = 0;
  rotations = 0;
  client_hint = [];
}

abbrev login : List Call
login = creates (some laptop) ∷ issues (codes "s1") (codes "t1") 1 ∷ []

abbrev store : MemoryStore
store = run new_memory_store login

run-WellFormed_example : WellFormed (run new_memory_store login)
run-WellFormed_example = run-WellFormed login

rotate_of_Revoked_example :
    (rotate
      (run
        (run new_memory_store (
          creates (some laptop) ∷ issues (codes "s1") (codes "t1") 1 ∷ revokes (codes "s1") 2 ∷ []))
        (touches (codes "s1") 3 ∷ []))
      (codes "t1")
      (codes "t2")
      4).1
    ≡ err (refresh_reused (codes "s1"))
unfolding run step create issue_refresh issue_for revoke revoke_family spend touch lookup insert
    text_eq map_values new_memory_store
rotate_of_Revoked_example =
    rotate_of_Revoked
      (run new_memory_store
        (creates (some laptop) ∷ issues (codes "s1") (codes "t1") 1 ∷ revokes (codes "s1") 2 ∷ []))
      (codes "s1") (touches (codes "s1") 3 ∷ []) (codes "t1") (codes "t2") 4
      (record (fresh_record (codes "s1") 5) { used = true; used_at = 2 })
      (run-WellFormed
        (creates (some laptop) ∷ issues (codes "s1") (codes "t1") 1 ∷ revokes (codes "s1") 2 ∷ []))
      (_, refl, refl) refl refl

rotate-rotate_example :
    ((rotate
        (run (rotate store (codes "t1") (codes "t2") 2).0 (touches (codes "s1") 3 ∷ []))
        (codes "t1")
        (codes "t3")
        4).1
      ≡ err (refresh_reused (codes "s1")))
    × Revoked
        (codes "s1")
        (rotate
          (run (rotate store (codes "t1") (codes "t2") 2).0 (touches (codes "s1") 3 ∷ []))
          (codes "t1")
          (codes "t3")
          4).0
unfolding run step create issue_refresh issue_for rotate rotate_known lookup insert text_eq
    new_memory_store rotated_session
rotate-rotate_example =
    rotate-rotate store (rotate store (codes "t1") (codes "t2") 2).0 (codes "t1") (codes "t2") 2
      (rotated_session laptop 2) (touches (codes "s1") 3 ∷ []) (codes "t3") 4 (run-WellFormed login)
      refl (text_eq_false→ne (codes "t2") (codes "t1") refl) ((λ x. x), tt)

-- The family has one token, which is unspent.
store-OneLive : OneLive store
unfolding run step create issue_refresh issue_for lookup insert text_eq new_memory_store
store-OneLive = λ t u r q ht hu unused unspent same.
    ground (arith, text_eq_iff (codes "t1") t, text_eq_iff (codes "t1") u)

rotate-OneLive_example : OneLive (rotate store (codes "t1") (codes "t2") 2).0
rotate-OneLive_example =
    rotate-OneLive store (codes "t1") (codes "t2") 2 (run-WellFormed login) store-OneLive

-- That exchange succeeds.
store_rotates : (rotate store (codes "t1") (codes "t2") 2).1 ≡ ok (rotated_session laptop 2)
unfolding run step create issue_refresh issue_for rotate rotate_known lookup insert text_eq
    new_memory_store rotated_session
store_rotates = refl
