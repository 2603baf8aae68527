-- ===== src/Auth/Denylist/Eviction.antt =====
-- internal/auth/denylist.go: the two critical sections of `Denied`, with another call between them.
use whois_mcp.Prelude.{ℕ, ◌<◌, ◌≡◌, false, some, Text, lookup, lookup-delete_self, arith}
use whois_mcp.Auth.Denylist.{Denylist, add, denied, denied_across}

-- A check that reads an expired entry, and takes the write lock only after the session has been
-- revoked anew, takes the new revocation away: the session is then reported as not denied at every
-- moment, also within the ten minutes.
pub denied_across-add :
    (d : Denylist) (sid : Text) (until checked revoked_at now : ℕ)
    → lookup sid d.revoked ≡ some until
    → until < checked
    → (denied (denied_across d (add d sid revoked_at) sid checked).0 sid now).1 ≡ false
unfolding denied
denied_across-add d sid until checked revoked_at now found past =
    ground (arith, lookup-delete_self sid (add d sid revoked_at).revoked)
