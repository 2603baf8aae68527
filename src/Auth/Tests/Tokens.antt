-- ===== src/Auth/Tests/Tokens.antt =====
-- internal/auth: the theorems on keys, tokens and the denylist at concrete inputs.
use whois_mcp.Prelude.{◌≡◌, refl, false, some, [], ◌∷◌, Text, codes, ok, is_ok, arith}
use whois_mcp.Auth.Keyring.{KeyPair, Keyring}
use whois_mcp.Auth.Token.{Issuer, Claims, mint, verify}
use whois_mcp.Auth.Token.Accepted.{SignedBy, InForce, verify_accepted}
use whois_mcp.Auth.Token.Minted.{verify-mint}
use whois_mcp.Auth.Denylist.{checks, run, add, new_denylist, verify_token}
use whois_mcp.Auth.Denylist.Window.{verify_token_revoked}
use whois_mcp.Auth.Tests.Codec.{codec, codec-IsCodec, codec-IsIssuer}

abbrev first : KeyPair
first = record { id = codes "k1"; public = codes "P1"; private = codes "P1" }

abbrev next : KeyPair
next = record { id = codes "k2"; public = codes "P2"; private = codes "P2" }

abbrev ring : Keyring
ring = record { active = first; previous = [] }

abbrev issuer : Issuer
issuer = record { keys = ring; issuer = codes "https://auth"; audience = codes "https://mcp" }

abbrev minted : Text × Claims
minted = mint codec issuer (codes "s1") (codes "laptop") (codes "whois:read" ∷ []) (codes "j1") 7

verify-mint_example : verify codec issuer minted.0 8 ≡ ok minted.1
verify-mint_example =
    verify-mint codec codec-IsCodec issuer (codec-IsIssuer issuer refl) (codes "s1")
      (codes "laptop") (codes "whois:read" ∷ []) (codes "j1") 7 8 ((λ e. cc e), refl)

verify_accepted_example : SignedBy codec issuer minted.0 minted.1 × InForce issuer 8 minted.1
verify_accepted_example = verify_accepted codec issuer 8 minted.0 minted.1 verify-mint_example

verify_token_revoked_example :
    is_ok
      (verify_token codec issuer
        (some (run (add new_denylist (codes "s1") 9) (checks (codes "s1") 10 ∷ [])))
        minted.0
        11).1
    ≡ false
unfolding new_denylist
verify_token_revoked_example =
    verify_token_revoked codec codec-IsCodec issuer (codec-IsIssuer issuer refl) new_denylist
      (codes "s1") (codes "laptop") (codes "whois:read" ∷ []) (codes "j1") 7 9 11
      (checks (codes "s1") 10 ∷ []) refl ((λ e. cc e), refl) (omega arith)
      ((omega arith, omega arith), tt)
