-- ===== src/Auth/Tests/Codes.antt =====
-- internal/auth: the theorems on authorization codes and the enrollment secret at concrete inputs.
use whois_mcp.Prelude.{
  ◌+◌, ◌-◌, ◌≡◌, refl, ◌↔◌, some, List, [], ◌∷◌, Text, codes, lookup, text_eq, trim_space, ok, err,
  arith,
}
use whois_mcp.Auth.Code.{Code, CodeStore, consume}
use whois_mcp.Auth.Code.SingleUse.{Bound, consume_iff}
use whois_mcp.Auth.Enrollment.{
  Hashes, Enrollment, wrong_secret, locked_out, verify, lockout_for, matches_secret, state_of,
}
use whois_mcp.Auth.Enrollment.Lockout.{Attempt, run_attempts, verify-verify_locked}

abbrev verifier : Text
verifier = codes "0123456789012345678901234567890123456789abc"

abbrev grant : Code
grant = record {
  code = codes "c1";
  session_id = codes "s1";
  label = [];
  scopes = [];
  client_id = codes "app";
  redirect_uri = codes "https://app/cb";
  challenge = verifier;
  resource = [];
  issued_at = 1;
  expires_at = 9;
}

abbrev codes_out : CodeStore
codes_out = (codes "c1", grant) ∷ []

consume_iff_example :
    ((consume (λ v. v) codes_out (codes "c1") verifier (codes "https://app/cb") (codes "app") 3).1
      ≡ ok grant)
    ↔ ((lookup (codes "c1") codes_out ≡ some grant)
        × Bound (λ v. v) grant verifier (codes "https://app/cb") (codes "app") 3)
consume_iff_example =
    consume_iff (λ v. v) codes_out (codes "c1") verifier (codes "https://app/cb") (codes "app") 3
      grant

abbrev hashes : Hashes
hashes = record { id_key = λ secret salt. secret; hash_source = λ s. s }

abbrev enrollment : Enrollment
enrollment = record {
  salt = [];
  hash = codes "open";
  sources = (codes "ip", record { failures = 4; last_fail = 1; locked_thru = 0 }) ∷ [];
}

-- The right secret too early, another client's attempt, and one more guess.
abbrev tries : List Attempt
tries =
    record { source = codes "ip"; presented = codes "open"; at = 3 }
    ∷ record { source = codes "other"; presented = codes "shut"; at = 3 }
    ∷ record { source = codes "ip"; presented = codes "shut"; at = 4 }
    ∷ []

verify-verify_locked_example :
    ((verify hashes enrollment (codes "ip") (codes "shut") 2).1 ≡ err wrong_secret)
    × ((verify hashes
          (run_attempts hashes (verify hashes enrollment (codes "ip") (codes "shut") 2).0 tries)
          (codes "ip")
          (codes "open")
          5).1
        ≡ err (locked_out (2 + lockout_for 5 - 5)))
unfolding lookup text_eq state_of matches_secret lockout_for trim_space
verify-verify_locked_example =
    verify-verify_locked hashes enrollment (codes "ip") (codes "shut") (codes "open") 2 5 tries
      (omega arith, omega arith) (omega arith) refl
      ((omega arith, omega arith), ((omega arith, omega arith), ((omega arith, omega arith), tt)))
      (omega arith) (omega arith)
