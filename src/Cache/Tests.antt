-- ===== src/Cache/Tests.antt =====
-- internal/cache/cache.go: the theorems at concrete inputs.
use whois_mcp.Prelude.{ℕ, ◌≡◌, some, List, [], ◌∷◌, codes, text_eq, arith}
use whois_mcp.Cache.{get}
use whois_mcp.Cache.Lookup.{Call, gets, sets, sweeps, run, get-run}

abbrev calls : List (Call ℕ)
calls = sets (codes "a") 7 5 1 ∷ sets (codes "b") 8 2 1 ∷ gets (codes "b") 4 ∷ sweeps 4 ∷ []

get-run_example : (get (run [] calls) (codes "a") 5).1 ≡ some 7
unfolding text_eq
get-run_example =
    get-run (codes "a") calls 5
      (omega arith, (omega arith, (omega arith, (omega arith, omega arith))))
