-- ===== src/Auth/Session/Listing.antt =====
-- internal/auth/session.go: `List`. The order that Go leaves open, of the map and of sessions of one
-- time, is that of the dictionary.
use mathlib.Core.List.{map}
use whois_mcp.Prelude.{List, [], ◌∷◌, Text, ltb, if◌then◌else◌}
use whois_mcp.Auth.Session.{Session, MemoryStore}

-- sort.Slice by the time of creation, the latest first.
unfoldable pub insert_newest : Session → List Session → List Session
insert_newest s [] = s ∷ []
insert_newest s (t ∷ ts) =
    let later = t ∷ insert_newest s ts in
    if ltb s.created_at t.created_at then later else s ∷ t ∷ ts

unfoldable pub newest_first : List Session → List Session
unfolding insert_newest
newest_first [] = []
newest_first (s ∷ ss) = insert_newest s (newest_first ss)

unfoldable pub list : MemoryStore → List Session
unfolding newest_first
list m = newest_first (map (λ (e : Text × Session). e.1) m.sessions)
