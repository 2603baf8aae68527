-- ===== src/Auth/Scopes.antt =====
-- internal/auth: scope lists (NormalizeScopes of session.go, AllScopes of verifier.go, knownScope of
-- oauthsrv.go) and resource indicators (sameResource of oauthsrv.go).
use whois_mcp.Prelude.{
  holds, Bool, true, false, ◌||◌, List, [], ◌∷◌, Text, codes, is_empty, text_eq, ltb, ◌==◌,
  if◌then◌else◌, to_lower, trim_space, trim_right,
}

abbrev pub whois_read : Text
whois_read = codes "whois:read"

abbrev pub whois_raw : Text
whois_raw = codes "whois:raw"

abbrev pub admin_scope : Text
admin_scope = codes "whois:admin"

abbrev pub all_scopes : List Text
all_scopes = whois_read ∷ whois_raw ∷ admin_scope ∷ []

abbrev pub minimum_scopes : List Text
minimum_scopes = whois_read ∷ []

unfoldable pub known_scope : Text → Bool
unfolding holds
known_scope s = holds s all_scopes

-- Byte order of strings.
unfoldable pub text_leb : Text → Text → Bool
text_leb [] t = true
text_leb (a ∷ s) [] = false
text_leb (a ∷ s) (b ∷ t) =
    let rest = text_leb s t in if ltb a b then true else if a == b then rest else false

unfoldable pub insert_scope : Text → List Text → List Text
unfolding text_leb
insert_scope v [] = v ∷ []
insert_scope v (w ∷ ws) =
    let rest = w ∷ insert_scope v ws in if text_leb v w then v ∷ w ∷ ws else rest

unfoldable pub sort_scopes : List Text → List Text
unfolding insert_scope
sort_scopes [] = []
sort_scopes (v ∷ vs) = insert_scope v (sort_scopes vs)

-- The loop of `NormalizeScopes`, with the values that were seen.
unfoldable pub distinct_from : List Text → List Text → List Text
unfolding holds
distinct_from seen [] = []
distinct_from seen (s ∷ ss) =
    let v = to_lower (trim_space s) in
    let skip = distinct_from seen ss in
    let keep = v ∷ distinct_from (v ∷ seen) ss in if is_empty v || holds v seen then skip else keep

unfoldable pub normalize_scopes : List Text → List Text
unfolding sort_scopes distinct_from
normalize_scopes scopes = sort_scopes (distinct_from [] scopes)

unfoldable pub same_resource : Text → Text → Bool
unfolding trim_right
same_resource a b = text_eq (trim_right b'/' a) (trim_right b'/' b)
