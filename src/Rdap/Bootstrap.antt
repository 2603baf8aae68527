-- ===== src/Rdap/Bootstrap.antt =====
-- internal/rdapx/bootstrap.go: a bootstrap document, and the base URLs that are kept of it.
use whois_mcp.Prelude.{
  ℕ, Bool, false, List, [], ◌∷◌, ◌++◌, Text, codes, to_lower, trim_space, has_prefix, ◌==◌,
  if◌then◌else◌,
}

pub record Document : Type 0 where
  pub publication : ℕ
  pub services : List (List (List Text))

unfoldable pub ends_with_slash : Text → Bool
ends_with_slash [] = false
ends_with_slash (c ∷ []) = c == b'/'
ends_with_slash (c ∷ d ∷ s) = ends_with_slash (d ∷ s)

abbrev with_slash : Text → Text
with_slash u = if ends_with_slash u then u else u ++ b'/' ∷ []

unfoldable pub prefer_https : List Text → List Text
unfolding has_prefix to_lower trim_space ends_with_slash
prefer_https [] = []
prefer_https (u ∷ us) =
    let rest = prefer_https us in
    if has_prefix (codes "https://") (to_lower (trim_space u))
    then with_slash (trim_space u) ∷ rest
    else rest
