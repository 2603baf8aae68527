-- ===== src/Whois/Quirks.antt =====
-- internal/whois/quirks.go: how a registry deviates from being sent the bare domain. The Why of an
-- entry, which no code reads, is left out.
use whois_mcp.Prelude.{
  Bool, true, false, not, Option, none, some, List, [], ◌∷◌, ◌++◌, map, Text, codes, Dict, lookup,
  to_lower, trim_space, cut_prefix, cut,
}

pub record Quirk : Type 0 where
  pub query_format : Text
  pub host : Text
  pub no_referral : Bool

-- What the map gives for a TLD that it lacks.
abbrev no_quirk : Quirk
no_quirk = record { query_format = []; host = []; no_referral = false }

abbrev sends : Text → Quirk
sends format = record { query_format = format; host = []; no_referral = false }

abbrev stays : Quirk
stays = record { query_format = []; host = []; no_referral = true }

unfoldable pub quirks : Dict Quirk
quirks =
    (codes "de", sends (codes "-T dn,ace %s"))
    ∷ (codes "jp", sends (codes "%s/e"))
    ∷ (codes "com", sends (codes "domain %s"))
    ∷ (codes "net", sends (codes "domain %s"))
    ∷ (codes "fr", sends (codes "%s"))
    ∷ (codes "dk", sends (codes "--show-handles %s"))
    ∷ (codes "nl", stays)
    ∷ (codes "kr", sends (codes "%s"))
    ∷ (codes "br", stays)
    ∷ (codes "au", stays)
    ∷ (codes "eu", stays)
    ∷ (codes "ru", stays)
    ∷ (codes "ch", sends (codes "%s"))
    ∷ (codes "it", stays)
    ∷ []

unfoldable pub normalize_tld : Text → Text
unfolding cut_prefix trim_space to_lower
normalize_tld tld = elim (cut_prefix (codes ".") tld) [
  | some rest ↦ to_lower (trim_space rest)
  | none ↦ to_lower (trim_space tld)
]

unfoldable pub quirk_for : Text → Option Quirk
unfolding lookup quirks normalize_tld
quirk_for tld = lookup (normalize_tld tld) quirks

abbrev quirk_of : Option Quirk → Quirk
quirk_of none = no_quirk
quirk_of (some q) = q

-- strings.Replace of one occurrence.
unfoldable pub replace_first : Text → Text → Text → Text
unfolding cut
replace_first old new s = elim (cut old s) [ none ↦ s | some (a, b) ↦ a ++ (new ++ b) ]

abbrev rendered : Text → Text → Text
rendered [] domain = domain
rendered (c ∷ format) domain = replace_first (codes "%s") domain (c ∷ format)

unfoldable pub query_for : Text → Text → Text
unfolding replace_first quirk_for
query_for tld domain = rendered (quirk_of (quirk_for tld)).query_format domain

unfoldable pub host_for : Text → Text
unfolding quirk_for
host_for tld = (quirk_of (quirk_for tld)).host

unfoldable pub referrals_allowed : Text → Bool
unfolding quirk_for
referrals_allowed tld = not (quirk_of (quirk_for tld)).no_referral

-- Go gives the keys in any order.
unfoldable pub quirk_tlds : List Text
unfolding quirks
quirk_tlds = map (λ (e : Text × Quirk). e.0) quirks
