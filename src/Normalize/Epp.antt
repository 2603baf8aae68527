-- ===== src/Normalize/Epp.antt =====
-- internal/normalize/epp.go: the meanings of status codes, in both spellings.
use Prim.Native.String.{String}
use whois_mcp.Prelude.{
  ℕ, ◌+◌, Bool, ◌&&◌, ◌||◌, none, some, List, [], ◌∷◌, Text, Dict, lookup, insert, codes,
  lower_byte, leb, ◌==◌, if◌then◌else◌, ◌≡◌, refl, arith,
}

abbrev epp_status_meaning : List (String × String)
epp_status_meaning =
    ("ok", "Standard status: the domain is active with no pending operations or restrictions")
    ∷ ("active", "The domain is active")
    ∷ ("inactive", "The domain has no nameservers delegated and will not resolve")
    ∷ (
      "clientHold",
      "Registrar has asked the registry to not activate the domain in DNS; it will not resolve",
    )
    ∷ ("serverHold", "Registry is not activating the domain in DNS; it will not resolve")
    ∷ ("clientDeleteProhibited", "Registrar has locked the domain against deletion")
    ∷ ("serverDeleteProhibited", "Registry has locked the domain against deletion")
    ∷ ("clientRenewProhibited", "Registrar has locked the domain against renewal")
    ∷ ("serverRenewProhibited", "Registry has locked the domain against renewal")
    ∷ (
      "clientTransferProhibited",
      "Registrar has locked the domain against transfer to another registrar (a normal anti-hijacking default, not a problem)",
    )
    ∷ ("serverTransferProhibited", "Registry has locked the domain against transfer")
    ∷ ("clientUpdateProhibited", "Registrar has locked the domain against updates")
    ∷ ("serverUpdateProhibited", "Registry has locked the domain against updates")
    ∷ ("pendingCreate", "A create request is pending at the registry")
    ∷ (
      "pendingDelete",
      "The domain is scheduled for deletion; it may be in redemption or the pending-delete window",
    )
    ∷ ("pendingRenew", "A renewal request is pending")
    ∷ ("pendingRestore", "A restore request from redemption is pending")
    ∷ ("pendingTransfer", "A transfer to another registrar is pending")
    ∷ ("pendingUpdate", "An update request is pending")
    ∷ (
      "redemption period",
      "The domain has been deleted and is in the redemption grace period; the previous registrant may still restore it",
    )
    ∷ ("renew period", "The domain is within the grace period following a renewal")
    ∷ ("transfer period", "The domain is within the grace period following a transfer")
    ∷ ("add period", "The domain is within the grace period following initial registration")
    ∷ ("auto renew period", "The domain is within the grace period following an automatic renewal")
    ∷ ("associated", "The object is associated with another object")
    ∷ ("validated", "The registrant's contact details have been validated")
    ∷ []

abbrev is_joint : ℕ → Bool
is_joint c = c == b' ' || c == b'_' || c == b'-'

-- Lower case, without spaces, underscores and dashes.
unfoldable pub status_key : Text → Text
unfolding lower_byte
status_key [] = []
status_key (c ∷ s) = let rest = status_key s in if is_joint c then rest else lower_byte c ∷ rest

unfoldable pub keyed : List (String × String) → Dict Text
unfolding status_key
keyed [] = []
keyed ((code, meaning) ∷ rows) = (status_key (codes code), codes meaning) ∷ keyed rows

unfoldable pub normalized_status_meaning : Dict Text
unfolding keyed
normalized_status_meaning = keyed epp_status_meaning

unfoldable pub meanings_from : Dict Text → List Text → Dict Text
unfolding normalized_status_meaning status_key lookup insert
meanings_from out [] = out
meanings_from out (s ∷ ss) =
    meanings_from
      (elim (lookup (status_key s) normalized_status_meaning) [
        | none ↦ out
        | some m ↦ insert s m out
      ])
      ss

unfoldable pub status_meanings : List Text → Dict Text
unfolding meanings_from
status_meanings = meanings_from []

-- The spelling of RDAP for one of EPP: a space before a capital, and lower case.
abbrev spaced : Text → Text
spaced [] = []
spaced (c ∷ s) =
    let rest = spaced s in if leb b'A' c && leb c b'Z' then b' ' ∷ (c + 32) ∷ rest else c ∷ rest

-- Both spellings of a status have one key.
pub status_key-spaced : (s : Text) → status_key (spaced s) ≡ status_key s
unfolding status_key lower_byte
status_key-spaced [] = refl
status_key-spaced (c ∷ s) = ground (arith, status_key-spaced s)
