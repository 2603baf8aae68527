-- ===== src/Whois/Parsers/Classify.antt =====
-- internal/whois/parsers/notfound.go: whether a WHOIS response says that a domain is registered.
pub mod Safe
use whois_mcp.Prelude.{
  Bool, true, false, not, ◌&&◌, ◌||◌, Option, none, some, List, [], ◌∷◌, map, Text, codes, is_empty,
  to_lower, contains, if◌then◌else◌,
}
use whois_mcp.Whois.Parsers.Templates.{Template, template_for}

pub data Availability : Type 0 where
  registered unregistered unknown : Availability

unfoldable pub not_found_signatures : List Text
not_found_signatures = map codes (
    "no match for" ∷ "no match" ∷ "not found" ∷ "no entries found" ∷ "no data found"
    ∷ "no object found" ∷ "nothing found" ∷ "domain not found" ∷ "domain is available" ∷ "is free"
    ∷ "status: free" ∷ "status: available" ∷ "status:             free" ∷ "object does not exist"
    ∷ "no such domain" ∷ "not registered" ∷ "no information available about" ∷ "domain unknown"
    ∷ "this domain name has not been registered" ∷ "the queried object does not exist"
    ∷ "available for registration" ∷ "free for registration" ∷ "no matching record"
    ∷ "we do not have an entry" ∷ "%% no entries found" ∷ [])

unfoldable pub registered_signals : List Text
registered_signals = map codes (
    "registry expiry date" ∷ "expiry date" ∷ "expiration date" ∷ "creation date" ∷ "registered on"
    ∷ "registrar:" ∷ "sponsoring registrar" ∷ "name server" ∷ "nserver" ∷ "nameserver"
    ∷ "domain status" ∷ "registrant" ∷ "paid-till" ∷ "changed:" ∷ [])

unfoldable pub rate_limit_signatures : List Text
rate_limit_signatures = map codes (
    "rate limit" ∷ "rate-limit" ∷ "limit exceeded" ∷ "too many requests" ∷ "query limit"
    ∷ "exceeded the maximum" ∷ "try again later" ∷ "access denied" ∷ "connection refused by"
    ∷ "blocked" ∷ "quota exceeded" ∷ "excessive querying" ∷ [])

unfoldable pub contains_any : Text → List Text → Bool
unfolding contains
contains_any haystack [] = false
contains_any haystack (n ∷ ns) =
    (not (is_empty n) && contains n haystack) || contains_any haystack ns

-- `lower`.
unfoldable pub lower_all : List Text → List Text
unfolding to_lower
lower_all = map to_lower

abbrev has_none : List Text → Bool
has_none [] = true
has_none (_ ∷ _) = false

-- What the host's own phrases say, if the host has a template.
unfoldable pub by_template : Text → Option Template → Option Availability
unfolding contains_any lower_all
by_template body none = none
by_template body (some tpl) =
    if contains_any body (lower_all tpl.not_found)
    then some unregistered
    else if not (has_none tpl.not_found) && contains_any body (lower_all tpl.registered)
    then some registered
    else none

-- What the phrases that all registries use say.
unfoldable pub by_signals : Text → Availability
unfolding contains_any
by_signals body =
    let has_record = contains_any body registered_signals in
    let has_negative = contains_any body not_found_signatures in
    if has_record && not has_negative
    then registered
    else if has_negative && not has_record
    then unregistered
    else unknown

unfoldable pub classify_body : Option Template → Text → Availability
unfolding contains_any
classify_body tpl body =
    if contains_any body rate_limit_signatures
    then unknown
    else elim (by_template body tpl) [ some a ↦ a | none ↦ by_signals body ]

unfoldable pub classify : Text → Text → Availability
unfolding to_lower template_for
classify host raw =
    if is_empty raw then unknown else classify_body (template_for host) (to_lower raw)
