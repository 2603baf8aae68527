-- ===== src/Rdap/Client.antt =====
-- internal/rdapx/client.go: the query of a registry's base URLs in turn, and the referral to the
-- registrar. openrdap and net/url are parameters: a base URL parses or not, an exchange under the
-- guard has its own state, and a referral is fetched. An error carries its text.
pub mod Answers
pub mod Referral
mod Tests
use whois_mcp.Prelude.{
  ℕ, Bool, true, false, not, ◌&&◌, Option, none, some, List, [], ◌∷◌, ◌++◌, Text, codes, is_empty,
  equal_fold, to_lower, trim_space, contains, take, length, leb, Result, ok, err, if◌then◌else◌,
}
use whois_mcp.Normalize.Report.{Tristate, affirmed, denied, undecided, Query}
use whois_mcp.Normalize.FromRdap.Decoded.{Link, RdapDomain}
use whois_mcp.Rdap.Registry.{Registry, bases_for}

pub record RdapResult : Type 0 where
  pub domain : Option RdapDomain
  pub raw : Text
  pub servers : List Text
  pub registered : Tristate
  pub warnings : List Text

-- What an exchange ends with. `bootstrap_refused` stands for BootstrapNoMatch and
-- BootstrapNotSupported, `stopped` for another failure once the context is done.
pub data Answer : Type 0 where
  domain_object : RdapDomain → Answer
  other_object object_does_not_exist bootstrap_refused failed stopped : Text → Answer

-- The body and the URL of the last HTTP response, where there are such.
pub record Reply : Type 0 where
  pub body : Option Text
  pub url : Text
  pub answer : Answer

-- Refused by the rate limit or the circuit breaker, or sent.
pub data Exchange : Type 0 where
  rejected : Text → Exchange
  replied : Reply → Exchange

pub data QueryError : Type 0 where
  no_rdap_service cancelled : QueryError

-- `lastErr`: whether it is ErrNoRDAPService.
pub data LastError : Type 0 where
  no_error no_service other_error : LastError

unfoldable pub truncate : Text → ℕ → Text
truncate s n = if leb (length s) n then s else take n s ++ (226 ∷ 128 ∷ 166 ∷ [])

abbrev pub warn : RdapResult → Text → RdapResult
warn res w = record res { warnings = res.warnings ++ w ∷ [] }

abbrev pub ask_server : RdapResult → Text → RdapResult
ask_server res base = record res { servers = res.servers ++ base ∷ [] }

abbrev set_last : Text → List Text → List Text
set_last url [] = []
set_last url (s ∷ []) = url ∷ []
set_last url (s ∷ t ∷ ss) = s ∷ set_last url (t ∷ ss)

abbrev body_or : Option Text → Text → Text
body_or none raw = raw
body_or (some b) raw = b

-- The raw body and the actual URL, whatever the outcome.
unfoldable pub capture : Reply → RdapResult → RdapResult
capture reply res = record res {
  raw = body_or reply.body res.raw;
  servers = if is_empty reply.url then res.servers else set_last reply.url res.servers;
}

-- The first link of the relation and the media type that has an address.
unfoldable pub rdap_link : List Link → Text
unfolding equal_fold trim_space contains to_lower
rdap_link [] = []
rdap_link (l ∷ ls) =
    if not (equal_fold (trim_space l.rel) (codes "related"))
    then rdap_link ls
    else if not (contains (codes "rdap+json") (to_lower l.kind))
    then rdap_link ls
    else if is_empty (trim_space l.href)
    then rdap_link ls
    else trim_space l.href

abbrev pub registrar_link : Option RdapDomain → Text
registrar_link none = []
registrar_link (some d) = rdap_link d.links

pub record Url : Type 0 where
  pub scheme : Text
  pub host : Text
  pub text : Text
  pub redacted : Text

-- The answer to a referral: an error, another object, or a domain.
pub data Referred : Type 0 where
  unreachable : Text → Referred
  no_domain : Referred
  domain_record : RdapDomain → Referred

abbrev pub or_list {ℓ} : {A : Type ℓ} → List A → List A → List A
or_list [] ys = ys
or_list (x ∷ xs) ys = x ∷ xs

abbrev pub or_option {ℓ} : {A : Type ℓ} → Option A → Option A → Option A
or_option none o = o
or_option (some a) o = some a

-- The registrar's record fills what the registry's leaves out; of the entities the longer list counts.
unfoldable pub merge_domain : RdapDomain → RdapDomain → RdapDomain
merge_domain registry registrar = record registry {
  entities =
      if leb (length registrar.entities) (length registry.entities)
      then registry.entities
      else registrar.entities;
  nameservers = or_list registry.nameservers registrar.nameservers;
  events = or_list registry.events registrar.events;
  status = or_list registry.status registrar.status;
  secure_dns = or_option registry.secure_dns registrar.secure_dns;
}

abbrev pub merged : Option RdapDomain → RdapDomain → Option RdapDomain
merged none registrar = none
merged (some registry) registrar = some (merge_domain registry registrar)

module _ (parse_url : Text → Option Url) (fetch : Text → Referred) where
  unfoldable pub take_referral : Url → Referred → RdapResult → RdapResult
  unfolding truncate merge_domain
  take_referral u (unreachable e) res = warn res (
      codes "registrar referral to "
      ++ (u.host
          ++ (codes " failed (" ++ (truncate e 160 ++ codes "); reporting registry data only"))))
  take_referral u no_domain res = warn res (
      codes "registrar referral to "
      ++ (u.host ++ codes " did not return a domain object; reporting registry data only"))
  take_referral u (domain_record d) res = record res {
    servers = res.servers ++ u.text ∷ [];
    domain = merged res.domain d;
  }

  -- `followRegistrarHop`, for the link that it finds.
  unfoldable pub follow_link : Text → RdapResult → RdapResult
  unfolding truncate equal_fold take_referral
  follow_link href res = if is_empty href then res else elim (parse_url href) [
    | none ↦ warn res (codes "registrar referral URL is unparseable: " ++ truncate href 120)
    | some u ↦
        if not (equal_fold u.scheme (codes "https"))
        then warn res (codes "refusing non-https registrar referral to " ++ u.redacted)
        else take_referral u (fetch u.text) res
  ]

  unfoldable pub follow_registrar_hop : RdapResult → RdapResult
  unfolding follow_link rdap_link
  follow_registrar_hop res = follow_link (registrar_link res.domain) res

-- What a round of the loop leads to: an answer, an early error, or the next base URL.
pub data Round : Type 0 where
  answered : RdapResult → Round
  stops : Round
  goes_on : RdapResult → LastError → Round

unfoldable pub take_answer : Answer → RdapResult → Round
unfolding truncate
take_answer (domain_object d) res = answered (record res { domain = some d; registered = affirmed })
take_answer (other_object w) res = goes_on (warn res w) other_error
take_answer (object_does_not_exist w) res = answered (record res { registered = denied })
take_answer (bootstrap_refused w) res = goes_on (warn res w) no_service
take_answer (failed w) res = goes_on (warn res (truncate w 300)) other_error
take_answer (stopped w) res = stops

unfoldable pub take_exchange : Text → Exchange → RdapResult → Round
unfolding truncate capture take_answer
take_exchange base (rejected w) res =
    goes_on (warn (ask_server res base) (truncate w 200)) other_error
take_exchange base (replied reply) res =
    take_answer reply.answer (capture reply (ask_server res base))

abbrev not_determined : Text
not_determined = codes "registration status could not be determined from RDAP; treat as unknown"

-- Every base URL was tried and none gave an answer.
abbrev pub exhausted : LastError → RdapResult → Result QueryError RdapResult
exhausted no_error res = ok (record res { registered = undecided })
exhausted no_service res = err no_rdap_service
exhausted other_error res = ok (warn (record res { registered = undecided }) not_determined)

module _ {G : Type 0} (is_url : Text → Bool) (ask : Text → G → G × Exchange) where
  unfoldable pub query_bases :
      List Text → RdapResult → LastError → G → G × Result QueryError RdapResult
  unfolding take_exchange
  query_bases [] res last g = (g, exhausted last res)
  query_bases (base ∷ bases) res last g =
      let (g', exchange) = ask base g in
      if not (is_url base)
      then query_bases bases res other_error g
      else elim (take_exchange base exchange res) [
        | answered r ↦ (g', ok r)
        | stops ↦ (g', err cancelled)
        | goes_on r e ↦ query_bases bases r e g'
      ]

abbrev pub no_answer : RdapResult
no_answer = record { domain = none; raw = []; servers = []; registered = undecided; warnings = [] }

abbrev pub hop_if :
    Bool → (RdapResult → RdapResult) → Result QueryError RdapResult → Result QueryError RdapResult
hop_if follow hop (err e) = err e
hop_if follow hop (ok res) = elim res.registered [
  | affirmed ↦ if follow then ok (hop res) else ok res
  | denied ↦ ok res
  | undecided ↦ ok res
]

-- `QueryWithOptions`: `follow` is the client's option.
module _ {G : Type 0} (is_url : Text → Bool) (ask : Text → Text → G → G × Exchange)
    (parse_url : Text → Option Url) (fetch : Text → Referred) where
  unfoldable pub query_with_options :
      Registry → Bool → Query → Bool → G → G × Result QueryError RdapResult
  unfolding query_bases follow_registrar_hop bases_for
  query_with_options reg follow q skip g = elim (bases_for reg q.tld) [
    | none ↦ (g, err no_rdap_service)
    | some bases ↦
        let (g', r) = query_bases is_url (ask q.ascii) bases no_answer no_error g in
        (g', hop_if (follow && not skip) (follow_registrar_hop parse_url fetch) r)
  ]
