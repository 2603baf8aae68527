-- ===== src/Normalize/FromWhois/Withheld.antt =====
-- internal/normalize/fromwhois.go on what Parse of internal/whois/parsers/parse.go reads: withheld
-- values.
use whois_mcp.Prelude.{
  ℕ, Bool, true, false, split_on, Option, none, some, Option-cases, List, [], ◌∷◌, Text, codes, All,
  ◌≡◌, inl, inr,
}
use whois_mcp.Whois.Parsers.Labels.{
  f_registrant_name, f_registrant_org, f_registrant_email, f_registrant_phone, f_registrant_country,
  f_admin_name, f_admin_email, f_tech_name, f_tech_email,
}
use whois_mcp.Whois.Parsers.Templates.{Template, no_template, template_for, normalize_host_key}
use whois_mcp.Whois.Parsers.Fields.{Collected, read_lines, no_lines}
use whois_mcp.Whois.Parsers.Contacts.{Contact, redaction_marker}
use whois_mcp.Whois.Parsers.Contacts.Withheld.{UnmarkedIn, contact-UnmarkedIn}
use whois_mcp.Whois.Parsers.Report.{score, promote, parse}
use whois_mcp.Normalize.Report.{Tristate, Query, Entity}
use whois_mcp.Normalize.FromWhois.{entities_of, from_whois}

-- What an entity says of the person is no marker of a withheld value.
abbrev pub NoMarker : Entity → Type 0
NoMarker e =
    (redaction_marker e.name ≡ none)
    × (redaction_marker e.organization ≡ none)
    × (redaction_marker e.email ≡ none)

-- One more contact in front.
entities_of-cons :
    (c : Option Contact) (cs : List (Option Contact))
    → UnmarkedIn c
    → All NoMarker (entities_of cs)
    → All NoMarker (entities_of (c ∷ cs))
unfolding entities_of
entities_of-cons none cs x h = h
entities_of-cons (some c) cs x h = (x, h)

module _ (parse_time : Text → Text → Option ℕ) where
  promote-NoMarker :
      (tpl : Template) (name : Text) (confidence : ℕ) (p : Collected)
      → let q = promote parse_time tpl name confidence p in
        All NoMarker (entities_of (q.registrant ∷ q.admin ∷ q.tech ∷ []))
  unfolding promote entities_of
  promote-NoMarker tpl name confidence p =
      entities_of-cons _ _
        (contact-UnmarkedIn p.fields (codes "registrant") f_registrant_name f_registrant_org
          f_registrant_email f_registrant_phone f_registrant_country)
        (entities_of-cons _ _
          (contact-UnmarkedIn p.fields (codes "administrative") f_admin_name [] f_admin_email [] [])
          (entities_of-cons _ []
            (contact-UnmarkedIn p.fields (codes "technical") f_tech_name [] f_tech_email [] []) tt))

  parse-NoMarker :
      (host raw : Text)
      → let q = parse parse_time host raw in
        All NoMarker (entities_of (q.registrant ∷ q.admin ∷ q.tech ∷ []))
  unfolding parse
  parse-NoMarker host [] = promote-NoMarker no_template (codes "heuristic") 0 no_lines
  parse-NoMarker host (c ∷ raw) = elim (Option-cases (template_for host)) [
    | inl e ↦
        let p = read_lines no_template 0 (split_on b'\n' (c ∷ raw)) no_lines in
        rw (e, parse) (promote-NoMarker no_template (codes "heuristic") (score false p) p)
    | inr (tpl, e) ↦
        let p = read_lines tpl 0 (split_on b'\n' (c ∷ raw)) no_lines in
        rw (e, parse) (promote-NoMarker tpl (normalize_host_key host) (score true p) p)
  ]

-- Whatever a WHOIS server answers, the report's entities name no person, no organization and no
-- email address that is a marker of a withheld value.
pub from_whois-NoMarker :
    (parse_time : Text → Text → Option ℕ) (host raw : Text) (q : Query) (registered : Tristate)
    (servers : List Text) (at : ℕ) (state : Text) (available : Bool)
    → All NoMarker
        (from_whois q
          (some (parse parse_time host raw))
          registered
          servers
          at
          state
          available).entities
unfolding from_whois
from_whois-NoMarker parse_time host raw q registered servers at state available =
    parse-NoMarker parse_time host raw
