-- ===== src/Normalize/Tests.antt =====
-- Runs of the reports on concrete objects, and the theorems at concrete inputs.
use whois_mcp.Prelude.{ℕ, true, Option, none, some, [], ◌∷◌, Text, codes, All, ◌≡◌, refl, text_eq}
use whois_mcp.Normalize.Report.{affirmed, Query}
use whois_mcp.Normalize.Epp.{status_meanings}
use whois_mcp.Normalize.FromWhois.{from_whois}
use whois_mcp.Normalize.FromWhois.Withheld.{NoMarker, from_whois-NoMarker}
use whois_mcp.Normalize.FromRdap.Decoded.{Vcard, RdapEntity}
use whois_mcp.Normalize.FromRdap.Entities.{detect_redaction, plain_entity, entities_from}
use whois_mcp.Normalize.FromRdap.Redacted.{Discreet, entities_from-Discreet}
use whois_mcp.Whois.Parsers.Report.{parse}

abbrev example : Query
example = record {
  input = codes "Example.com";
  registrable_domain = codes "example.com";
  ascii = codes "example.com";
  tld = codes "com";
  public_suffix = codes "com";
}

abbrev no_time : Text → Text → Option ℕ
no_time layout s = none

abbrev verisign : Text
verisign = codes "whois.verisign-grs.com"

abbrev redacted_answer : Text
redacted_answer = codes "Registrar: Acme\nRegistrant Name: REDACTED FOR PRIVACY\n"

from_whois-NoMarker_example :
    All NoMarker
      (from_whois example
        (some (parse no_time verisign redacted_answer))
        affirmed
        (verisign ∷ [])
        7
        (codes "miss")
        true).entities
from_whois-NoMarker_example =
    from_whois-NoMarker no_time verisign redacted_answer example affirmed (verisign ∷ []) 7
      (codes "miss") true

abbrev withheld_card : Vcard
withheld_card = record {
  name = codes "REDACTED FOR PRIVACY";
  org = [];
  email = [];
  tel = codes "+1.555";
  country = codes "US";
}

abbrev withheld_registrar : RdapEntity
withheld_registrar = record {
  roles = codes "registrar" ∷ [];
  vcard = some withheld_card;
  remarks = [];
  public_ids = [];
  entities = [];
  links = [];
}

is_withheld :
    detect_redaction (plain_entity (codes "registrar") (some withheld_card)) []
    ≡ some (codes "withheld by the registry")
unfolding detect_redaction
is_withheld = refl

entities_from-Discreet_example : All Discreet (entities_from (withheld_registrar ∷ [])).0
entities_from-Discreet_example = entities_from-Discreet (withheld_registrar ∷ [])

abbrev hold : Text
hold =
    codes "Registrar has asked the registry to not activate the domain in DNS; it will not resolve"

both_spellings :
    (status_meanings (codes "clientHold" ∷ []) ≡ (codes "clientHold", hold) ∷ [])
    × (status_meanings (codes "client hold" ∷ []) ≡ (codes "client hold", hold) ∷ [])
unfolding status_meanings text_eq
both_spellings = (refl, refl)
