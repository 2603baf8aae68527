-- ===== src/Whois/Parsers/Tests.antt =====
-- Runs of the parsers on concrete responses, and the theorems at concrete inputs.
use whois_mcp.Prelude.{
  ℕ, true, false, Option, none, some, List, [], ◌∷◌, Text, codes, to_lower, holds, lookup, ◌≡◌,
  refl, ◌⊎◌, text_eq,
}
use whois_mcp.Whois.Parsers.Labels.{
  multi_valued, f_status, f_registrar, f_registrant_name, f_registrant_phone,
}
use whois_mcp.Whois.Parsers.Templates.{no_template, template_for}
use whois_mcp.Whois.Parsers.Classify.{
  unregistered, classify, contains_any, lower_all, not_found_signatures, registered_signals,
  rate_limit_signatures, by_template, classify_body,
}
use whois_mcp.Whois.Parsers.Classify.Safe.{Says, absent_phrases, classify-unregistered}
use whois_mcp.Whois.Parsers.Fields.{Fields, Collected, read_lines}
use whois_mcp.Whois.Parsers.Fields.Kept.{ProperIn, read_lines-first}
use whois_mcp.Whois.Parsers.Contacts.{Contact, value_at, contact, redaction_marker, first}
use whois_mcp.Whois.Parsers.Report.{score, parse}
use whois_mcp.Whois.Parsers.Report.Scores.{parse-Proper}

abbrev verisign : Text
verisign = codes "whois.verisign-grs.com:43"

abbrev free_answer : Text
free_answer = codes "No match for \"EXAMPLE.COM\"."

classify_free : classify verisign free_answer ≡ unregistered
unfolding classify classify_body rate_limit_signatures by_template text_eq
classify_free = refl

classify-unregistered_example :
    (¬ Says (to_lower free_answer) rate_limit_signatures)
    × (Says (to_lower free_answer) (absent_phrases (template_for verisign))
        ⊎ (Says (to_lower free_answer) not_found_signatures
            × (¬ Says (to_lower free_answer) registered_signals)))
classify-unregistered_example = classify-unregistered verisign free_answer classify_free

-- A registered domain, and a sentence that says it cannot be had.
abbrev taken_answer : Text
taken_answer = codes "Domain Name: example.co.za\nRegistrar: Acme\nThis name is not available."

abbrev coza : Text
coza = codes "whois.registry.co.za"

classify_taken : classify coza taken_answer ≡ unregistered
unfolding classify classify_body rate_limit_signatures by_template template_for contains_any
    lower_all to_lower text_eq
classify_taken = refl

-- A second registrar, and a later status in capitals.
abbrev some_lines : List Text
some_lines =
    codes "Registrar: Acme" ∷ codes "Registrar:" ∷ codes "   Other Inc" ∷ codes "Status: ok" ∷ []

abbrev acme : Collected
acme = record { fields = (f_registrar, codes "Acme" ∷ []) ∷ []; unknown_labels = [] }

lookup_acme : lookup f_registrar acme.fields ≡ some (codes "Acme" ∷ [])
unfolding lookup text_eq
lookup_acme = refl

registrar_is_single : holds f_registrar multi_valued ≡ false
unfolding holds
registrar_is_single = refl

read_lines-first_example :
    lookup f_registrar (read_lines no_template 0 some_lines acme).fields ≡ some (codes "Acme" ∷ [])
read_lines-first_example =
    read_lines-first no_template 0 some_lines acme f_registrar (codes "Acme" ∷ [])
      registrar_is_single lookup_acme

abbrev no_time : Text → Text → Option ℕ
no_time layout s = none

parse-Proper_example :
    ProperIn f_status
      (lookup f_status (parse no_time verisign (codes "Status: ok\nstatus: OK")).fields)
parse-Proper_example = parse-Proper no_time verisign (codes "Status: ok\nstatus: OK") f_status

-- One core field of six, without and with a template.
scores : (score false acme ≡ 14) × (score true acme ≡ 25)
unfolding score text_eq
scores = (refl, refl)

abbrev private_fields : Fields
private_fields =
    (f_registrant_name, codes "Ann" ∷ [])
    ∷ (f_registrant_phone, codes "REDACTED FOR PRIVACY" ∷ [])
    ∷ []

abbrev private_contact : Contact
private_contact = record {
  role = codes "registrant";
  redacted = false;
  reason = [];
  name = codes "Ann";
  organization = [];
  email = [];
  phone = codes "REDACTED FOR PRIVACY";
  country = [];
}

contact_of_private :
    contact private_fields (codes "registrant") f_registrant_name [] [] f_registrant_phone []
    ≡ some private_contact
unfolding contact text_eq
contact_of_private = refl

phone_is_marked :
    redaction_marker (value_at private_fields f_registrant_phone)
    ≡ some (codes "redacted for privacy")
unfolding redaction_marker first text_eq
phone_is_marked = refl
