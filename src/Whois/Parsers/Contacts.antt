-- ===== src/Whois/Parsers/Contacts.antt =====
-- internal/whois/parsers/parse.go: the contacts of a response, and what is withheld of them.
pub mod Withheld
use whois_mcp.Prelude.{
  Bool, true, false, ◌&&◌, Option, none, some, List, [], ◌∷◌, Text, is_empty, to_lower, to_upper,
  trim_space, contains, lookup, if◌then◌else◌,
}
use whois_mcp.Whois.Parsers.Labels.{redaction_markers}
use whois_mcp.Whois.Parsers.Fields.{Fields, values_of}

pub record Contact : Type 0 where
  pub role : Text
  pub redacted : Bool
  pub reason : Text
  pub name : Text
  pub organization : Text
  pub email : Text
  pub phone : Text
  pub country : Text

abbrev first_value : List Text → Text
first_value [] = []
first_value (v ∷ vs) = v

-- `Parsed.first`.
unfoldable pub first : Fields → Text → Text
unfolding lookup
first fields field = first_value (values_of field fields)

unfoldable pub first_marker : Text → List Text → Option Text
unfolding contains
first_marker l [] = none
first_marker l (m ∷ ms) = if contains m l then some m else first_marker l ms

unfoldable pub redaction_marker : Text → Option Text
unfolding to_lower trim_space first_marker
redaction_marker v =
    let l = to_lower (trim_space v) in if is_empty l then none else first_marker l redaction_markers

abbrev pub newer_marker : Option Text → Option Text → Option Text
newer_marker found none = found
newer_marker found (some m) = some m

-- The loop over the values that may be withheld: the last marker found.
unfoldable pub last_marker : List Text → Option Text → Option Text
unfolding redaction_marker
last_marker [] found = found
last_marker (v ∷ vs) found = last_marker vs (newer_marker found (redaction_marker v))

unfoldable pub without_marker : Text → Text
unfolding redaction_marker
without_marker v = elim (redaction_marker v) [ none ↦ v | some _ ↦ [] ]

abbrev pub redact : Option Text → Contact → Contact
redact none c = c
redact (some marker) c = record c {
  redacted = true;
  reason = marker;
  name = without_marker c.name;
  organization = without_marker c.organization;
  email = without_marker c.email;
}

-- `get` of `Parsed.contact`: no field name, no value.
abbrev pub value_at : Fields → Text → Text
value_at fields f = if is_empty f then [] else first fields f

unfoldable pub contact_of : Text → Text → Text → Text → Text → Text → Option Contact
unfolding last_marker without_marker to_lower to_upper
contact_of role name org email phone country =
    if is_empty name && is_empty org && is_empty email && is_empty phone && is_empty country
    then none
    else some (
        redact (last_marker (name ∷ org ∷ email ∷ []) none) (record {
          role = role;
          redacted = false;
          reason = [];
          name = name;
          organization = org;
          email = to_lower email;
          phone = phone;
          country = to_upper country;
        }))

-- `Parsed.contact`.
unfoldable pub contact : Fields → Text → Text → Text → Text → Text → Text → Option Contact
unfolding contact_of first
contact fields role name_f org_f email_f phone_f country_f =
    contact_of role (value_at fields name_f) (value_at fields org_f) (value_at fields email_f)
      (value_at fields phone_f) (value_at fields country_f)
