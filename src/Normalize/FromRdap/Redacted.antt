-- ===== src/Normalize/FromRdap/Redacted.antt =====
-- internal/normalize/fromrdap.go: what is reported of a contact whose details are withheld.
use whois_mcp.Prelude.{
  false, if_cases, Option, none, some, Option-cases, List, [], ◌∷◌, Text, is_empty, to_lower,
  trim_space, trim_left, contains, cut, cut_prefix, All, ◌≡◌, refl, ◌⊎◌, inl, inr,
}
use whois_mcp.Normalize.Report.{Entity, Registrar}
use whois_mcp.Normalize.FromRdap.Decoded.{Vcard, Remark, RdapEntity}
use whois_mcp.Normalize.FromRdap.Entities.{
  has_marker, remark_reason, value_reason, detect_redaction, plain_entity, redact_entity,
  add_entity, primary_role, reported_entity, registrar_name, registrar_from, entity_from_rdap,
  entities_from, first_non_empty,
}

-- No marker stands in what the entity says of the person, and nothing is said where it is redacted.
abbrev pub Discreet : Entity → Type 0
Discreet ent =
    (value_reason (ent.name ∷ ent.organization ∷ ent.email ∷ []) ≡ none)
    × ((ent.redacted ≡ false)
        ⊎ ((ent.name ≡ []) × (ent.organization ≡ []) × (ent.email ≡ []) × (ent.phone ≡ [])))

value_reason_empty : value_reason ([] ∷ [] ∷ [] ∷ []) ≡ none
unfolding value_reason has_marker to_lower contains cut cut_prefix
value_reason_empty = refl

detect_redaction-some :
    (ent : Entity) (remarks : List Remark) (why : Text)
    → remark_reason remarks ≡ some why
    → detect_redaction ent remarks ≡ some why
unfolding detect_redaction
detect_redaction-some ent remarks why e = rw (e, detect_redaction) refl

detect_redaction-none :
    (ent : Entity) (remarks : List Remark)
    → detect_redaction ent remarks ≡ none
    → value_reason (ent.name ∷ ent.organization ∷ ent.email ∷ []) ≡ none
unfolding detect_redaction
detect_redaction-none ent remarks h = elim (Option-cases (remark_reason remarks)) [
  | inl e ↦ rw (e, detect_redaction) at h
  | inr (why, e) ↦ cc (detect_redaction-some ent remarks why e)
]

plain_entity-redacted :
    (role : Text) (vcard : Option Vcard) → (plain_entity role vcard).redacted ≡ false
plain_entity-redacted role none = refl
plain_entity-redacted role (some v) = refl

redact_entity-Discreet :
    (ent : Entity) (o : Option Text)
    → (o ≡ none → value_reason (ent.name ∷ ent.organization ∷ ent.email ∷ []) ≡ none)
    → ent.redacted ≡ false
    → Discreet (redact_entity o ent)
redact_entity-Discreet ent none h r = (h refl, inl r)
redact_entity-Discreet ent (some why) h r = (value_reason_empty, inr (refl, refl, refl, refl))

reported_entity-Discreet : (role : Text) (e : RdapEntity) → Discreet (reported_entity role e)
unfolding reported_entity
reported_entity-Discreet role e =
    let ent = plain_entity role e.vcard in
    redact_entity-Discreet ent (detect_redaction ent e.remarks)
      (detect_redaction-none ent e.remarks) (plain_entity-redacted role e.vcard)

abbrev DiscreetIn : Option Entity → Type 0
DiscreetIn none = Unit
DiscreetIn (some ent) = Discreet ent

entity_from_rdap-Discreet : (e : RdapEntity) → DiscreetIn (entity_from_rdap e).0
unfolding entity_from_rdap
entity_from_rdap-Discreet e =
    let role = primary_role e.roles in
    if_cases (λ (r : Option Entity × Option Registrar). DiscreetIn r.0) (is_empty role) _ _
      (λ _. tt) (λ _. reported_entity-Discreet role e)

add_entity-Discreet :
    (o : Option Entity) (es : List Entity)
    → DiscreetIn o
    → All Discreet es
    → All Discreet (add_entity o es)
add_entity-Discreet none es d h = h
add_entity-Discreet (some ent) es d h = (d, h)

-- Of every entity that is reported, no name, organization or email address holds a marker of a
-- withheld value, and all three and the telephone number are empty where it is redacted.
pub entities_from-Discreet : (es : List RdapEntity) → All Discreet (entities_from es).0
unfolding entities_from
entities_from-Discreet [] = tt
entities_from-Discreet (e ∷ es) =
    add_entity-Discreet (entity_from_rdap e).0 (entities_from es).0 (entity_from_rdap-Discreet e)
      (entities_from-Discreet es)

-- The name of a registrar whose details are withheld is reported from the vCard all the same.
pub registrar_from_withheld :
    (role : Text) (e : RdapEntity) (v : Vcard) (why : Text)
    → e.vcard ≡ some v
    → detect_redaction (plain_entity role e.vcard) e.remarks ≡ some why
    → ((reported_entity role e).name ≡ [])
      × ((registrar_from (reported_entity role e) e).name ≡ v.name)
unfolding reported_entity registrar_from registrar_name first_non_empty trim_space trim_left
registrar_from_withheld role e v why c h = rw (h, c) (refl, refl)
