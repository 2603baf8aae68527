-- ===== src/Normalize/FromRdap/Entities.antt =====
-- internal/normalize/fromrdap.go: the entities of an RDAP domain, their redaction and the registrar.
use whois_mcp.Prelude.{
  ℕ, Bool, true, false, not, ◌&&◌, ◌||◌, Option, none, some, List, [], ◌∷◌, ◌++◌, map, Text, codes,
  is_empty, text_eq, equal_fold, to_lower, trim_space, has_prefix, contains, join_with, atoi,
  if◌then◌else◌,
}
use whois_mcp.Normalize.Report.{Registrar, Entity}
use whois_mcp.Normalize.FromRdap.Decoded.{Vcard, Remark, Link, PublicId, SubEntity, RdapEntity}

abbrev pub redaction_markers : List Text
redaction_markers = map codes (
    "redacted" ∷ "data redacted" ∷ "not disclosed" ∷ "withheld" ∷ "privacy" ∷ "gdpr masked"
    ∷ "statutory masking enabled" ∷ [])

unfoldable pub first_non_empty : List Text → Text
unfolding trim_space
first_non_empty [] = []
first_non_empty (v ∷ vs) = let t = trim_space v in if is_empty t then first_non_empty vs else t

unfoldable pub has_marker : Text → List Text → Bool
unfolding contains
has_marker s [] = false
has_marker s (m ∷ ms) = contains m s || has_marker s ms

abbrev withheld : Text
withheld = codes "withheld by the registry"

abbrev blob : Remark → Text
blob r = to_lower (r.title ++ (b' ' ∷ (join_with b' ' r.description ++ (b' ' ∷ r.kind))))

unfoldable pub remark_reason : List Remark → Option Text
unfolding to_lower join_with has_marker first_non_empty
remark_reason [] = none
remark_reason (r ∷ rs) =
    if has_marker (blob r) redaction_markers
    then some (first_non_empty (r.title ∷ withheld ∷ []))
    else remark_reason rs

unfoldable pub value_reason : List Text → Option Text
unfolding to_lower has_marker
value_reason [] = none
value_reason (v ∷ vs) =
    if has_marker (to_lower v) redaction_markers then some withheld else value_reason vs

-- Why the contact is withheld, if it is.
unfoldable pub detect_redaction : Entity → List Remark → Option Text
unfolding remark_reason value_reason
detect_redaction ent remarks = elim (remark_reason remarks) [
  | some why ↦ some why
  | none ↦ value_reason (ent.name ∷ ent.organization ∷ ent.email ∷ [])
]

unfoldable pub has_role : List Text → Text → Bool
unfolding equal_fold trim_space
has_role [] want = false
has_role (r ∷ rs) want = if equal_fold (trim_space r) want then true else has_role rs want

abbrev role_priority : List Text
role_priority = map codes (
    "registrant" ∷ "administrative" ∷ "technical" ∷ "abuse" ∷ "registrar" ∷ "reseller" ∷ "billing"
    ∷ [])

unfoldable pub first_role : List Text → List Text → Option Text
unfolding has_role
first_role roles [] = none
first_role roles (p ∷ ps) = if has_role roles p then some p else first_role roles ps

unfoldable pub primary_role : List Text → Text
unfolding first_role to_lower
primary_role [] = []
primary_role (r ∷ rs) = elim (first_role (r ∷ rs) role_priority) [ some p ↦ p | none ↦ to_lower r ]

unfoldable pub iana_id_from : List PublicId → Bool × ℕ
unfolding contains to_lower trim_space atoi
iana_id_from [] = (false, 0)
iana_id_from (p ∷ ps) =
    if not (contains (codes "iana") (to_lower p.kind))
    then iana_id_from ps
    else elim (atoi (trim_space p.identifier)) [ some n ↦ n | none ↦ iana_id_from ps ]

abbrev name_of : Option Vcard → Text
name_of none = []
name_of (some v) = v.name

-- The entity before redaction.
abbrev pub plain_entity : Text → Option Vcard → Entity
plain_entity role none = record {
  role = role;
  redacted = false;
  reason = [];
  name = [];
  organization = [];
  email = [];
  phone = [];
  country = [];
}
plain_entity role (some v) = record {
  role = role;
  redacted = false;
  reason = [];
  name = v.name;
  organization = v.org;
  email = v.email;
  phone = v.tel;
  country = v.country;
}

abbrev pub redact_entity : Option Text → Entity → Entity
redact_entity none ent = ent
redact_entity (some why) ent = record ent {
  redacted = true;
  reason = why;
  name = [];
  organization = [];
  email = [];
  phone = [];
}

-- The abuse contact among the nested entities: the last one counts.
unfoldable pub abuse_of : Text × Text → List SubEntity → Text × Text
unfolding has_role
abuse_of found [] = found
abuse_of found (sub ∷ subs) =
    abuse_of
      (elim sub.vcard [
        | none ↦ found
        | some v ↦ if has_role sub.roles (codes "abuse") then (v.email, v.tel) else found
      ])
      subs

unfoldable pub about_link : List Link → Text
unfolding equal_fold has_prefix
about_link [] = []
about_link (l ∷ ls) =
    if equal_fold l.rel (codes "about") && has_prefix (codes "http") l.href
    then l.href
    else about_link ls

-- The registrar's name: of the redacted entity, or else of the vCard.
unfoldable pub registrar_name : Entity → Option Vcard → Text
unfolding first_non_empty
registrar_name ent vcard =
    let n = first_non_empty (ent.organization ∷ ent.name ∷ []) in
    if is_empty n then name_of vcard else n

unfoldable pub registrar_from : Entity → RdapEntity → Registrar
unfolding registrar_name iana_id_from abuse_of about_link
registrar_from ent e =
    let (email, phone) = abuse_of ([], []) e.entities in
    record {
      name = registrar_name ent e.vcard;
      iana_id = iana_id_from e.public_ids;
      url = about_link e.links;
      abuse_email = email;
      abuse_phone = phone;
    }

-- The entity as it is reported.
unfoldable pub reported_entity : Text → RdapEntity → Entity
unfolding detect_redaction
reported_entity role e =
    let ent = plain_entity role e.vcard in redact_entity (detect_redaction ent e.remarks) ent

unfoldable pub entity_from_rdap : RdapEntity → Option Entity × Option Registrar
unfolding primary_role reported_entity registrar_from text_eq
entity_from_rdap e =
    let role = primary_role e.roles in
    let ent = reported_entity role e in
    if is_empty role
    then (none, none)
    else (some ent, if text_eq role (codes "registrar") then some (registrar_from ent e) else none)

-- The entities, and the first registrar among them.
abbrev pub add_entity : Option Entity → List Entity → List Entity
add_entity none es = es
add_entity (some e) es = e ∷ es

abbrev first_registrar : Option Registrar → Option Registrar → Option Registrar
first_registrar (some r) later = some r
first_registrar none later = later

unfoldable pub entities_from : List RdapEntity → List Entity × Option Registrar
unfolding entity_from_rdap
entities_from [] = ([], none)
entities_from (e ∷ es) =
    let (ent, reg) = entity_from_rdap e in
    let (ents, later) = entities_from es in (add_entity ent ents, first_registrar reg later)
