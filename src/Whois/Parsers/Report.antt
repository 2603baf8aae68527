-- ===== src/Whois/Parsers/Report.antt =====
-- internal/whois/parsers/parse.go: the typed members that Parse makes of the fields. The confidence
-- is in hundredths and computed in exact fractions; the source computes in binary floats, which can
-- differ by a hundredth where a value lies half way between two.
pub mod Scores
use whois_mcp.Prelude.{
  ℕ, ◌+◌, ◌-◌, ◌*◌, ◌/◌, min, Bool, true, false, not, ◌&&◌, ◌||◌, Option, none, some, List, [], ◌∷◌,
  Text, codes, is_empty, text_eq, to_lower, to_upper, trim_space, trim_last, before_any, has_prefix,
  contains, lookup, split_on, atoi, length, ltb, ◌==◌, if◌then◌else◌,
}
use whois_mcp.Whois.Parsers.Labels.{
  f_domain, f_registry_domain_id, f_registrar, f_registrar_iana_id, f_registrar_url, f_abuse_email,
  f_abuse_phone, f_status, f_nameserver, f_dnssec, f_created, f_updated, f_expires, f_transferred,
  f_registrant_name, f_registrant_org, f_registrant_email, f_registrant_phone, f_registrant_country,
  f_admin_name, f_admin_email, f_tech_name, f_tech_email, core_fields,
}
use whois_mcp.Whois.Parsers.Templates.{Template, no_template, template_for, normalize_host_key}
use whois_mcp.Whois.Parsers.Fields.{
  Fields, Collected, values_of, append_unique, read_lines, no_lines,
}
use whois_mcp.Whois.Parsers.Dates.{parse_date}
use whois_mcp.Whois.Parsers.Contacts.{Contact, first, contact}

-- The host before a glue address, unless that stands first.
abbrev without_glue : Text → Text
without_glue h =
    let cut_off = before_any (λ (c : ℕ). c == b' ' || c == 9 || c == b'[') h in
    if is_empty cut_off then h else cut_off

abbrev host_of : Text → Text
host_of v = to_lower (trim_last b'.' (trim_space (without_glue (trim_space v))))

unfoldable pub nameservers_from : List Text → List Text → List Text
unfolding append_unique to_lower trim_last trim_space before_any contains
nameservers_from out [] = out
nameservers_from out (v ∷ vs) =
    let h = host_of v in
    nameservers_from
      (if is_empty h || not (contains (codes ".") h) then out else append_unique out h) vs

unfoldable pub normalize_nameservers : List Text → List Text
unfolding nameservers_from
normalize_nameservers = nameservers_from []

unfoldable pub dnssec_signed : Text → Bool
unfolding to_lower trim_space has_prefix contains text_eq
dnssec_signed v =
    let l = to_lower (trim_space v) in
    if has_prefix (codes "unsigned") l
      || text_eq l (codes "no")
      || text_eq l (codes "false")
      || text_eq l (codes "unsigneddelegation")
      || contains (codes "unsigned") l
      || contains (codes "not signed") l
    then false
    else has_prefix (codes "signed") l
      || text_eq l (codes "yes")
      || text_eq l (codes "true")
      || contains (codes "signeddelegation") l
      || contains (codes "signed") l

-- The core fields that hold a value.
unfoldable pub found_core : Fields → List Text → ℕ
unfolding lookup
found_core fields [] = 0
found_core fields (f ∷ fs) =
    let n = found_core fields fs in if ltb 0 (length (values_of f fields)) then n + 1 else n

-- In parts of 600: the share of the core fields by the weight of the tier, and its bounds.
abbrev weighted : Bool → ℕ → ℕ
weighted has_template found = if has_template then 90 * found + 60 else 85 * found

abbrev clamp : ℕ → ℕ
clamp base = if ltb base 30 then 30 else if ltb 600 base then 600 else base

unfoldable pub score_of : Bool → ℕ → ℕ → ℕ
score_of has_template found unknown =
    if found == 0 then 0 else (clamp (weighted has_template found - min (6 * unknown) 90) + 3) / 6

-- `Parsed.score`.
unfoldable pub score : Bool → Collected → ℕ
unfolding found_core score_of
score has_template p =
    score_of has_template (found_core p.fields core_fields) (length p.unknown_labels)

pub record Parsed : Type 0 where
  pub template : Text
  pub confidence : ℕ
  pub domain_name : Text
  pub registry_domain_id : Text
  pub registrar_name : Text
  pub registrar_iana_id : Bool × ℕ
  pub registrar_url : Text
  pub abuse_email : Text
  pub abuse_phone : Text
  pub statuses : List Text
  pub nameservers : List Text
  pub dnssec_signed : Bool
  pub dnssec_stated : Bool
  pub created : Option ℕ
  pub updated : Option ℕ
  pub expires : Option ℕ
  pub transferred : Option ℕ
  pub timezone_assumed : Bool
  pub registrant : Option Contact
  pub admin : Option Contact
  pub tech : Option Contact
  pub fields : Fields
  pub unknown_labels : List Text

abbrev number_or_zero : Option (Bool × ℕ) → Bool × ℕ
number_or_zero none = (false, 0)
number_or_zero (some n) = n

-- The identifier of the registrar; one that is no number is 0.
unfoldable pub iana_id : Text → Bool × ℕ
unfolding atoi trim_space
iana_id id = if is_empty id then (false, 0) else number_or_zero (atoi (trim_space id))

abbrev time_of : Option (ℕ × Bool) → Option ℕ
time_of none = none
time_of (some (t, _)) = some t

abbrev zone_assumed : Option (ℕ × Bool) → Bool
zone_assumed none = false
zone_assumed (some (_, assumed)) = assumed

module _ (parse_time : Text → Text → Option ℕ) where
  -- `Parsed.date`: an empty value is no date.
  unfoldable pub date : Fields → Text → Template → Option (ℕ × Bool)
  unfolding first parse_date
  date fields field tpl =
      let v = first fields field in
      if is_empty v then none else parse_date parse_time v tpl.date_layouts

  unfoldable pub promote : Template → Text → ℕ → Collected → Parsed
  unfolding first to_lower iana_id normalize_nameservers dnssec_signed date contact
  promote tpl name confidence p =
      let created = date p.fields f_created tpl in
      let expires = date p.fields f_expires tpl in
      let updated = date p.fields f_updated tpl in
      let transferred = date p.fields f_transferred tpl in
      let dnssec = first p.fields f_dnssec in
      record {
        template = name;
        confidence = confidence;
        domain_name = to_lower (first p.fields f_domain);
        registry_domain_id = first p.fields f_registry_domain_id;
        registrar_name = first p.fields f_registrar;
        registrar_iana_id = iana_id (first p.fields f_registrar_iana_id);
        registrar_url = first p.fields f_registrar_url;
        abuse_email = to_lower (first p.fields f_abuse_email);
        abuse_phone = first p.fields f_abuse_phone;
        statuses = values_of f_status p.fields;
        nameservers = normalize_nameservers (values_of f_nameserver p.fields);
        dnssec_signed = not (is_empty dnssec) && dnssec_signed dnssec;
        dnssec_stated = not (is_empty dnssec);
        created = time_of created;
        updated = time_of updated;
        expires = time_of expires;
        transferred = time_of transferred;
        timezone_assumed =
            zone_assumed created
            || zone_assumed expires
            || zone_assumed updated
            || zone_assumed transferred;
        registrant =
            contact p.fields (codes "registrant") f_registrant_name f_registrant_org
              f_registrant_email f_registrant_phone f_registrant_country;
        admin = contact p.fields (codes "administrative") f_admin_name [] f_admin_email [] [];
        tech = contact p.fields (codes "technical") f_tech_name [] f_tech_email [] [];
        fields = p.fields;
        unknown_labels = p.unknown_labels;
      }

  abbrev parse_with : Text → Option Template → Text → Parsed
  parse_with host none raw =
      let p = read_lines no_template 0 (split_on b'\n' raw) no_lines in
      promote no_template (codes "heuristic") (score false p) p
  parse_with host (some tpl) raw =
      let p = read_lines tpl 0 (split_on b'\n' raw) no_lines in
      promote tpl (normalize_host_key host) (score true p) p

  unfoldable pub parse : Text → Text → Parsed
  unfolding promote score read_lines split_on template_for normalize_host_key
  parse host raw =
      if is_empty raw
      then promote no_template (codes "heuristic") 0 no_lines
      else parse_with host (template_for host) raw
