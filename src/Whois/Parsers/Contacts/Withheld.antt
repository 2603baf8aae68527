-- ===== src/Whois/Parsers/Contacts/Withheld.antt =====
-- internal/whois/parsers/parse.go: no marker of a withheld value is reported as a name, an
-- organization or an email address.
use whois_mcp.Prelude.{
  false, ◌&&◌, Option, none, some, Option-cases, List, [], ◌∷◌, Text, is_empty, to_lower,
  trim_space, trim_space-to_lower, to_lower-to_lower, if_cases, ◌≡◌, ◌≢◌, refl, ap, ◌∙◌, subst, inl,
  inr, arith,
}
use whois_mcp.Whois.Parsers.Fields.{Fields}
use whois_mcp.Whois.Parsers.Contacts.{
  Contact, redaction_marker, last_marker, newer_marker, without_marker, redact, value_at,
  contact_of, contact,
}

-- The value is withheld.
abbrev pub Marks : Text → Type 0
Marks v = (m : Text) × (redaction_marker v ≡ some m)

abbrev Clean : Text → Type 0
Clean v = redaction_marker v ≡ none

redaction_marker-empty : redaction_marker [] ≡ none
unfolding redaction_marker to_lower trim_space
redaction_marker-empty = refl

without_marker-Clean : (v : Text) → Clean (without_marker v)
unfolding without_marker
without_marker-Clean v = elim (Option-cases (redaction_marker v)) [
  | inl e ↦ rw (without_marker, e) e
  | inr (m, e) ↦ rw (without_marker, e) redaction_marker-empty
]

last_marker-empty : (vs : List Text) (m : Text) → last_marker vs (some m) ≢ none
unfolding last_marker
last_marker-empty [] m = λ e. cc
last_marker-empty (v ∷ vs) m = elim (Option-cases (redaction_marker v)) [
  | inl e ↦ rw (last_marker, e) (last_marker-empty vs m)
  | inr (n, e) ↦ rw (last_marker, e) (last_marker-empty vs n)
]

-- No marker is found in the list only if none of the values is marked.
last_marker-Clean :
    (a b c : Text) → last_marker (a ∷ b ∷ c ∷ []) none ≡ none → Clean a × Clean b × Clean c
unfolding last_marker
last_marker-Clean a b c h = ground (arith)

redaction_marker-to_lower : (v : Text) → redaction_marker (to_lower v) ≡ redaction_marker v
unfolding redaction_marker
redaction_marker-to_lower v = simp (trim_space-to_lower, to_lower-to_lower)

-- What the contact says of the person is no marker.
abbrev pub Unmarked : Contact → Type 0
Unmarked c = Clean c.name × Clean c.organization × Clean c.email

redact-Unmarked : (o : Option Text) (c : Contact) → (o ≡ none → Unmarked c) → Unmarked (redact o c)
redact-Unmarked none c h = h refl
redact-Unmarked (some m) c h =
    (without_marker-Clean c.name, without_marker-Clean c.organization, without_marker-Clean c.email)

abbrev pub UnmarkedIn : Option Contact → Type 0
UnmarkedIn none = Unit
UnmarkedIn (some c) = Unmarked c

contact_of-Unmarked :
    (role name org email phone country : Text)
    → UnmarkedIn (contact_of role name org email phone country)
unfolding contact_of
contact_of-Unmarked role name org email phone country =
    if_cases UnmarkedIn
      (is_empty name && is_empty org && is_empty email && is_empty phone && is_empty country) _ _
      (λ _. tt)
      (λ _. redact-Unmarked (last_marker (name ∷ org ∷ email ∷ []) none) _ (λ e.
        let (a, b, c) = last_marker-Clean name org email e in
        (a, b, redaction_marker-to_lower email ∙ c)))

-- Whatever the fields of a response hold, what a reported contact says is no marker.
pub contact-UnmarkedIn :
    (fields : Fields) (role name_f org_f email_f phone_f country_f : Text)
    → UnmarkedIn (contact fields role name_f org_f email_f phone_f country_f)
unfolding contact
contact-UnmarkedIn fields role name_f org_f email_f phone_f country_f =
    contact_of-Unmarked role (value_at fields name_f) (value_at fields org_f)
      (value_at fields email_f) (value_at fields phone_f) (value_at fields country_f)

last_marker_step :
    (v : Text) (vs : List Text) (found : Option Text)
    → Clean v
    → last_marker (v ∷ vs) found ≡ last_marker vs found
unfolding last_marker
last_marker_step v vs found e = ap (λ (o : Option Text). last_marker vs (newer_marker found o)) e

last_marker-none :
    (a b c : Text) → Clean a → Clean b → Clean c → last_marker (a ∷ b ∷ c ∷ []) none ≡ none
unfolding last_marker
last_marker-none a b c x y z =
    last_marker_step a (b ∷ c ∷ []) none x
    ∙ last_marker_step b (c ∷ []) none y
    ∙ last_marker_step c [] none z

-- The contact reports the telephone number and is not redacted.
abbrev Reports : Text → Option Contact → Type 0
Reports phone none = Unit
Reports phone (some c) = (c.redacted ≡ false) × (c.phone ≡ phone)

contact_of-Reports :
    (role name org email phone country : Text)
    → last_marker (name ∷ org ∷ email ∷ []) none ≡ none
    → Reports phone (contact_of role name org email phone country)
unfolding contact_of
contact_of-Reports role name org email phone country h =
    if_cases (Reports phone)
      (is_empty name && is_empty org && is_empty email && is_empty phone && is_empty country) _ _
      (λ _. tt) (λ _. rw h (refl, refl))

-- A contact whose telephone number is the only withheld value is reported as not redacted, and the
-- marker as its telephone number.
pub contact_phone_marked :
    (fields : Fields) (role name_f org_f email_f phone_f country_f : Text) (c : Contact)
    → contact fields role name_f org_f email_f phone_f country_f ≡ some c
    → redaction_marker (value_at fields name_f) ≡ none
    → redaction_marker (value_at fields org_f) ≡ none
    → redaction_marker (value_at fields email_f) ≡ none
    → Marks (value_at fields phone_f)
    → (c.redacted ≡ false) × Marks c.phone
unfolding contact
contact_phone_marked fields role name_f org_f email_f phone_f country_f c h x y z (m, e) =
    let name = value_at fields name_f in
    let org = value_at fields org_f in
    let email = value_at fields email_f in
    let phone = value_at fields phone_f in
    let (plain, same) : (c.redacted ≡ false) × (c.phone ≡ phone) = subst (Reports phone) h (
      contact_of-Reports role name org email phone (value_at fields country_f)
        (last_marker-none name org email x y z)) in
    (plain, (m, ap redaction_marker same ∙ e))
