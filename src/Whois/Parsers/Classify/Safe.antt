-- ===== src/Whois/Parsers/Classify/Safe.antt =====
-- internal/whois/parsers/notfound.go: when Classify says that a domain is free, and when that it is
-- taken.
use whois_mcp.Prelude.{
  true, false, Bool-cases, Option, none, some, List, [], ◌∷◌, Text, is_empty, is_empty→eq, holds,
  text_eq, text_eq_iff, text_eq_refl, to_lower, Occurs, contains→Occurs, Occurs→contains, ◌≡◌, ◌≢◌,
  refl, ◌⊎◌, inl, inr, arith,
}
use whois_mcp.Whois.Parsers.Templates.{Template, template_for}
use whois_mcp.Whois.Parsers.Classify.{
  registered, unregistered, contains_any, lower_all, by_template, by_signals, classify_body,
  classify, not_found_signatures, registered_signals, rate_limit_signatures,
}

-- One of the phrases, not the empty one, stands somewhere in the body.
abbrev pub Says : Text → List Text → Type 0
Says body phrases = (p : Text) × (holds p phrases ≡ true) × (p ≢ []) × Occurs p body

is_empty_false→ne : (s : Text) → is_empty s ≡ false → s ≢ []
is_empty_false→ne [] h = cc
is_empty_false→ne (c ∷ s) h = λ e. ground arith

pub contains_any→Says : (body : Text) (ps : List Text) → contains_any body ps ≡ true → Says body ps
unfolding contains_any holds
contains_any→Says body [] h = cc
contains_any→Says body (p ∷ ps) h = elim (Bool-cases (contains_any body ps)) [
  | inl e ↦ let (q, m, n, o) = contains_any→Says body ps e in (q, ground arith, n, o)
  | inr e ↦ (
    p,
    rw text_eq_refl refl,
    is_empty_false→ne p (ground arith),
    contains→Occurs p body (ground arith),
  )
]

pub Says→contains_any : (body : Text) (ps : List Text) → Says body ps → contains_any body ps ≡ true
unfolding contains_any holds
Says→contains_any body [] (p, m, n, o) = cc
Says→contains_any body (q ∷ ps) (p, m, n, o) = elim (Bool-cases (text_eq q p)) [
  | inl e ↦ ground (arith, text_eq_iff q p, is_empty→eq q, Occurs→contains p body o)
  | inr e ↦ ground (arith, Says→contains_any body ps (p, ground arith, n, o))
]

pub silent : (body : Text) (ps : List Text) → contains_any body ps ≡ false → ¬ Says body ps
silent body ps h = λ s. ground (arith, Says→contains_any body ps s)

-- The phrases of the host's own template for a free domain, and those for a registered one.
abbrev pub absent_phrases : Option Template → List Text
absent_phrases none = []
absent_phrases (some tpl) = lower_all tpl.not_found

abbrev pub present_phrases : Option Template → List Text
present_phrases none = []
present_phrases (some tpl) = lower_all tpl.registered

classify_body-unregistered :
    (tpl : Option Template) (body : Text)
    → classify_body tpl body ≡ unregistered
    → (contains_any body rate_limit_signatures ≡ false)
      × ((contains_any body (absent_phrases tpl) ≡ true)
          ⊎ ((contains_any body not_found_signatures ≡ true)
              × (contains_any body registered_signals ≡ false)))
unfolding classify_body by_template by_signals contains_any
classify_body-unregistered none body h = ground arith
classify_body-unregistered (some tpl) body h = ground arith

classify_body-registered :
    (tpl : Option Template) (body : Text)
    → classify_body tpl body ≡ registered
    → (contains_any body rate_limit_signatures ≡ false)
      × (contains_any body (absent_phrases tpl) ≡ false)
      × ((contains_any body (present_phrases tpl) ≡ true)
          ⊎ ((contains_any body registered_signals ≡ true)
              × (contains_any body not_found_signatures ≡ false)))
unfolding classify_body by_template by_signals contains_any
classify_body-registered none body h = ground arith
classify_body-registered (some tpl) body h = ground arith

-- A response is taken for a free domain only if no phrase of a refusal stands in it, and if one of
-- the host's own phrases for a free domain does, or one of the common ones with no sign of a record.
pub classify-unregistered :
    (host raw : Text)
    → classify host raw ≡ unregistered
    → (¬ Says (to_lower raw) rate_limit_signatures)
      × (Says (to_lower raw) (absent_phrases (template_for host))
          ⊎ (Says (to_lower raw) not_found_signatures × (¬ Says (to_lower raw) registered_signals)))
unfolding classify
classify-unregistered host [] h = cc
classify-unregistered host (c ∷ raw) h =
    let body = to_lower (c ∷ raw) in
    let (calm, why) = classify_body-unregistered (template_for host) body h in
    (
      silent body rate_limit_signatures calm,
      elim why [
        | inl own ↦ inl (contains_any→Says body (absent_phrases (template_for host)) own)
        | inr (common, bare) ↦ inr (
          contains_any→Says body not_found_signatures common,
          silent body registered_signals bare,
        )
      ],
    )

-- A response is taken for a registered domain only if it is no refusal, holds none of the host's
-- phrases for a free domain, and holds one of the host's phrases for a record, or a common sign of a
-- record and no common phrase for a free domain.
pub classify-registered :
    (host raw : Text)
    → classify host raw ≡ registered
    → (¬ Says (to_lower raw) rate_limit_signatures)
      × (¬ Says (to_lower raw) (absent_phrases (template_for host)))
      × (Says (to_lower raw) (present_phrases (template_for host))
          ⊎ (Says (to_lower raw) registered_signals × (¬ Says (to_lower raw) not_found_signatures)))
unfolding classify
classify-registered host [] h = cc
classify-registered host (c ∷ raw) h =
    let body = to_lower (c ∷ raw) in
    let tpl = template_for host in
    let (calm, own, why) = classify_body-registered tpl body h in
    (
      silent body rate_limit_signatures calm,
      silent body (absent_phrases tpl) own,
      elim why [
        | inl own' ↦ inl (contains_any→Says body (present_phrases tpl) own')
        | inr (common, bare) ↦ inr (
          contains_any→Says body registered_signals common,
          silent body not_found_signatures bare,
        )
      ],
    )

-- A phrase that the host's template has for a free domain decides, in a response that is no refusal,
-- whatever signs of a record stand beside it.
pub classify_template_decides :
    (host raw : Text) (tpl : Template)
    → template_for host ≡ some tpl
    → (¬ Says (to_lower raw) rate_limit_signatures)
    → Says (to_lower raw) (lower_all tpl.not_found)
    → raw ≢ []
    → classify host raw ≡ unregistered
unfolding classify classify_body by_template
classify_template_decides host [] tpl t calm own n = absurd (n refl)
classify_template_decides host (c ∷ raw) tpl t calm own n =
    let body = to_lower (c ∷ raw) in
    elim (Bool-cases (contains_any body rate_limit_signatures)) [
      | inl e ↦ absurd (calm (contains_any→Says body rate_limit_signatures e))
      | inr e ↦ rw (t, e, Says→contains_any body (lower_all tpl.not_found) own) refl
    ]
