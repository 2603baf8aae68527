-- ===== src/Whois/Parsers/Report/Scores.antt =====
-- internal/whois/parsers/parse.go: what Parse reports of its own certainty, and of its fields.
use whois_mcp.Prelude.{
  ℕ, ◌≤◌, Bool, true, false, Option, Option-cases, List, [], ◌∷◌, Text, lookup, split_on, length,
  ◌≡◌, ◌↔◌, inl, inr, arith,
}
use whois_mcp.Whois.Parsers.Labels.{core_fields}
use whois_mcp.Whois.Parsers.Templates.{no_template, template_for}
use whois_mcp.Whois.Parsers.Fields.{Fields, Collected, no_lines}
use whois_mcp.Whois.Parsers.Fields.Kept.{ProperIn, read_lines-WellFormed}
use whois_mcp.Whois.Parsers.Report.{found_core, score_of, score, promote, parse}

found_core-le-length : (fields : Fields) (fs : List Text) → found_core fields fs ≤ length fs
unfolding found_core
found_core-le-length fields [] = omega arith
found_core-le-length fields (f ∷ fs) = ground (arith, found_core-le-length fields fs)

score_of_bounds :
    (t : Bool) (found unknown : ℕ)
    → found ≤ 6
    → (score_of t found unknown ≤ 100)
      × (score_of false found unknown ≤ 85)
      × (score_of false found unknown ≤ score_of true found unknown)
unfolding score_of
score_of_bounds t found unknown h = (ground arith, ground arith, ground arith)

score_of_zero : (t : Bool) (found unknown : ℕ) → (score_of t found unknown ≡ 0) ↔ (found ≡ 0)
unfolding score_of
score_of_zero t found unknown = (λ e. ground arith, λ e. ground arith)

-- The confidence is at most 100 hundredths, and 85 without a template of the host; a template never
-- lowers it; and it is zero exactly where no core field was recovered.
pub score_bounds :
    (t : Bool) (p : Collected)
    → (score t p ≤ 100)
      × (score false p ≤ 85)
      × (score false p ≤ score true p)
      × ((score t p ≡ 0) ↔ (found_core p.fields core_fields ≡ 0))
unfolding score
score_bounds t p =
    let n = found_core p.fields core_fields in
    let (a, b, c) =
      score_of_bounds t n (length p.unknown_labels) (found_core-le-length p.fields core_fields) in
    (a, b, c, score_of_zero t n (length p.unknown_labels))

-- Every field of a parsed response that holds values holds one, or, if it may have several, values
-- that differ up to case.
pub parse-Proper :
    (parse_time : Text → Text → Option ℕ) (host raw key : Text)
    → ProperIn key (lookup key (parse parse_time host raw).fields)
unfolding parse promote lookup
parse-Proper parse_time host [] key = tt
parse-Proper parse_time host (c ∷ raw) key = elim (Option-cases (template_for host)) [
  | inl e ↦
      rw (e, parse)
        (read_lines-WellFormed no_template 0 (split_on b'\n' (c ∷ raw)) no_lines (λ _. tt) key)
  | inr (tpl, e) ↦
      rw (e, parse) (read_lines-WellFormed tpl 0 (split_on b'\n' (c ∷ raw)) no_lines (λ _. tt) key)
]
