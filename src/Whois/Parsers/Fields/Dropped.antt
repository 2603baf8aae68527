-- ===== src/Whois/Parsers/Fields/Dropped.antt =====
-- internal/whois/parsers/parse.go: the labels that a template maps to the empty field name.
use whois_mcp.Prelude.{
  false, some, List, [], ◌∷◌, ◌++◌, Text, to_lower, trim_space, lookup, ◌≡◌, refl,
}
use whois_mcp.Whois.Parsers.Templates.{Template, dropped}
use whois_mcp.Whois.Parsers.Lines.{split_line, canonical, is_prose_label}
use whois_mcp.Whois.Parsers.Fields.{Collected, read_field, read_line}

canonical-dropped :
    (label : Text) (tpl : Template)
    → lookup (to_lower (trim_space label)) tpl.labels ≡ some dropped
    → canonical label tpl ≡ []
unfolding canonical
canonical-dropped label tpl h = rw (h, canonical) refl

-- A label that the host's template maps to the empty field name counts as an unknown one, unless it
-- reads like prose, and its value is not recorded.
pub read_line-dropped :
    (tpl : Template) (line label value : Text) (rest : List Text) (p : Collected)
    → split_line line ≡ some (label, value)
    → lookup (to_lower (trim_space label)) tpl.labels ≡ some dropped
    → is_prose_label label ≡ false
    → (read_line tpl line rest p).0
      ≡ record { fields = p.fields; unknown_labels = p.unknown_labels ++ label ∷ [] }
unfolding read_line read_field
read_line-dropped tpl line label value rest p s h q =
    rw (s, read_line) (rw (canonical-dropped label tpl h, read_field) (rw (q, read_field) refl))
