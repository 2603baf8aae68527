-- ===== src/Whois/Parsers/Fields.antt =====
-- internal/whois/parsers/parse.go: the fields that the lines of a response give.
pub mod Kept
pub mod Dropped
use whois_mcp.Prelude.{
  ℕ, zero, suc, ◌+◌, Bool, true, false, Option, none, some, List, [], ◌∷◌, ◌++◌, Text, is_empty,
  holds, equal_fold, Dict, lookup, insert, split_on, length, if◌then◌else◌,
}
use whois_mcp.Whois.Parsers.Labels.{multi_valued}
use whois_mcp.Whois.Parsers.Templates.{Template}
use whois_mcp.Whois.Parsers.Lines.{split_line, canonical, is_prose_label, continuation_values}

abbrev pub Fields : Type 0
Fields = Dict (List Text)

-- The fields and the unknown labels of `Parsed`, while it is filled.
pub record Collected : Type 0 where
  pub fields : Fields
  pub unknown_labels : List Text

abbrev pub values_of : Text → Fields → List Text
values_of key fields = elim (lookup key fields) [ none ↦ [] | some vs ↦ vs ]

unfoldable pub has_fold : Text → List Text → Bool
unfolding equal_fold
has_fold v [] = false
has_fold v (w ∷ ws) = if equal_fold w v then true else has_fold v ws

unfoldable pub append_unique : List Text → Text → List Text
unfolding has_fold
append_unique dst v = if has_fold v dst then dst else dst ++ v ∷ []

-- `Parsed.record`.
unfoldable pub record_value : Text → Text → Fields → Fields
unfolding holds append_unique lookup insert
record_value key value fields =
    if is_empty value
    then fields
    else if holds key multi_valued
    then insert key (append_unique (values_of key fields) value) fields
    else elim (lookup key fields) [ none ↦ insert key (value ∷ []) fields | some _ ↦ fields ]

unfoldable pub record_all : Text → List Text → Fields → Fields
unfolding record_value
record_all key [] fields = fields
record_all key (v ∷ vs) fields = record_all key vs (record_value key v fields)

-- One round of the loop of `Parse`: the lines behind it are there for a block, and the number says
-- how many of them the block took.
unfoldable pub read_field : Template → Text → Text → List Text → Collected → Collected × ℕ
unfolding canonical is_prose_label continuation_values record_value record_all
read_field tpl label value rest p =
    let key = canonical label tpl in
    let (values, consumed) = continuation_values rest in
    if is_empty key
    then (
      if is_prose_label label
          then p
          else record p { unknown_labels = p.unknown_labels ++ label ∷ [] },
      0,
    )
    else if is_empty value
    then (record p { fields = record_all key values p.fields }, consumed)
    else (record p { fields = record_value key value p.fields }, 0)

unfoldable pub read_line : Template → Text → List Text → Collected → Collected × ℕ
unfolding split_line read_field
read_line tpl line rest p = elim (split_line line) [
  | none ↦ (p, 0)
  | some (label, value) ↦ read_field tpl label value rest p
]

-- The loop; `skip` lines belong to a block that is read.
unfoldable pub read_lines : Template → ℕ → List Text → Collected → Collected
unfolding read_line
read_lines tpl skip [] p = p
read_lines tpl (suc skip) (line ∷ rest) p = read_lines tpl skip rest p
read_lines tpl zero (line ∷ rest) p =
    let (p', consumed) = read_line tpl line rest p in read_lines tpl consumed rest p'

abbrev pub no_lines : Collected
no_lines = record { fields = []; unknown_labels = [] }
