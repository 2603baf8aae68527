-- ===== src/Whois/Parsers/Lines.antt =====
-- internal/whois/parsers/parse.go: the lines of a WHOIS response, their labels and their blocks.
use whois_mcp.Prelude.{
  ℕ, zero, suc, Bool, false, not, ◌&&◌, ◌||◌, Option, none, some, List, [], ◌∷◌, ◌++◌, map, Text,
  codes, is_empty, lookup, to_lower, trim_space, trim_right, has_prefix, cut_prefix, cut, contains,
  has_any, count, length, ltb, leb, ◌==◌, if◌then◌else◌,
}
use whois_mcp.Whois.Parsers.Labels.{synonyms}
use whois_mcp.Whois.Parsers.Templates.{Template}

-- The marks of comments and of Verisign's footer.
abbrev is_comment : Text → Bool
is_comment t =
    has_prefix (codes "%") t
    || has_prefix (codes "#") t
    || has_prefix (codes ">>>") t
    || has_prefix (codes "--") t

-- `[Label] value`.
unfoldable pub split_bracketed : Text → Option (Text × Text)
unfolding trim_space has_prefix cut
split_bracketed t = if not (has_prefix (codes "[") t) then none else elim (cut (codes "]") t) [
  | none ↦ none
  | some (a, b) ↦ if is_empty a then none else some (a ++ codes "]", trim_space b)
]

abbrev is_sentence_mark : ℕ → Bool
is_sentence_mark c = c == b'.' || c == b'!' || c == b'?'

abbrev max_label : ℕ
max_label = 60

-- A label with sentence punctuation is prose, unless it is bracketed.
abbrev field_of : Text → Text → Option (Text × Text)
field_of label value =
    if has_any is_sentence_mark label && not (has_prefix (codes "[") label)
    then none
    else if ltb max_label (length label)
    then none
    else some (label, value)

-- `label: value`.
unfoldable pub split_colon : Text → Option (Text × Text)
unfolding trim_space cut has_any has_prefix
split_colon t = elim (cut (codes ":") t) [
  | none ↦ none
  | some (a, b) ↦ if is_empty a then none else field_of (trim_space a) (trim_space b)
]

unfoldable pub split_line : Text → Option (Text × Text)
unfolding trim_right trim_space has_prefix split_bracketed split_colon
split_line line =
    let t = trim_space (trim_right 13 line) in
    if is_empty t || is_comment t
    then none
    else elim (split_bracketed t) [ some lv ↦ some lv | none ↦ split_colon t ]

abbrev qualifiers : List Text
qualifiers = map codes ("registry " ∷ "registrar " ∷ "domain " ∷ [])

-- The field of a label behind one of the qualifiers.
unfoldable pub qualified : Text → List Text → Option Text
unfolding cut_prefix lookup synonyms
qualified l [] = none
qualified l (p ∷ ps) = elim (cut_prefix p l) [
  | none ↦ qualified l ps
  | some rest ↦ elim (lookup rest synonyms) [ some f ↦ some f | none ↦ qualified l ps ]
]

abbrev or_empty : Option Text → Text
or_empty none = []
or_empty (some f) = f

-- The field of a label: the host's own, a synonym, or a qualified synonym; else the empty name.
unfoldable pub canonical : Text → Template → Text
unfolding to_lower trim_space lookup synonyms qualified
canonical label tpl =
    let l = to_lower (trim_space label) in
    elim (lookup l tpl.labels) [
      | some f ↦ f
      | none ↦ elim (lookup l synonyms) [ some f ↦ f | none ↦ or_empty (qualified l qualifiers) ]
    ]

abbrev prose_words : List Text
prose_words = map codes (
    "notice" ∷ "terms of use" ∷ "by submitting" ∷ "important" ∷ "disclaimer" ∷ "copyright" ∷ "http"
    ∷ "https" ∷ "www" ∷ "for more information" ∷ "the data in" ∷ "this data is provided" ∷ "note"
    ∷ "warning" ∷ [])

unfoldable pub has_word : Text → List Text → Bool
unfolding contains
has_word l [] = false
has_word l (w ∷ ws) = contains w l || has_word l ws

unfoldable pub is_prose_label : Text → Bool
unfolding to_lower count has_word
is_prose_label label = let l = to_lower label in leb 5 (count b' ' l) || has_word l prose_words

abbrev is_indented : Text → Bool
is_indented raw = has_prefix (codes " ") raw || has_prefix (codes "\t") raw

-- The line stands outside the block that a bare label opened.
abbrev ends_block : Text → Text → Bool
ends_block raw trimmed =
    is_empty trimmed
    || not (is_indented raw)
    || contains (codes ":") trimmed
    || has_prefix (codes "%") trimmed
    || has_prefix (codes "#") trimmed

-- The values of a block, with the number of lines that it may still take.
unfoldable pub block_values : ℕ → List Text → List Text
unfolding trim_right trim_space has_prefix contains
block_values zero lines = []
block_values (suc left) [] = []
block_values (suc left) (line ∷ lines) =
    let raw = trim_right 13 line in
    let more = trim_space raw ∷ block_values left lines in
    if ends_block raw (trim_space raw) then [] else more

abbrev max_block : ℕ
max_block = 20

-- The values, and the number of lines they take.
unfoldable pub continuation_values : List Text → List Text × ℕ
unfolding block_values
continuation_values rest = let values = block_values max_block rest in (values, length values)
