-- ===== src/Whois/Parsers/Fields/Kept.antt =====
-- internal/whois/parsers/parse.go: what record and the loop of Parse keep of the fields.
use whois_mcp.Prelude.{
  ℕ, zero, suc, true, false, Bool-cases, if_cases, Option, none, some, Option-cases, List, [], ◌∷◌,
  ◌++◌, Text, is_empty, holds, equal_fold, text_eq, text_eq_iff, to_lower, lookup, insert,
  lookup-insert, lookup-insert_self, subst, sym, length-append, ◌<◌, length, ◌≡◌, refl, inl, inr,
  arith,
}
use whois_mcp.Whois.Parsers.Labels.{multi_valued}
use whois_mcp.Whois.Parsers.Templates.{Template}
use whois_mcp.Whois.Parsers.Lines.{split_line, canonical, is_prose_label, continuation_values}
use whois_mcp.Whois.Parsers.Fields.{
  Fields, Collected, values_of, has_fold, append_unique, record_value, record_all, read_field,
  read_line, read_lines,
}

-- No value repeats an earlier one, up to case.
abbrev pub Distinct : List Text → Type 0
Distinct [] = Unit
Distinct (v ∷ vs) = (has_fold v vs ≡ false) × Distinct vs

-- What a field may hold: distinct values if it is multi-valued, and at least one; else one value.
abbrev pub Proper : Text → List Text → Type 0
Proper key vs = elim (holds key multi_valued) [
  | true ↦ (0 < length vs) × Distinct vs
  | false ↦ length vs ≡ 1
]

abbrev pub ProperIn : Text → Option (List Text) → Type 0
ProperIn key none = Unit
ProperIn key (some vs) = Proper key vs

equal_fold_sym : (v w : Text) → equal_fold v w ≡ false → equal_fold w v ≡ false
unfolding equal_fold
equal_fold_sym v w h =
    ground (arith, text_eq_iff (to_lower v) (to_lower w), text_eq_iff (to_lower w) (to_lower v))

has_fold-concat :
    (w v : Text) (ws : List Text)
    → has_fold w ws ≡ false
    → equal_fold w v ≡ false
    → has_fold w (ws ++ v ∷ []) ≡ false
unfolding has_fold
has_fold-concat w v [] h e = ground (arith, equal_fold_sym w v)
has_fold-concat w v (x ∷ ws) h e = ground (arith, has_fold-concat w v ws)

Distinct-concat :
    (v : Text) (vs : List Text) → Distinct vs → has_fold v vs ≡ false → Distinct (vs ++ v ∷ [])
unfolding has_fold
Distinct-concat v [] d h = (refl, tt)
Distinct-concat v (w ∷ ws) d h =
    (has_fold-concat w v ws d.0 (ground arith), Distinct-concat v ws d.1 (ground arith))

length-positive_of_has_fold : (v : Text) (vs : List Text) → has_fold v vs ≡ true → 0 < length vs
unfolding has_fold
length-positive_of_has_fold v [] h = cc
length-positive_of_has_fold v (w ∷ ws) h = omega arith

-- The values of a field before a new one comes.
abbrev earlier : Option (List Text) → List Text
earlier o = elim o [ none ↦ [] | some vs ↦ vs ]

append_unique-Distinct :
    (v : Text) (vs : List Text)
    → Distinct vs
    → (0 < length (append_unique vs v)) × Distinct (append_unique vs v)
unfolding append_unique has_fold
append_unique-Distinct v vs d = elim (Bool-cases (has_fold v vs)) [
  | inl e ↦ rw (append_unique, e) (length-positive_of_has_fold v vs e, d)
  | inr e ↦
      rw (append_unique, e) (omega (arith, length-append vs (v ∷ [])), Distinct-concat v vs d e)
]

Proper-append_unique :
    (key v : Text) (o : Option (List Text))
    → holds key multi_valued ≡ true
    → ProperIn key o
    → Proper key (append_unique (earlier o) v)
Proper-append_unique key v none m d = rw (m, Proper) (append_unique-Distinct v [] tt)
Proper-append_unique key v (some vs) m d =
    let p : (0 < length vs) × Distinct vs = rw (m, Proper) at d in
    rw (m, Proper) (append_unique-Distinct v vs p.1)

Proper-one : (key v : Text) → Proper key (v ∷ [])
unfolding has_fold
Proper-one key v = elim (Bool-cases (holds key multi_valued)) [
  | inl m ↦ rw (m, Proper) (omega arith, (refl, tt))
  | inr m ↦ rw (m, Proper) refl
]

-- A field that is set has what is stored, and the others have what they had.
insert-Proper :
    (key : Text) (vs : List Text) (fields : Fields) (k : Text)
    → Proper key vs
    → ProperIn k (lookup k fields)
    → ProperIn k (lookup k (insert key vs fields))
insert-Proper key vs fields k p h = elim (Bool-cases (text_eq key k)) [
  | inl e ↦
      subst (λ (j : Text). ProperIn j (lookup j (insert key vs fields))) ((text_eq_iff key k).0 e)
        (rw (lookup-insert_self key vs fields) p)
  | inr e ↦ rw (lookup-insert key k vs fields, e) h
]

abbrev pub WellFormed : Fields → Type 0
WellFormed fields = (key : Text) → ProperIn key (lookup key fields)

record_value-WellFormed :
    (key value : Text) (fields : Fields)
    → WellFormed fields
    → WellFormed (record_value key value fields)
unfolding record_value
record_value-WellFormed key value fields h k = elim (Bool-cases (is_empty value)) [
  | inl e ↦ rw (record_value, e) (h k)
  | inr e ↦ elim (Bool-cases (holds key multi_valued)) [
    | inl m ↦
        let vs = append_unique (values_of key fields) value in
        rw (record_value, e, m)
          (insert-Proper key vs fields k
            (Proper-append_unique key value (lookup key fields) m (h key)) (h k))
    | inr m ↦ elim (Option-cases (lookup key fields)) [
      | inl n ↦
          rw (record_value, e, m, n)
            (insert-Proper key (value ∷ []) fields k (Proper-one key value) (h k))
      | inr (vs, n) ↦ rw (record_value, e, m, n) (h k)
    ]
  ]
]

-- What each recorded value keeps, the loop keeps.
module _ {ℓ} (P : Fields → Type ℓ)
    (keep : (key value : Text) (fields : Fields)
      → P fields
      → P (record_value key value fields)) where
  record_all-keeps :
      (key : Text) (vs : List Text) (fields : Fields) → P fields → P (record_all key vs fields)
  unfolding record_all
  record_all-keeps key [] fields h = h
  record_all-keeps key (v ∷ vs) fields h =
      record_all-keeps key vs (record_value key v fields) (keep key v fields h)

  read_field-keeps :
      (tpl : Template) (label value : Text) (rest : List Text) (p : Collected)
      → P p.fields
      → P (read_field tpl label value rest p).0.fields
  unfolding read_field
  read_field-keeps tpl label value rest p h =
      let key = canonical label tpl in
      if_cases (λ (r : Collected × ℕ). P r.0.fields) (is_empty key) _ _
        (λ e. if_cases (λ (q : Collected). P q.fields) (is_prose_label label) _ _ (λ q. h) (λ q. h))
        (λ e.
          if_cases (λ (r : Collected × ℕ). P r.0.fields) (is_empty value) _ _
            (λ q. record_all-keeps key (continuation_values rest).0 p.fields h)
            (λ q. keep key value p.fields h))

  read_line-keeps :
      (tpl : Template) (line : Text) (rest : List Text) (p : Collected)
      → P p.fields
      → P (read_line tpl line rest p).0.fields
  unfolding read_line
  read_line-keeps tpl line rest p h = elim (Option-cases (split_line line)) [
    | inl e ↦ rw (read_line, e) h
    | inr ((label, value), e) ↦ rw (read_line, e) (read_field-keeps tpl label value rest p h)
  ]

  read_lines-keeps :
      (tpl : Template) (skip : ℕ) (lines : List Text) (p : Collected)
      → P p.fields
      → P (read_lines tpl skip lines p).fields
  unfolding read_lines
  read_lines-keeps tpl skip [] p h = h
  read_lines-keeps tpl (suc skip) (line ∷ rest) p h = read_lines-keeps tpl skip rest p h
  read_lines-keeps tpl zero (line ∷ rest) p h =
      let (p', consumed) = read_line tpl line rest p in
      read_lines-keeps tpl consumed rest p' (read_line-keeps tpl line rest p h)

-- Whatever lines are read, a field that holds values holds one, or, where it may have several,
-- values that differ up to case.
pub read_lines-WellFormed :
    (tpl : Template) (skip : ℕ) (lines : List Text) (p : Collected)
    → WellFormed p.fields
    → WellFormed (read_lines tpl skip lines p).fields
read_lines-WellFormed = read_lines-keeps WellFormed record_value-WellFormed

record_value-first :
    (k : Text) (vs : List Text)
    → holds k multi_valued ≡ false
    → (key value : Text) (fields : Fields) → lookup k fields ≡ some vs
    → lookup k (record_value key value fields) ≡ some vs
unfolding record_value
record_value-first k vs s key value fields h = elim (Bool-cases (text_eq key k)) [
  | inl e ↦
      subst (λ (j : Text). lookup k (record_value j value fields) ≡ some vs)
        (sym ((text_eq_iff key k).0 e))
        (if_cases (λ (f : Fields). lookup k f ≡ some vs) (is_empty value) _ _ (λ q. h)
          (λ q. rw (s, h) h))
  | inr e ↦ ground (
    arith,
    lookup-insert key k (append_unique (values_of key fields) value) fields,
    lookup-insert key k (value ∷ []) fields,
  )
]

-- A field that has one value keeps the first that the response gives it, whatever lines follow.
pub read_lines-first :
    (tpl : Template) (skip : ℕ) (lines : List Text) (p : Collected) (k : Text) (vs : List Text)
    → holds k multi_valued ≡ false
    → lookup k p.fields ≡ some vs
    → lookup k (read_lines tpl skip lines p).fields ≡ some vs
read_lines-first tpl skip lines p k vs s h =
    read_lines-keeps (λ (fields : Fields). lookup k fields ≡ some vs) (record_value-first k vs s)
      tpl skip lines p h
