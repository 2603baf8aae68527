-- ===== src/Resolve/Availability/Batch.antt =====
-- internal/resolve/availability.go: a batch gives each entry the answer of the first entry with its
-- key, and asks once for each key.
use whois_mcp.Prelude.{
  ℕ, zero, suc, ◌+◌, min, false, Bool-cases, Option, none, some, Option-cases, List, [], ◌∷◌, Text,
  is_empty, is_empty→eq, text_eq, text_eq_iff, Dict, lookup, lookup-insert, get_elem?, take, length,
  ◌==◌, ==_iff, ◌≡◌, refl, ap, sym, subst, ◌∙◌, inl, inr, arith, if◌then◌else◌,
}
use whois_mcp.Resolve.Availability.{
  Availability, max_batch, batch_key, note_first, firsts, dispatched, dispatch, filled, fill,
  check_availability,
}

-- The first index, from `i` on, at which the key stands.
abbrev pub index_of : Text → ℕ → List Text → Option ℕ
index_of key i [] = none
index_of key i (d ∷ ds) = if text_eq (batch_key d) key then some i else index_of key (suc i) ds

abbrev or_later : Option ℕ → Option ℕ → Option ℕ
or_later none o = o
or_later (some j) o = some j

lookup-note_first :
    (key k : Text) (i : ℕ) (first : Dict ℕ)
    → is_empty key ≡ false
    → lookup key (note_first k i first)
      ≡ or_later (lookup key first) (if text_eq k key then some i else none)
lookup-note_first key k i first n = ground (arith, text_eq_iff k key, lookup-insert k key i first)

-- The empty key never gets an index.
lookup-firsts_empty :
    (i : ℕ) (ds : List Text) (first : Dict ℕ)
    → lookup [] first ≡ none
    → lookup [] (firsts i ds first) ≡ none
unfolding firsts
lookup-firsts_empty i [] first h = h
lookup-firsts_empty i (d ∷ ds) first h =
    lookup-firsts_empty (suc i) ds (note_first (batch_key d) i first)
      (ground (arith, text_eq_iff (batch_key d) [], lookup-insert (batch_key d) [] i first))

lookup-firsts :
    (key : Text) (i : ℕ) (ds : List Text) (first : Dict ℕ)
    → is_empty key ≡ false
    → lookup key (firsts i ds first) ≡ or_later (lookup key first) (index_of key i ds)
unfolding firsts
lookup-firsts key i [] first n = elim (Option-cases (lookup key first)) [
  | inl e ↦ rw e refl
  | inr (j, e) ↦ rw e refl
]
lookup-firsts key i (d ∷ ds) first n = ground (
  arith,
  lookup-note_first key (batch_key d) i first,
  lookup-firsts key (suc i) ds (note_first (batch_key d) i first),
)

-- The entry that an index names.
index_of-get :
    (key : Text) (i : ℕ) (ds : List Text) (j : ℕ)
    → index_of key i ds ≡ some j
    → (n : ℕ) × (d : Text) × (j ≡ i + n) × (get_elem? ds n ≡ some d) × (batch_key d ≡ key)
index_of-get key i [] j h = cc
index_of-get key i (d ∷ ds) j h = elim (Bool-cases (text_eq (batch_key d) key)) [
  | inl e ↦ (0, d, ground arith, refl, (text_eq_iff (batch_key d) key).0 e)
  | inr e ↦
      let (n, d', p, g, k) = index_of-get key (suc i) ds j (rw e at h) in
      (suc n, d', omega arith, g, k)
]

get-dispatch :
    (answer : ℕ → Text → Availability) (now i : ℕ) (ds : List Text) (first : Dict ℕ) (n : ℕ)
    (d : Text)
    → get_elem? ds n ≡ some d
    → get_elem? (dispatch answer now i ds first) n
      ≡ some (dispatched answer d now (i + n) (lookup (batch_key d) first))
unfolding dispatch
get-dispatch answer now i [] first n d h = cc
get-dispatch answer now i (d' ∷ ds) first zero d h =
    let p : i + 0 ≡ i = omega arith in let q : d' ≡ d = (cc) in rw (p, q) refl
get-dispatch answer now i (d' ∷ ds) first (suc n) d h =
    let p : i + suc n ≡ suc i + n = omega arith in
    rw p (get-dispatch answer now (suc i) ds first n d h)

get-fill :
    (out : List Availability) (i : ℕ) (ds : List Text) (entries : List Availability)
    (first : Dict ℕ) (n : ℕ) (d : Text) (a : Availability)
    → get_elem? ds n ≡ some d
    → get_elem? entries n ≡ some a
    → get_elem? (fill out i ds entries first) n
      ≡ some (filled out a (i + n) (lookup (batch_key d) first))
unfolding fill
get-fill out i [] entries first n d a h k = cc
get-fill out i (d' ∷ ds) [] first n d a h k = cc
get-fill out i (d' ∷ ds) (x ∷ entries) first zero d a h k =
    let p : i + 0 ≡ i = omega arith in
    let q : d' ≡ d = (cc) in let w : x ≡ a = (cc) in rw (p, q, w) refl
get-fill out i (d' ∷ ds) (x ∷ entries) first (suc n) d a h k =
    let p : i + suc n ≡ suc i + n = omega arith in
    rw p (get-fill out (suc i) ds entries first n d a h k)

get-dispatch_all :
    (answer : ℕ → Text → Availability) (now : ℕ) (ds : List Text) (first : Dict ℕ) (n : ℕ)
    (d : Text)
    → get_elem? ds n ≡ some d
    → get_elem? (dispatch answer now 0 ds first) n
      ≡ some (dispatched answer d now n (lookup (batch_key d) first))
get-dispatch_all answer now ds first n d h =
    let p : 0 + n ≡ n = omega arith in
    subst
      (λ (i : ℕ).
        get_elem? (dispatch answer now 0 ds first) n
        ≡ some (dispatched answer d now i (lookup (batch_key d) first)))
      p (get-dispatch answer now 0 ds first n d h)

get-fill_all :
    (out : List Availability) (ds : List Text) (entries : List Availability) (first : Dict ℕ)
    (n : ℕ) (d : Text) (a : Availability)
    → get_elem? ds n ≡ some d
    → get_elem? entries n ≡ some a
    → get_elem? (fill out 0 ds entries first) n ≡ some (filled out a n (lookup (batch_key d) first))
get-fill_all out ds entries first n d a h k =
    let p : 0 + n ≡ n = omega arith in
    subst
      (λ (i : ℕ).
        get_elem? (fill out 0 ds entries first) n
        ≡ some (filled out a i (lookup (batch_key d) first)))
      p (get-fill out 0 ds entries first n d a h k)

-- The entry as a check of each name on its own gives it: that of the first entry with its key.
abbrev at_first : (ℕ → Text → Availability) → List Text → Availability → Option ℕ → Availability
at_first answer ds own none = own
at_first answer ds own (some j) = elim (get_elem? ds j) [ none ↦ own | some d ↦ answer j d ]

abbrev pub canonical : (ℕ → Text → Availability) → List Text → ℕ → Text → Availability
canonical answer ds n d =
    if is_empty (batch_key d)
    then answer n d
    else at_first answer ds (answer n d) (index_of (batch_key d) 0 ds)

lookup_nil : (key : Text) → lookup {V = ℕ} key [] ≡ none
unfolding lookup
lookup_nil key = refl

module _ (answer : ℕ → Text → Availability) (now : ℕ) (ds : List Text) where
  -- The entry at index `n`, once the duplicates are filled in, by the first index of its key.
  abbrev entry : ℕ → Text → Option ℕ → Availability
  entry n d o = filled (dispatch answer now 0 ds (firsts 0 ds [])) (dispatched answer d now n o) n o

  lookup-firsts_nil :
      (key : Text) → is_empty key ≡ false → lookup key (firsts 0 ds []) ≡ index_of key 0 ds
  lookup-firsts_nil key e =
      lookup-firsts key 0 ds [] e
      ∙ ap (λ (o : Option ℕ). or_later o (index_of key 0 ds)) (lookup_nil key)

  dispatched_self : (d : Text) (n : ℕ) → dispatched answer d now n (some n) ≡ answer n d
  dispatched_self d n = ground arith

  entry-first :
      (n : ℕ) (d : Text) (j : ℕ)
      → is_empty (batch_key d) ≡ false
      → get_elem? ds n ≡ some d
      → index_of (batch_key d) 0 ds ≡ some j
      → entry n d (some j) ≡ at_first answer ds (answer n d) (some j)
  entry-first n d j e h f =
      let (n', d', p, g, k) = index_of-get (batch_key d) 0 ds j f in
      let q : n' ≡ j = omega arith in
      let g' : get_elem? ds j ≡ some d' = subst (λ (x : ℕ). get_elem? ds x ≡ some d') q g in
      elim (Bool-cases (j == n)) [
        | inl w ↦
            let v : j ≡ n = (==_iff j n).0 w in
            let hj : get_elem? ds j ≡ some d = rw v h in
            rw (w, hj, at_first) (ap (λ (m : ℕ). answer m d) (sym v))
        | inr w ↦
            let first = firsts 0 ds [] in
            let found : lookup (batch_key d') first ≡ some j =
              rw k (lookup-firsts_nil (batch_key d) e ∙ f) in
            let out : get_elem? (dispatch answer now 0 ds first) j ≡ some (answer j d') =
              get-dispatch_all answer now ds first j d' g'
              ∙ ap (λ (o : Option ℕ). some (dispatched answer d' now j o)) found
              ∙ ap (λ (a : Availability). some a) (dispatched_self d' j) in
            rw (w, out, g', at_first) refl
      ]

  entry-canonical :
      (n : ℕ) (d : Text)
      → get_elem? ds n ≡ some d
      → entry n d (lookup (batch_key d) (firsts 0 ds [])) ≡ canonical answer ds n d
  entry-canonical n d h =
      let key = batch_key d in
      elim (Bool-cases (is_empty key)) [
        | inl e ↦
            let none_found : lookup key (firsts 0 ds []) ≡ none =
              rw (is_empty→eq key e) (lookup-firsts_empty 0 ds [] (lookup_nil [])) in
            rw (none_found, e) refl
        | inr e ↦ elim (Option-cases (index_of key 0 ds)) [
          | inl f ↦ rw (lookup-firsts_nil key e, f, e) refl
          | inr (j, f) ↦ rw (lookup-firsts_nil key e, f, e) (entry-first n d j e h f)
        ]
      ]

length-dispatch :
    (answer : ℕ → Text → Availability) (now i : ℕ) (ds : List Text) (first : Dict ℕ)
    → length (dispatch answer now i ds first) ≡ length ds
unfolding dispatch
length-dispatch answer now i [] first = refl
length-dispatch answer now i (d ∷ ds) first = ap suc (length-dispatch answer now (suc i) ds first)

length-fill :
    (out : List Availability) (i : ℕ) (ds : List Text) (entries : List Availability)
    (first : Dict ℕ)
    → length entries ≡ length ds
    → length (fill out i ds entries first) ≡ length ds
unfolding fill
length-fill out i [] entries first h = refl
length-fill out i (d ∷ ds) [] first h = omega (arith, h)
length-fill out i (d ∷ ds) (a ∷ entries) first h =
    ap suc (length-fill out (suc i) ds entries first (omega (arith, h)))

length-take : {A : Type 0} (n : ℕ) (xs : List A) → length (take n xs) ≡ min n (length xs)
length-take zero xs = omega arith
length-take (suc n) [] = omega arith
length-take (suc n) (x ∷ xs) = omega (arith, length-take n xs)

-- A batch answers the first fifty of its domains, one entry for each, and the entry of a domain is what
-- the check of the first domain with the same key answered.
pub check_availability-canonical :
    (answer : ℕ → Text → Availability) (now : ℕ) (domains : List Text) (n : ℕ) (d : Text)
    → get_elem? (take max_batch domains) n ≡ some d
    → (length (check_availability answer now domains) ≡ min max_batch (length domains))
      × (get_elem? (check_availability answer now domains) n
          ≡ some (canonical answer (take max_batch domains) n d))
unfolding check_availability
check_availability-canonical answer now domains n d h =
    let ds = take max_batch domains in
    let first = firsts 0 ds [] in
    let out = dispatch answer now 0 ds first in
    (
      length-fill out 0 ds out first (length-dispatch answer now 0 ds first)
          ∙ length-take max_batch domains,
      get-fill_all out ds out first n d (dispatched answer d now n (lookup (batch_key d) first)) h
            (get-dispatch_all answer now ds first n d h)
          ∙ ap (λ (a : Availability). some a) (entry-canonical answer now ds n d h),
    )
