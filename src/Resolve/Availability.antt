-- ===== src/Resolve/Availability.antt =====
-- internal/resolve/availability.go: the answers for a batch of domains. The goroutines that share the
-- slots of a batch may run in any order: what `checkOne` answers for the entry at an index is a
-- parameter, `answer`, which every order gives one way or another.
pub mod Batch
use whois_mcp.Prelude.{
  ℕ, zero, suc, ◌+◌, Bool, true, false, not, ◌&&◌, Option, none, some, List, [], ◌∷◌, Text,
  is_empty, to_lower, trim_space, Dict, lookup, insert, get_elem?, take, ◌==◌, Result, ok, err,
  if◌then◌else◌,
}
use whois_mcp.Cache.{Memory}
use whois_mcp.Normalize.Report.{Tristate, undecided, Protocol, DomainReport}
use whois_mcp.Resolve.Lookup.{
  Options, Times, LookupError, Resolver, is_undecided, lookup as lookup_domain,
}

-- A name that is also the type of the parsers' answer: here it is the answer of a batch's entry.
pub record Availability : Type 0 where
  pub domain : Text
  pub registered : Tristate
  pub source : Option Protocol
  pub checked_at : ℕ
  pub cache : Text
  pub warning : Text
  pub error : Option LookupError

abbrev pub max_batch : ℕ
max_batch = 50

abbrev pub blank : Text → ℕ → Availability
blank domain now = record {
  domain = domain;
  registered = undecided;
  source = none;
  checked_at = now;
  cache = [];
  warning = [];
  error = none;
}

abbrev first_warning : List Text → Text
first_warning [] = []
first_warning (w ∷ ws) = w

abbrev cheap : ℕ → Options
cheap max_age = record {
  max_age = max_age;
  include_contacts = false;
  skip_registrar_referral = true;
}

unfoldable pub availability_of : Text → ℕ → Result LookupError DomainReport → Availability
availability_of input now (err e) = record (blank input now) { error = some e }
availability_of input now (ok rep) = record {
  domain = rep.query.ascii;
  registered = rep.registered;
  source = some rep.source.protocol;
  checked_at = rep.source.fetched_at;
  cache = rep.source.cache;
  warning = if is_undecided rep.registered then first_warning rep.warnings else [];
  error = none;
}

-- `checkOne`: `now` is when it starts.
unfoldable pub check_one :
    {U : Type 0} (r : Resolver U)
    → Text
    → ℕ
    → ℕ
    → Times
    → Memory Text × U
    → (Memory Text × U) × Availability
unfolding lookup_domain availability_of
check_one r input max_age now times s =
    let (s', answer) = lookup_domain r input (cheap max_age) times s in
    (s', availability_of input now answer)

unfoldable pub batch_key : Text → Text
unfolding to_lower trim_space
batch_key d = to_lower (trim_space d)

abbrev note_first : Text → ℕ → Dict ℕ → Dict ℕ
note_first key i first =
    if is_empty key
    then first
    else elim (lookup key first) [ some j ↦ first | none ↦ insert key i first ]

-- `first`: the index at which each key stands first, from index `i` on.
unfoldable pub firsts : ℕ → List Text → Dict ℕ → Dict ℕ
unfolding batch_key lookup insert
firsts i [] first = first
firsts i (d ∷ ds) first = firsts (suc i) ds (note_first (batch_key d) i first)

module _ (answer : ℕ → Text → Availability) where
  -- The entry at index `i` is dispatched, unless its key stood before.
  abbrev dispatched : Text → ℕ → ℕ → Option ℕ → Availability
  dispatched d now i none = answer i d
  dispatched d now i (some j) = if j == i then answer i d else blank d now

  unfoldable pub dispatch : ℕ → ℕ → List Text → Dict ℕ → List Availability
  unfolding batch_key lookup
  dispatch now i [] first = []
  dispatch now i (d ∷ ds) first =
      dispatched d now i (lookup (batch_key d) first) ∷ dispatch now (suc i) ds first

-- The duplicates are filled in from the entry at which their key stands first.
abbrev filled : List Availability → Availability → ℕ → Option ℕ → Availability
filled out a i none = a
filled out a i (some j) = if j == i then a else elim (get_elem? out j) [ none ↦ a | some b ↦ b ]

unfoldable pub fill :
    List Availability → ℕ → List Text → List Availability → Dict ℕ → List Availability
unfolding batch_key lookup
fill out i [] as' first = []
fill out i (d ∷ ds) [] first = []
fill out i (d ∷ ds) (a ∷ rest) first =
    filled out a i (lookup (batch_key d) first) ∷ fill out (suc i) ds rest first

unfoldable pub check_availability : (ℕ → Text → Availability) → ℕ → List Text → List Availability
unfolding dispatch firsts fill
check_availability answer now domains =
    let ds = take max_batch domains in
    let first = firsts 0 ds [] in
    let out = dispatch answer now 0 ds first in fill out 0 ds out first
