-- ===== src/Cache/Lookup.antt =====
-- internal/cache/cache.go: what a reader of the cache gets.
use whois_mcp.Prelude.{
  ℕ, ◌+◌, ◌≤◌, ◌≡◌, ◌⊎◌, refl, Option, none, some, List, [], ◌∷◌, Text, text_eq, text_eq_iff,
  lookup, lookup-insert, lookup-delete, lookup-delete_if, arith, ◌==◌, if◌then◌else◌, inl,
}
use whois_mcp.Cache.{Entry, Memory, is_expired, get, get_across, set, remove, sweep}

-- The calls on the cache, each with its time.
pub data Call {ℓ} (V : Type ℓ) : Type ℓ where
  gets removes : Text → ℕ → Call V
  sets : Text → V → ℕ → ℕ → Call V
  sweeps : ℕ → Call V

module _ {ℓ} {V : Type ℓ} where
  -- What a reader sees of an entry.
  abbrev pub visible : ℕ → Option (Entry V) → Option V
  visible now none = none
  visible now (some e) = if is_expired now e then none else some e.val

  abbrev pub time_of : Call V → ℕ
  time_of (gets key now) = now
  time_of (removes key now) = now
  time_of (sets key val ttl now) = now
  time_of (sweeps now) = now

  unfoldable pub step : Memory V → Call V → Memory V
  step m (gets key now) = (get m key now).0
  step m (removes key now) = remove m key
  step m (sets key val ttl now) = set m key val ttl now
  step m (sweeps now) = sweep m now

  unfoldable pub run : Memory V → List (Call V) → Memory V
  run m [] = m
  run m (c ∷ cs) = run (step m c) cs

  -- The specification: the entry that the last write of a key left, kept for ever.
  abbrev pub spec_step : Text → Option (Entry V) → Call V → Option (Entry V)
  spec_step k e (gets key now) = e
  spec_step k e (removes key now) = if text_eq key k then none else e
  spec_step k e (sets key val ttl now) =
      if ttl == 0
      then e
      else if text_eq key k
      then some (record { val = val; expires_at = now + ttl })
      else e
  spec_step k e (sweeps now) = e

  abbrev pub spec_run : Text → Option (Entry V) → List (Call V) → Option (Entry V)
  spec_run k e [] = e
  spec_run k e (c ∷ cs) = spec_run k (spec_step k e c) cs

  -- The clock does not run backwards, from `from` over the calls up to `now`.
  abbrev pub Ordered : ℕ → List (Call V) → ℕ → Type 0
  Ordered from [] now = from ≤ now
  Ordered from (c ∷ cs) now = (from ≤ time_of c) × Ordered (time_of c) cs now

  -- The stored entry is the specified one, or that one has run out and was dropped.
  abbrev Agrees : ℕ → Option (Entry V) → Option (Entry V) → Type ℓ
  Agrees now stored e = (stored ≡ e) ⊎ ((stored ≡ none) × (visible now e ≡ none))

  visible_later :
      (e : Option (Entry V)) (now later : ℕ)
      → now ≤ later
      → visible now e ≡ none
      → visible later e ≡ none
  visible_later none now later order h = refl
  visible_later (some e) now later order h = ground arith

  step-Agrees :
      (m : Memory V) (k : Text) (e : Option (Entry V)) (c : Call V) (from : ℕ)
      → from ≤ time_of c
      → Agrees from (lookup k m) e
      → Agrees (time_of c) (lookup k (step m c)) (spec_step k e c)
  unfolding step get remove set sweep
  step-Agrees m k e (gets key now) from order v =
      ground (arith, lookup-delete key k m, text_eq_iff key k, visible_later e from now)
  step-Agrees m k e (removes key now) from order v =
      ground (arith, lookup-delete key k m, visible_later e from now)
  step-Agrees m k e (sets key val ttl now) from order v = ground (
    arith,
    lookup-insert key k (record { val = val; expires_at = now + ttl }) m,
    visible_later e from now,
  )
  step-Agrees m k e (sweeps now) from order v =
      ground (arith, lookup-delete_if (is_expired now) k m, visible_later e from now)

  run-Agrees :
      (m : Memory V) (k : Text) (e : Option (Entry V)) (cs : List (Call V)) (from now : ℕ)
      → Ordered from cs now
      → Agrees from (lookup k m) e
      → Agrees now (lookup k (run m cs)) (spec_run k e cs)
  unfolding run
  run-Agrees m k e [] from now order v = ground (arith, visible_later e from now)
  run-Agrees m k e (c ∷ cs) from now order v =
      run-Agrees (step m c) k (spec_step k e c) cs (time_of c) now order.1
        (step-Agrees m k e c from order.0 v)

  get_of_Agrees :
      (m : Memory V) (k : Text) (e : Option (Entry V)) (now : ℕ)
      → Agrees now (lookup k m) e
      → (get m k now).1 ≡ visible now e
  unfolding get
  get_of_Agrees m k e now v = ground arith

  -- Eviction, on reads and by sweeps, cannot be observed: after any calls in the order of time, a
  -- read returns the value of the last write of the key if that has not run out, and nothing else.
  pub get-run :
      (k : Text) (cs : List (Call V)) (now : ℕ)
      → Ordered 0 cs now
      → (get (run [] cs) k now).1 ≡ visible now (spec_run k none cs)
  unfolding lookup
  get-run k cs now order =
      get_of_Agrees (run [] cs) k (spec_run k none cs) now
        (run-Agrees [] k none cs 0 now order (inl refl))

  -- A read drops no entry that is in force when it takes the write lock, whatever other calls came
  -- between its two sections; and it touches no other key.
  pub get_across_keeps :
      (m m' : Memory V) (key k : Text) (now later : ℕ) (e : Entry V)
      → lookup k m' ≡ some e
      → later ≤ e.expires_at
      → lookup k (get_across m m' key now later).0 ≡ some e
  unfolding get_across
  get_across_keeps m m' key k now later e found alive =
      ground (arith, lookup-delete key k m', text_eq_iff key k)
