-- ===== src/Whois/Parsers/Dates.antt =====
-- internal/whois/parsers/dates.go: the dates of a WHOIS response. `time.Parse` is a parameter: a
-- layout and a text give a time, or none. A time is a number of nanoseconds.
use whois_mcp.Prelude.{
  ℕ, Bool, true, false, not, ◌||◌, Option, none, some, List, [], ◌∷◌, map, Text, codes, is_empty,
  trim_space, trim_last, before_any, cut_suffix, contains, ◌==◌, if◌then◌else◌,
}

abbrev date_layouts : List (Text × Bool)
date_layouts =
    (codes "2006-01-02T15:04:05.999999999Z07:00", true)
    ∷ (codes "2006-01-02T15:04:05Z07:00", true)
    ∷ (codes "2006-01-02T15:04:05Z0700", true)
    ∷ (codes "2006-01-02T15:04:05-0700", true)
    ∷ (codes "2006-01-02 15:04:05-07", true)
    ∷ (codes "2006-01-02 15:04:05 MST", true)
    ∷ (codes "02-Jan-2006 15:04:05 MST", true)
    ∷ (codes "2006.01.02 15:04:05", false)
    ∷ (codes "2006-01-02T15:04:05", false)
    ∷ (codes "2006-01-02 15:04:05", false)
    ∷ (codes "2006-01-02 15:04", false)
    ∷ (codes "02-Jan-2006 15:04:05", false)
    ∷ (codes "02-Jan-2006", false)
    ∷ (codes "2-Jan-2006", false)
    ∷ (codes "02 Jan 2006", false)
    ∷ (codes "Mon Jan 2 15:04:05 2006", false)
    ∷ (codes "Mon Jan  2 15:04:05 2006", false)
    ∷ (codes "20060102", false)
    ∷ (codes "2006-01-02", false)
    ∷ (codes "2006/01/02", false)
    ∷ (codes "02.01.2006", false)
    ∷ (codes "02/01/2006", false)
    ∷ (codes "01/02/2006", false)
    ∷ (codes "2006-Jan-02", false)
    ∷ []

abbrev zone_suffixes : List Text
zone_suffixes = map codes (" UTC" ∷ " utc" ∷ " GMT" ∷ " gmt" ∷ " Z" ∷ [])

-- Without the first of the suffixes that ends the text.
unfoldable pub without_zone : List Text → Text → Text
unfolding cut_suffix trim_space
without_zone [] s = s
without_zone (suffix ∷ suffixes) s = elim (cut_suffix suffix s) [
  | none ↦ without_zone suffixes s
  | some t ↦ trim_space t
]

unfoldable pub clean_date : Text → Text
unfolding trim_space before_any trim_last without_zone
clean_date v =
    let s = before_any (λ (c : ℕ). c == b'#') (trim_space v) in
    let t = trim_space (before_any (λ (c : ℕ). c == b'(') s) in
    trim_space (without_zone zone_suffixes (trim_last b',' t))

unfoldable pub has_zone : Text → Bool
unfolding contains
has_zone layout =
    contains (codes "Z") layout || contains (codes "-07") layout || contains (codes "MST") layout

module _ (parse_time : Text → Text → Option ℕ) where
  -- The host's own layouts.
  unfoldable pub by_host_layouts : List Text → Text → Option (ℕ × Bool)
  unfolding has_zone
  by_host_layouts [] s = none
  by_host_layouts (l ∷ ls) s = elim (parse_time l s) [
    | none ↦ by_host_layouts ls s
    | some t ↦ some (t, not (has_zone l))
  ]

  unfoldable pub by_layouts : List (Text × Bool) → Text → Option (ℕ × Bool)
  by_layouts [] s = none
  by_layouts ((l, has_tz) ∷ ls) s = elim (parse_time l s) [
    | none ↦ by_layouts ls s
    | some t ↦ some (t, not has_tz)
  ]

  -- The time, and whether a zone was assumed.
  unfoldable pub parse_date : Text → List Text → Option (ℕ × Bool)
  unfolding clean_date by_host_layouts by_layouts
  parse_date v extra =
      let s = clean_date v in
      if is_empty s
      then none
      else elim (by_host_layouts extra s) [ some r ↦ some r | none ↦ by_layouts date_layouts s ]
