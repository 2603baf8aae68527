-- ===== src/Whois/Parsers/Templates.antt =====
-- internal/whois/parsers/templates.go: what a registry does its own way. `dropped` is the empty
-- field name of a label that is recognised and dropped; `Why`, a comment as data, is left out.
mod Table
use whois_mcp.Prelude.{
  Bool, not, ◌&&◌, Option, none, some, List, [], ◌∷◌, ◌++◌, Text, Dict, lookup, codes, is_empty,
  to_lower, trim_space, trim_last, contains, cut_last, if◌then◌else◌,
}
pub use Table.{Template, dropped}
use Table.{templates}

abbrev pub no_template : Template
no_template = record { labels = []; date_layouts = []; not_found = []; registered = [] }

-- The host before its last colon, unless that is the first byte or the host has a bracket.
abbrev without_port : Text → Option (Text × Text) → Text
without_port h none = h
without_port h (some ([], port)) = h
without_port h (some (c ∷ host, port)) = if not (contains (codes "]") h) then c ∷ host else h

unfoldable pub normalize_host_key : Text → Text
unfolding to_lower trim_space trim_last cut_last contains
normalize_host_key host =
    let h = trim_last b'.' (to_lower (trim_space host)) in without_port h (cut_last b':' h)

-- `Lookup`.
unfoldable pub template_for : Text → Option Template
unfolding normalize_host_key templates lookup
template_for host =
    let h = normalize_host_key host in if is_empty h then none else lookup h templates
