-- ===== src/Auth/ScopeGate.antt =====
-- internal/auth/scopegate.go, with ScopeChallenge of verifier.go: the per-tool scopes at the HTTP
-- layer. encoding/json is a parameter that reads the method and the tool's name from a body, and
-- the quoting of fmt's %q is one.
pub mod Decisions
use whois_mcp.Prelude.{
  ℕ, Bool, true, false, not, ◌||◌, Option, none, some, List, [], ◌∷◌, ◌++◌, Text, codes, is_empty,
  text_eq, Dict, lookup, trim_space, take, if◌then◌else◌, ◌==◌,
}
use whois_mcp.Auth.Denylist.{TokenInfo, has_scope}

-- 2^20 bytes.
abbrev pub max_gate_body : ℕ
max_gate_body = 1_048_576

-- A tool to the scope that it requires.
abbrev pub ToolScopes : Type 0
ToolScopes = Dict Text

-- The fields that the gate decodes.
pub record ToolCall : Type 0 where
  pub method : Text
  pub name : Text

pub record Decoder : Type 0 where
  pub unmarshal : Text → Option ToolCall
  pub quoted : Text → Text

-- The body is `none` when reading it fails.
pub record Request : Type 0 where
  pub method : Text
  pub body : Option Text

-- `forwarded` has the body that the next handler reads.
pub data Verdict : Type 0 where
  forwarded : Option Text → Verdict
  unreadable : Verdict
  forbidden : Text → Text → Text → Verdict

-- bytes.TrimLeft with the cutset of JSON's white space.
unfoldable pub trim_blank : Text → Text
trim_blank [] = []
trim_blank (c ∷ s) =
    let rest = trim_blank s in if c == b' ' || c == 9 || c == 13 || c == b'\n' then rest else c ∷ s

abbrev pub called_tool : Option ToolCall → Text
called_tool none = []
called_tool (some call) =
    if text_eq call.method (codes "tools/call") then trim_space call.name else []

abbrev pub object_tool : Decoder → Text → Text
object_tool dec [] = []
object_tool dec (c ∷ s) =
    let name = called_tool (dec.unmarshal (c ∷ s)) in if c == b'{' then name else []

-- A batch, which is an array, names no tool.
unfoldable pub tool_name_from_body : Decoder → Text → Text
unfolding trim_blank trim_space
tool_name_from_body dec body = object_tool dec (trim_blank body)

unfoldable pub scope_challenge : Decoder → Text → Text → Text
scope_challenge dec scope url =
    codes "Bearer error=\"insufficient_scope\", error_description=\"this tool requires the "
    ++ (scope
        ++ (codes " scope\", scope="
            ++ (dec.quoted scope ++ (codes ", resource_metadata=" ++ dec.quoted url))))

-- The scope that a call requires; one that names no tool requires none.
unfoldable pub required_scope : ToolScopes → Text → Option Text
unfolding lookup
required_scope scopes name = if is_empty name then none else lookup name scopes

abbrev pub admit_call : Decoder → Text → Option TokenInfo → Text → Text → Option Text → Verdict
admit_call dec url info body name none = forwarded (some body)
admit_call dec url info body name (some required) =
    if has_scope info required
    then forwarded (some body)
    else forbidden name required (scope_challenge dec required url)

abbrev pub gate_body : Decoder → ToolScopes → Text → Option TokenInfo → Option Text → Verdict
gate_body dec scopes url info none = unreadable
gate_body dec scopes url info (some body) =
    let seen = take max_gate_body body in
    let name = tool_name_from_body dec seen in
    admit_call dec url info seen name (required_scope scopes name)

abbrev pub has_none : ToolScopes → Bool
has_none [] = true
has_none (_ ∷ _) = false

unfoldable pub scope_gate : Decoder → ToolScopes → Text → Option TokenInfo → Request → Verdict
unfolding tool_name_from_body required_scope scope_challenge has_scope
scope_gate dec scopes url info r =
    if not (text_eq r.method (codes "POST")) || has_none scopes
    then forwarded r.body
    else gate_body dec scopes url info r.body
