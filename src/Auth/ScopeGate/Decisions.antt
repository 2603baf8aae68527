-- ===== src/Auth/ScopeGate/Decisions.antt =====
-- internal/auth/scopegate.go: which requests the gate forwards.
use whois_mcp.Prelude.{
  holds, ℕ, ◌≡◌, ◌≢◌, ◌⊎◌, ◌↔◌, ◌∙◌, refl, ap, subst, true, false, ◌||◌, Bool-cases, inl, inr,
  Option, none, some, List, [], ◌∷◌, ◌++◌, Text, codes, is_empty, is_empty→eq, text_eq, text_eq_iff,
  lookup, take, trim_space, All, ◌==◌, arith,
}
use whois_mcp.Auth.Denylist.{TokenInfo, has_scope}
use whois_mcp.Auth.ScopeGate.{
  max_gate_body, ToolScopes, ToolCall, Decoder, Request, forwarded, has_none, trim_blank,
  called_tool, object_tool, tool_name_from_body, required_scope, scope_gate, gate_body, admit_call,
}

-- JSON's white space.
abbrev pub Blank : ℕ → Type 0
Blank c = (c ≡ 32) ⊎ (c ≡ 9) ⊎ (c ≡ 13) ⊎ (c ≡ 10)

-- The body is a JSON object behind white space, which decodes to a call of the tool.
pub record Calls (dec : Decoder) (body tool : Text) : Type 0 where
  pub blanks : Text
  pub members : Text
  pub laid_out : body ≡ blanks ++ (b'{' ∷ members)
  pub only_blanks : All Blank blanks
  pub call : ToolCall
  pub decoded : dec.unmarshal (b'{' ∷ members) ≡ some call
  pub method : call.method ≡ codes "tools/call"
  pub named : trim_space call.name ≡ tool
  pub present : tool ≢ []

-- One of the scopes is the one that is wanted.
pub data HasMember (want : Text) : List Text → Type 0 where
  here : (ss : List Text) → HasMember want (want ∷ ss)
  there : (s : Text) (ss : List Text) → HasMember want ss → HasMember want (s ∷ ss)

-- There is a token, and it has the scope.
abbrev pub Carries : Option TokenInfo → Text → Type 0
Carries none want = ⊥
Carries (some info) want = HasMember want info.scopes

holds→HasMember : (want : Text) (ss : List Text) → holds want ss ≡ true → HasMember want ss
unfolding holds
holds→HasMember want [] h = absurd (ground arith)
holds→HasMember want (s ∷ ss) h = elim (Bool-cases (text_eq s want)) [
  | inl e ↦ subst (λ (x : Text). HasMember x (s ∷ ss)) ((text_eq_iff s want).0 e) (here ss)
  | inr e ↦ there s ss (holds→HasMember want ss (ground arith))
]

HasMember→holds : (want : Text) (ss : List Text) → HasMember want ss → holds want ss ≡ true
unfolding holds
HasMember→holds want _ (here ss) = ground (arith, text_eq_iff want want)
HasMember→holds want _ (there s ss m) = ground (arith, HasMember→holds want ss m)

has_scope-Carries :
    (info : Option TokenInfo) (want : Text) → has_scope info want ≡ true → Carries info want
unfolding has_scope
has_scope-Carries none want h = absurd (ground arith)
has_scope-Carries (some info) want h = holds→HasMember want info.scopes h

Carries-has_scope :
    (info : Option TokenInfo) (want : Text) → Carries info want → has_scope info want ≡ true
unfolding has_scope
Carries-has_scope (some info) want m = HasMember→holds want info.scopes m
Carries-has_scope none want m = absurd m

trim_blank-append :
    (blanks rest : Text) → All Blank blanks → trim_blank (blanks ++ (b'{' ∷ rest)) ≡ b'{' ∷ rest
unfolding trim_blank
trim_blank-append [] rest a = refl
trim_blank-append (c ∷ blanks) rest a = ground (arith, trim_blank-append blanks rest a.1)

trim_blank-splits : (s : Text) → (blanks : Text) × (s ≡ blanks ++ trim_blank s) × All Blank blanks
unfolding trim_blank
trim_blank-splits [] = ([], refl, tt)
trim_blank-splits (c ∷ s) =
    let (blanks, e, a) = trim_blank-splits s in
    elim (Bool-cases (c == b' ' || c == 9 || c == 13 || c == b'\n')) [
      | inl h ↦ (c ∷ blanks, rw (h, trim_blank) (ap (◌∷◌ c) e), (ground arith, a))
      | inr h ↦ ([], rw (h, trim_blank) refl, tt)
    ]

Calls-tool :
    (dec : Decoder) (body tool : Text) → Calls dec body tool → tool_name_from_body dec body ≡ tool
unfolding tool_name_from_body
Calls-tool dec body tool k = ground (
  arith,
  trim_blank-append k.blanks k.members k.only_blanks,
  k.laid_out,
  k.decoded,
  k.named,
  text_eq_iff k.call.method (codes "tools/call"),
  k.method,
)

called_tool-some :
    (o : Option ToolCall)
    → called_tool o ≢ []
    → (call : ToolCall) × (o ≡ some call)
      × (call.method ≡ codes "tools/call")
      × (trim_space call.name ≡ called_tool o)
called_tool-some none p = absurd (p refl)
called_tool-some (some call) p = elim (Bool-cases (text_eq call.method (codes "tools/call"))) [
  | inl e ↦ (call, refl, (text_eq_iff call.method (codes "tools/call")).0 e, rw e refl)
  | inr e ↦ absurd (p (rw e refl))
]

object_tool-Calls :
    (dec : Decoder) (body blanks rest : Text)
    → body ≡ blanks ++ rest
    → All Blank blanks
    → object_tool dec rest ≢ []
    → Calls dec body (object_tool dec rest)
object_tool-Calls dec body blanks [] e a p = absurd (p refl)
object_tool-Calls dec body blanks (c ∷ s) e a p = elim (Bool-cases (c == b'{')) [
  | inr h ↦ absurd (p (rw h refl))
  | inl h ↦
      let brace : c ≡ b'{' = ground arith in
      let (call, decoded, method, named) =
        called_tool-some (dec.unmarshal (c ∷ s)) (λ q. p (rw h q)) in
      record {
        blanks = blanks;
        members = s;
        laid_out = e ∙ ap (λ (x : ℕ). blanks ++ (x ∷ s)) brace;
        only_blanks = a;
        call = call;
        decoded = subst (λ (x : ℕ). dec.unmarshal (x ∷ s) ≡ some call) brace decoded;
        method = method;
        named = rw h named;
        present = p;
      }
]

tool-Calls :
    (dec : Decoder) (body : Text)
    → tool_name_from_body dec body ≢ []
    → Calls dec body (tool_name_from_body dec body)
unfolding tool_name_from_body
tool-Calls dec body p =
    let (blanks, e, a) = trim_blank-splits body in
    object_tool-Calls dec body blanks (trim_blank body) e a p

-- The token has the scope of each tool that the body calls and that the table names.
abbrev pub Permitted : Decoder → ToolScopes → Option TokenInfo → Text → Type 0
Permitted dec scopes info body =
    (tool required : Text)
    → Calls dec body tool
    → lookup tool scopes ≡ some required
    → Carries info required

abbrev pub posted : Text → Request
posted body = record { method = codes "POST"; body = some body }

module _ (dec : Decoder) (scopes : ToolScopes) (url : Text) (info : Option TokenInfo) where
  gate_post :
      (body : Text)
      → has_none scopes ≡ false
      → scope_gate dec scopes url info (posted body) ≡ gate_body dec scopes url info (some body)
  unfolding scope_gate text_eq
  gate_post body filled = rw (scope_gate, filled) refl

  admit_call_iff :
      (body name : Text) (o : Option Text)
      → (admit_call dec url info body name o ≡ forwarded (some body))
        ↔ ((required : Text) → o ≡ some required → has_scope info required ≡ true)
  admit_call_iff body name none = (λ h required e. ground arith, λ p. refl)
  admit_call_iff body name (some required) = elim (Bool-cases (has_scope info required)) [
    | inl e ↦ (λ h other same. ground arith, λ p. rw e refl)
    | inr e ↦ (λ h other same. ground arith, λ p. ground (arith, p required refl))
  ]

  required-Permitted :
      (body : Text)
      → ((required : Text)
          → required_scope scopes (tool_name_from_body dec body) ≡ some required
          → has_scope info required ≡ true)
      → Permitted dec scopes info body
  unfolding required_scope
  required-Permitted body p tool required k listed = has_scope-Carries info required (
      p required (
        rw (Calls-tool dec body tool k) (elim (Bool-cases (is_empty tool)) [
          | inl e ↦ absurd (k.present (is_empty→eq tool e))
          | inr e ↦ rw (e, required_scope) listed
        ])))

  Permitted-required :
      (body : Text)
      → Permitted dec scopes info body
      → (required : Text) → required_scope scopes (tool_name_from_body dec body) ≡ some required
      → has_scope info required ≡ true
  unfolding required_scope
  Permitted-required body p required wants =
      let tool = tool_name_from_body dec body in
      elim (Bool-cases (is_empty tool)) [
        | inl e ↦ absurd (ground arith)
        | inr e ↦
            Carries-has_scope info required
              (p tool required (tool-Calls dec body (λ q. ground arith)) (ground arith))
      ]

  -- A call that is posted goes on to the tools, with its first 2^20 bytes as the body, if and only if
  -- the token has the scope of the tool that those bytes call: where they are a JSON object behind
  -- white space that decodes to a tools/call of a named tool, and the table, which is not empty, has
  -- the tool, one of the token's scopes is the one that the table requires.
  pub scope_gate_forwards_iff :
      (body : Text)
      → has_none scopes ≡ false
      → let seen = take max_gate_body body in
        (scope_gate dec scopes url info (posted body) ≡ forwarded (some seen))
        ↔ Permitted dec scopes info seen
  scope_gate_forwards_iff body filled =
      let seen = take max_gate_body body in
      let name = tool_name_from_body dec seen in
      let (to, from) = admit_call_iff seen name (required_scope scopes name) in
      rw (gate_post body filled)
        (λ h. required-Permitted seen (to h), λ p. from (Permitted-required seen p))
