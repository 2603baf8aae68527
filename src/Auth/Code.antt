-- ===== src/Auth/Code.antt =====
-- internal/auth/authcode.go: authorization codes between the redirect and the exchange, PKCE, and
-- the check of redirect targets. The S256 transform (SHA-256 and base64url) and `url.Parse` are
-- parameters; times are nanoseconds.
pub mod SingleUse
use whois_mcp.Prelude.{
  ℕ, ◌+◌, ◌*◌, ◌<◌, Bool, true, false, not, ◌&&◌, ◌||◌, Option, none, some, List, [], ◌∷◌, Text,
  codes as bytes, is_empty, text_eq, Dict, lookup, insert, delete, delete_if, Result, ok, err, ltb,
  leb, ◌==◌, if◌then◌else◌, length, to_lower, trim_space,
}

-- One minute.
abbrev pub auth_code_ttl : ℕ
auth_code_ttl = 60 * 1_000_000_000

pub data CodeError : Type 0 where
  code_unknown pkce_failed redirect_mismatch : CodeError

pub record Code : Type 0 where
  pub code : Text
  pub session_id : Text
  pub label : Text
  pub scopes : List Text
  pub client_id : Text
  pub redirect_uri : Text
  pub challenge : Text
  pub resource : Text
  pub issued_at : ℕ
  pub expires_at : ℕ

abbrev pub CodeStore : Type 0
CodeStore = Dict Code

unfoldable pub new_code_store : CodeStore
new_code_store = []

unfoldable pub sweep : ℕ → CodeStore → CodeStore
sweep now = delete_if (λ c. ltb c.expires_at now)

abbrev pub stamped : Code → Text → ℕ → Code
stamped c code now = record c { code = code; issued_at = now; expires_at = now + auth_code_ttl }

-- `code` is the random identifier that the call draws.
unfoldable pub issue : CodeStore → Code → Text → ℕ → CodeStore
unfolding sweep
issue s c code now = sweep now (insert code (stamped c code now) s)

-- `s256` maps a verifier to its challenge.
unfoldable pub verify_pkce : (Text → Text) → Text → Text → Bool
verify_pkce s256 challenge verifier =
    if is_empty challenge || is_empty verifier
    then false
    else if ltb (length verifier) 43 || ltb 128 (length verifier)
    then false
    else text_eq (s256 verifier) challenge

-- The checks of `Consume` on the code that was found.
unfoldable pub check_code : (Text → Text) → Code → Text → Text → Text → ℕ → Result CodeError Code
unfolding verify_pkce
check_code s256 c verifier redirect_uri client_id now =
    if ltb c.expires_at now
    then err code_unknown
    else if not (is_empty c.client_id)
        && not (is_empty client_id)
        && not (text_eq c.client_id client_id)
    then err code_unknown
    else if not (is_empty c.redirect_uri) && not (text_eq c.redirect_uri redirect_uri)
    then err redirect_mismatch
    else if not (verify_pkce s256 c.challenge verifier)
    then err pkce_failed
    else ok c

unfoldable pub consume :
    (Text → Text) → CodeStore → Text → Text → Text → Text → ℕ → CodeStore × Result CodeError Code
unfolding check_code
consume s256 s code verifier redirect_uri client_id now = elim (lookup code s) [
  | none ↦ (s, err code_unknown)
  | some c ↦ (delete code s, check_code s256 c verifier redirect_uri client_id now)
]

pub data Call : Type 0 where
  issues : Code → Text → ℕ → Call
  consumes : Text → Text → Text → Text → ℕ → Call

unfoldable pub step : (Text → Text) → CodeStore → Call → CodeStore
step s256 s (issues c code now) = issue s c code now
step s256 s (consumes code verifier redirect_uri client_id now) =
    (consume s256 s code verifier redirect_uri client_id now).0

unfoldable pub run : (Text → Text) → CodeStore → List Call → CodeStore
run s256 s [] = s
run s256 s (c ∷ cs) = run s256 (step s256 s c) cs

-- The parts of `*url.URL` that are read.
pub record Url : Type 0 where
  pub scheme : Text
  pub host : Text
  pub hostname : Text
  pub fragment : Text

pub data RedirectError : Type 0 where
  required not_a_uri has_fragment no_host not_loopback not_absolute not_allowed not_private_use :
      RedirectError

unfoldable pub contains_byte : ℕ → Text → Bool
contains_byte c [] = false
contains_byte c (x ∷ s) = x == c || contains_byte c s

unfoldable pub is_loopback_name : Text → Bool
unfolding text_eq
is_loopback_name h =
    text_eq h (bytes "127.0.0.1") || text_eq h (bytes "::1") || text_eq h (bytes "localhost")

unfoldable pub is_script_scheme : Text → Bool
unfolding text_eq
is_script_scheme s =
    text_eq s (bytes "javascript")
    || text_eq s (bytes "data")
    || text_eq s (bytes "vbscript")
    || text_eq s (bytes "file")

-- The switch on the lowercased scheme.
unfoldable pub check_scheme : Text → Url → Result RedirectError (Unit {0})
unfolding is_loopback_name is_script_scheme contains_byte
check_scheme scheme u =
    if text_eq scheme (bytes "https")
    then (if is_empty u.host then err no_host else ok tt)
    else if text_eq scheme (bytes "http")
    then (if is_loopback_name u.hostname then ok tt else err not_loopback)
    else if is_empty scheme
    then err not_absolute
    else if is_script_scheme scheme
    then err not_allowed
    else if contains_byte b'.' scheme
    then ok tt
    else err not_private_use

unfoldable pub validate_redirect_uri : (Text → Option Url) → Text → Result RedirectError (Unit {0})
unfolding check_scheme to_lower trim_space
validate_redirect_uri parse raw =
    if is_empty (trim_space raw) then err required else elim (parse raw) [
      | none ↦ err not_a_uri
      | some u ↦
          if not (is_empty u.fragment) then err has_fragment else check_scheme (to_lower u.scheme) u
    ]
