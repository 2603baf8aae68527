-- ===== src/Auth/Token.antt =====
-- internal/auth/token.go: minting and verifying access tokens. Base64, the JSON coding of header and
-- claims, and Ed25519 enter as operations on byte strings (`Codec`); a time is in nanoseconds, and
-- the `exp` and `iat` claims are in whole seconds.
pub mod Accepted
pub mod Minted
use whois_mcp.Prelude.{
  ℕ, ◌+◌, ◌*◌, ◌/◌, ◌<◌, ◌≡◌, ◌≢◌, All, Bool, true, false, not, ◌&&◌, ◌||◌, Option, none, some,
  List, [], ◌∷◌, ◌++◌, Text, codes, is_empty, text_eq, ltb, ◌==◌, if◌then◌else◌, split_on,
  join_with, fields, Result, ok, err, ◌>>=◌, or_fail, require, Lacks,
}
use whois_mcp.Auth.Keyring.{Keyring, KeyPair, verifier}

abbrev pub second : ℕ
second = 1_000_000_000

-- Ten minutes.
abbrev pub access_token_ttl : ℕ
access_token_ttl = 10 * 60 * second

pub data TokenError : Type 0 where
  malformed bad_signature expired wrong_audience wrong_issuer no_such_key : TokenError

pub record Header : Type 0 where
  pub alg : Text
  pub typ : Text
  pub kid : Text

pub record Claims : Type 0 where
  pub issuer : Text
  pub subject : Text
  pub audience : Text
  pub sid : Text
  pub scope : Text
  pub expires : ℕ
  pub issued_at : ℕ
  pub jti : Text
  pub label : Text

-- `Claims.ExpiresAt`.
abbrev pub expires_at : Claims → ℕ
expires_at c = c.expires * second

unfoldable pub scopes : Claims → List Text
scopes c = fields c.scope

-- `mend` is what a string becomes on its way through a JSON document, where encoding/json replaces
-- invalid UTF-8.
pub record Codec : Type 0 where
  pub b64 : Text → Text
  pub decode : Text → Option Text
  pub marshal_header : Header → Text
  pub unmarshal_header : Text → Option Header
  pub marshal_claims : Claims → Text
  pub unmarshal_claims : Text → Option Claims
  pub sign : Text → Text → Text
  pub verify : Text → Text → Text → Bool
  pub mend : Text → Text

-- The claims as they are read from the document that they were written to.
abbrev pub read_back : Codec → Claims → Claims
read_back c k = record k {
  issuer = c.mend k.issuer;
  subject = c.mend k.subject;
  audience = c.mend k.audience;
  sid = c.mend k.sid;
  scope = c.mend k.scope;
  jti = c.mend k.jti;
  label = c.mend k.label;
}

-- What the code relies on: decoding undoes encoding, the encodings of a token have no dot, and a JSON
-- document gives back what was written to it, up to the mending of its strings, which leaves ASCII as
-- it is.
pub record IsCodec (c : Codec) : Type 0 where
  pub decode-b64 : (s : Text) → c.decode (c.b64 s) ≡ some s
  pub b64_lacks_dot : (s : Text) → Lacks b'.' (c.b64 s)
  pub mend_ascii : (s : Text) → All (λ b. b < 128) s → c.mend s ≡ s
  pub unmarshal-header :
      (h : Header)
      → c.unmarshal_header (c.marshal_header h)
        ≡ some (record { alg = c.mend h.alg; typ = c.mend h.typ; kid = c.mend h.kid })
  pub unmarshal-claims :
      (k : Claims) → c.unmarshal_claims (c.marshal_claims k) ≡ some (read_back c k)

pub record Issuer : Type 0 where
  pub keys : Keyring
  pub issuer : Text
  pub audience : Text

-- What an issuer signs verifies, and its names and the key's are valid UTF-8.
pub record IsIssuer (c : Codec) (i : Issuer) : Type 0 where
  pub signs : (m : Text) → c.verify i.keys.active.public m (c.sign i.keys.active.private m) ≡ true
  pub kid : c.mend i.keys.active.id ≡ i.keys.active.id
  pub issuer : c.mend i.issuer ≡ i.issuer
  pub audience : c.mend i.audience ≡ i.audience

-- The identifier of a session, in valid UTF-8.
abbrev pub IsSid : Codec → Text → Type 0
IsSid c sid = (sid ≢ []) × (c.mend sid ≡ sid)

abbrev pub eddsa : Text
eddsa = codes "EdDSA"

abbrev pub jwt : Text
jwt = codes "JWT"

abbrev pub claims_for : Issuer → Text → Text → List Text → Text → ℕ → Claims
claims_for i sid label granted jti now = record {
  issuer = i.issuer;
  subject = sid;
  audience = i.audience;
  sid = sid;
  scope = join_with b' ' granted;
  expires = (now + access_token_ttl) / second;
  issued_at = now / second;
  jti = jti;
  label = label;
}

-- The checks on the claims, after the signature.
unfoldable pub check_claims : Issuer → ℕ → Claims → Result TokenError Claims
check_claims i now k = do
  _ ← require (text_eq k.audience i.audience) wrong_audience
  _ ← require (text_eq k.issuer i.issuer) wrong_issuer
  _ ← require (not (k.expires == 0)) malformed
  _ ← require (not (ltb (expires_at k) now)) expired
  _ ← require (not (is_empty k.sid)) malformed
  ok k

module _ (c : Codec) where
  unfoldable pub sign : KeyPair → Claims → Text
  sign kp k =
      let header : Header = record { alg = eddsa; typ = jwt; kid = kp.id } in
      let signing = c.b64 (c.marshal_header header) ++ b'.' ∷ c.b64 (c.marshal_claims k) in
      signing ++ b'.' ∷ c.b64 (c.sign kp.private signing)

  -- `jti` is the random identifier that the call draws.
  unfoldable pub mint : Issuer → Text → Text → List Text → Text → ℕ → Text × Claims
  unfolding sign
  mint i sid label granted jti now =
      let k = claims_for i sid label granted jti now in (sign i.keys.active k, k)

  -- `Verify` from the decoding of the payload on.
  unfoldable pub verify_payload : Issuer → ℕ → Text → Result TokenError Claims
  unfolding check_claims
  verify_payload i now p1 = do
    raw_claims ← or_fail (c.decode p1) malformed
    k ← or_fail (c.unmarshal_claims raw_claims) malformed
    check_claims i now k

  -- `Verify` from the choice of the key on.
  unfoldable pub verify_signature :
      Issuer → ℕ → Text → Text → Text → Header → Result TokenError Claims
  unfolding verify_payload
  verify_signature i now p0 p1 p2 h = do
    key ← or_fail (verifier i.keys h.kid) no_such_key
    sig ← or_fail (c.decode p2) malformed
    _ ← require (c.verify key (p0 ++ b'.' ∷ p1) sig) bad_signature
    verify_payload i now p1

  unfoldable pub check_header : Issuer → ℕ → Text → Text → Text → Header → Result TokenError Claims
  unfolding verify_signature
  check_header i now p0 p1 p2 h =
      if not (text_eq h.alg eddsa)
      then err malformed
      else if not (is_empty h.typ) && not (text_eq h.typ jwt)
      then err malformed
      else verify_signature i now p0 p1 p2 h

  -- `Verify` on the three segments.
  unfoldable pub verify_parts : Issuer → ℕ → Text → Text → Text → Result TokenError Claims
  unfolding check_header
  verify_parts i now p0 p1 p2 = do
    raw_header ← or_fail (c.decode p0) malformed
    h ← or_fail (c.unmarshal_header raw_header) malformed
    check_header i now p0 p1 p2 h

  abbrev pub three_parts : Issuer → ℕ → List Text → Result TokenError Claims
  three_parts i now (p0 ∷ p1 ∷ p2 ∷ []) = verify_parts i now p0 p1 p2
  three_parts i now _ = err malformed

  unfoldable pub verify : Issuer → Text → ℕ → Result TokenError Claims
  unfolding verify_parts
  verify i token now = three_parts i now (split_on b'.' token)
