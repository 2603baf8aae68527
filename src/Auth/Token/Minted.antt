-- ===== src/Auth/Token/Minted.antt =====
-- internal/auth/token.go: a minted token is accepted until its expiry, and never after.
use mathlib.Core.List.{append_assoc}
use whois_mcp.Prelude.{
  ℕ, ◌+◌, ◌*◌, ◌/◌, ◌≡◌, ◌∙◌, ap, List, [], ◌∷◌, ◌++◌, Text, text_eq, text_eq_refl, text_eq_iff,
  is_empty→eq, split_on, split_on-append, split_on-Lacks, arith, ok, err, ltb, if◌then◌else◌,
}
use whois_mcp.Auth.Token.{
  Codec, IsCodec, IsIssuer, IsSid, read_back, Issuer, Claims, Header, expired, verify, check_claims,
  eddsa, jwt, second, access_token_ttl, mint, sign, claims_for,
}
use whois_mcp.Auth.Keyring.{KeyPair, verifier}

module _ (c : Codec) (law : IsCodec c) (i : Issuer) (pair : IsIssuer c i) where
  abbrev header_of : KeyPair → Header
  header_of kp = record { alg = eddsa; typ = jwt; kid = kp.id }

  abbrev head_of : Text
  head_of = c.b64 (c.marshal_header (header_of i.keys.active))

  abbrev payload_of : Claims → Text
  payload_of k = c.b64 (c.marshal_claims k)

  abbrev signature_of : Claims → Text
  signature_of k = c.sign i.keys.active.private (head_of ++ b'.' ∷ payload_of k)

  split-sign :
      (k : Claims)
      → split_on b'.' (sign c i.keys.active k)
        ≡ head_of ∷ payload_of k ∷ c.b64 (signature_of k) ∷ []
  unfolding sign
  split-sign k =
      ap (split_on b'.')
        (append_assoc head_of (b'.' ∷ payload_of k) (b'.' ∷ c.b64 (signature_of k)))
      ∙ split_on-append b'.' head_of _ (law.b64_lacks_dot _)
      ∙ ap (◌∷◌ head_of) (
          split_on-append b'.' (payload_of k) _ (law.b64_lacks_dot _)
          ∙ ap (◌∷◌ (payload_of k)) (split_on-Lacks b'.' _ (law.b64_lacks_dot _)))

  -- The signed claims are read back, and only their own checks are left.
  verify-sign :
      (k : Claims) (now : ℕ)
      → verify c i (sign c i.keys.active k) now ≡ check_claims i now (read_back c k)
  unfolding verify verifier text_eq
  verify-sign k now =
      let alg =
        law.mend_ascii eddsa
          (omega arith, (omega arith, (omega arith, (omega arith, (omega arith, tt))))) in
      let typ = law.mend_ascii jwt (omega arith, (omega arith, (omega arith, tt))) in
      rw (split-sign k) (
        simp (
          law.decode-b64, law.unmarshal-header, law.unmarshal-claims, alg, typ, pair.kid,
          text_eq_refl, pair.signs,
        ))

  module _ (sid label : Text) (granted : List Text) (jti : Text) (at : ℕ) where
    check_claims-mint :
        (now : ℕ)
        → IsSid c sid
        → check_claims i now (read_back c (claims_for i sid label granted jti at)) ≡ (
            if ltb ((at + access_token_ttl) / second * second) now
            then err expired
            else ok (read_back c (claims_for i sid label granted jti at)))
    unfolding check_claims
    check_claims-mint now (named, kept) = ground (
      arith,
      pair.audience,
      pair.issuer,
      text_eq_iff (c.mend i.audience) i.audience,
      text_eq_iff (c.mend i.issuer) i.issuer,
      is_empty→eq (c.mend sid),
    )

    -- A token minted for a session is accepted up to the end of the last whole second of its ten
    -- minutes, with the claims it was minted with as JSON gives them back, which replaces invalid
    -- UTF-8 in a string; from then on it is refused as expired. The names of the issuer, its resource,
    -- its key and the session are valid UTF-8; the label, the scopes and the token's id are any.
    pub verify-mint :
        (now : ℕ)
        → IsSid c sid
        → verify c i (mint c i sid label granted jti at).0 now ≡ (
            if ltb ((at + access_token_ttl) / second * second) now
            then err expired
            else ok (read_back c (mint c i sid label granted jti at).1))
    unfolding mint
    verify-mint now named = verify-sign _ now ∙ check_claims-mint now named
