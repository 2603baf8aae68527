-- ===== src/Auth/Token/Accepted.antt =====
-- internal/auth/token.go: what an accepted token has passed.
use whois_mcp.Prelude.{
  ℕ, ◌≤◌, ◌*◌, ◌≡◌, ◌≢◌, refl, true, some, List, [], ◌∷◌, ◌++◌, Text, text_eq_iff, text_eq,
  split_on, arith, ok, or_fail_ok, require_ok, ap, ◌∙◌,
}
use whois_mcp.Auth.Token.{
  Codec, Issuer, Claims, Header, verify, verify_parts, verify_signature, verify_payload,
  check_header, three_parts, check_claims, malformed, bad_signature, eddsa, second,
}
use whois_mcp.Auth.Keyring.{verifier}

module _ (i : Issuer) (now : ℕ) where
  -- The claims are those of this server for this resource, in force, and name a session.
  pub record InForce (k : Claims) : Type 0 where
    pub audience : k.audience ≡ i.audience
    pub issuer : k.issuer ≡ i.issuer
    pub expires : now ≤ k.expires * second
    pub session : k.sid ≢ []

  check_claims-InForce : (k k' : Claims) → check_claims i now k ≡ ok k' → (k ≡ k') × InForce k'
  unfolding check_claims
  check_claims-InForce k k' h =
      ground (arith, text_eq_iff k.audience i.audience, text_eq_iff k.issuer i.issuer)

-- The segments that a token was made of, and the known key that signed them.
pub record SignedBy (c : Codec) (i : Issuer) (token : Text) (k : Claims) : Type 0 where
  pub head : Text
  pub payload : Text
  pub signature : Text
  pub segments : split_on b'.' token ≡ head ∷ payload ∷ signature ∷ []
  pub raw_header : Text
  pub header : Header
  pub header_decoded : c.decode head ≡ some raw_header
  pub header_parsed : c.unmarshal_header raw_header ≡ some header
  pub algorithm : header.alg ≡ eddsa
  pub key : Text
  pub key_known : verifier i.keys header.kid ≡ some key
  pub raw_signature : Text
  pub signature_decoded : c.decode signature ≡ some raw_signature
  pub signed : c.verify key (head ++ b'.' ∷ payload) raw_signature ≡ true
  pub raw_claims : Text
  pub claims_decoded : c.decode payload ≡ some raw_claims
  pub claims_parsed : c.unmarshal_claims raw_claims ≡ some k

module _ (c : Codec) (i : Issuer) (now : ℕ) where
  check_header_ok :
      (p0 p1 p2 : Text) (h : Header) (k : Claims)
      → check_header c i now p0 p1 p2 h ≡ ok k
      → (text_eq h.alg eddsa ≡ true) × (verify_signature c i now p0 p1 p2 h ≡ ok k)
  unfolding check_header
  check_header_ok p0 p1 p2 h k e = ground arith

  verify_parts_accepted :
      (token p0 p1 p2 : Text) (k : Claims)
      → split_on b'.' token ≡ p0 ∷ p1 ∷ p2 ∷ []
      → verify_parts c i now p0 p1 p2 ≡ ok k
      → SignedBy c i token k × InForce i now k
  unfolding verify_parts verify_signature verify_payload
  verify_parts_accepted token p0 p1 p2 k split h =
      let (rh, d0, h1) = or_fail_ok (c.decode p0) _ _ h in
      let (hd, u0, h2) = or_fail_ok (c.unmarshal_header rh) _ _ h1 in
      let (alg, h4) = check_header_ok p0 p1 p2 hd k h2 in
      let (key, known, h5) = or_fail_ok (verifier i.keys hd.kid) _ _ h4 in
      let (sig, d2, h6) = or_fail_ok (c.decode p2) _ _ h5 in
      let (good, h7) =
        require_ok (c.verify key (p0 ++ b'.' ∷ p1) sig) bad_signature
          (λ _. verify_payload c i now p1) h6 in
      let (rc, d1, h8) = or_fail_ok (c.decode p1) _ _ h7 in
      let (k', u1, h9) = or_fail_ok (c.unmarshal_claims rc) malformed (check_claims i now) h8 in
      let (same, forced) = check_claims-InForce i now k' k h9 in
      (
        record {
          head = p0;
          payload = p1;
          signature = p2;
          segments = split;
          raw_header = rh;
          header = hd;
          header_decoded = d0;
          header_parsed = u0;
          algorithm = (text_eq_iff hd.alg eddsa).0 alg;
          key = key;
          key_known = known;
          raw_signature = sig;
          signature_decoded = d2;
          signed = good;
          raw_claims = rc;
          claims_decoded = d1;
          claims_parsed = u1 ∙ ap some same;
        },
        forced,
      )

  three_parts_accepted :
      (token : Text) (ps : List Text) (k : Claims)
      → split_on b'.' token ≡ ps
      → three_parts c i now ps ≡ ok k
      → SignedBy c i token k × InForce i now k
  three_parts_accepted token (p0 ∷ p1 ∷ p2 ∷ []) k split h =
      verify_parts_accepted token p0 p1 p2 k split h
  three_parts_accepted token _ k split h = cc

  -- Every accepted token is made of three segments that a key of this server's ring has signed, under
  -- the one algorithm, and its claims are for this issuer and this resource, name a session, and have
  -- not expired.
  pub verify_accepted :
      (token : Text) (k : Claims)
      → verify c i token now ≡ ok k
      → SignedBy c i token k × InForce i now k
  unfolding verify
  verify_accepted token k h = three_parts_accepted token _ k refl h
