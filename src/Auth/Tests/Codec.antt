-- ===== src/Auth/Tests/Codec.antt =====
-- A codec that keeps the laws the token code relies on: bytes from the dot on are moved up by one, a
-- structure is its fields with their lengths in front, and a signature is the key before the message.
use whois_mcp.Prelude.{
  ℕ, zero, suc, ◌+◌, ◌-◌, ◌≡◌, refl, sym, ap, Option, none, some, List, [], ◌∷◌, ◌++◌, map, Text,
  text_eq, text_eq_iff, length, take, drop, ltb, if◌then◌else◌, Lacks, arith,
}
use mathlib.Core.Option
use whois_mcp.Auth.Token.{Header, Claims, Codec, IsCodec, Issuer, IsIssuer}

abbrev up : ℕ → ℕ
up c = if ltb c b'.' then c else c + 1

abbrev down : ℕ → ℕ
down c = if ltb c b'.' then c else c - 1

down-up : (s : Text) → map down (map up s) ≡ s
down-up [] = refl
down-up (c ∷ s) = ground (arith, down-up s)

abbrev pack : List Text → Text
pack [] = []
pack (t ∷ ts) = length t ∷ t ++ pack ts

abbrev unpack : ℕ → Text → Option (List Text)
unpack zero s = some []
unpack (suc n) [] = none
unpack (suc n) (l ∷ s) = Option.map (◌∷◌ (take l s)) (unpack n (drop l s))

take-append : (s t : Text) → take (length s) (s ++ t) ≡ s
take-append [] t = refl
take-append (c ∷ s) t = ap (◌∷◌ c) (take-append s t)

drop-append : (s t : Text) → drop (length s) (s ++ t) ≡ t
drop-append [] t = refl
drop-append (c ∷ s) t = drop-append s t

unpack-pack : (ts : List Text) → unpack (length ts) (pack ts) ≡ some ts
unpack-pack [] = refl
unpack-pack (t ∷ ts) = rw (take-append t (pack ts), drop-append t (pack ts), unpack-pack ts) refl

abbrev header_of : List Text → Option Header
header_of (a ∷ t ∷ k ∷ []) = some (record { alg = a; typ = t; kid = k })
header_of _ = none

abbrev claims_of : List Text → Option Claims
claims_of (i ∷ s ∷ a ∷ d ∷ c ∷ (e ∷ t ∷ []) ∷ j ∷ l ∷ []) = some (record {
  issuer = i;
  subject = s;
  audience = a;
  sid = d;
  scope = c;
  expires = e;
  issued_at = t;
  jti = j;
  label = l;
})
claims_of _ = none

abbrev header_fields : Header → List Text
header_fields h = h.alg ∷ h.typ ∷ h.kid ∷ []

abbrev claims_fields : Claims → List Text
claims_fields k =
    k.issuer
    ∷ k.subject
    ∷ k.audience
    ∷ k.sid
    ∷ k.scope
    ∷ (k.expires ∷ k.issued_at ∷ [])
    ∷ k.jti
    ∷ k.label
    ∷ []

abbrev pub codec : Codec
codec = record {
  b64 = map up;
  decode = λ s. some (map down s);
  marshal_header = λ h. pack (header_fields h);
  unmarshal_header = λ s. Option.bind (unpack 3 s) header_of;
  marshal_claims = λ k. pack (claims_fields k);
  unmarshal_claims = λ s. Option.bind (unpack 8 s) claims_of;
  sign = λ key m. key ++ m;
  verify = λ key m s. text_eq s (key ++ m);
  mend = λ s. s;
}

up-Lacks_dot : (s : Text) → Lacks b'.' (map up s)
up-Lacks_dot [] = tt
up-Lacks_dot (c ∷ s) = (ground arith, up-Lacks_dot s)

pub codec-IsCodec : IsCodec codec
unfolding Option.bind
codec-IsCodec = record {
  decode-b64 = λ s. ap some (down-up s);
  b64_lacks_dot = up-Lacks_dot;
  mend_ascii = λ s a. refl;
  unmarshal-header = λ h. ap (λ o. Option.bind o header_of) (unpack-pack (header_fields h));
  unmarshal-claims = λ k. ap (λ o. Option.bind o claims_of) (unpack-pack (claims_fields k));
}

pub codec-IsIssuer : (i : Issuer) → i.keys.active.public ≡ i.keys.active.private → IsIssuer codec i
codec-IsIssuer i same = record {
  signs = λ m. (text_eq_iff _ _).1 (ap (λ (key : Text). key ++ m) (sym same));
  kid = refl;
  issuer = refl;
  audience = refl;
}
