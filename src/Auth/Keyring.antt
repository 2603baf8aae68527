-- ===== src/Auth/Keyring.antt =====
-- internal/auth/keys.go: the keyring's rotation, retirement and verification set.
use whois_mcp.Prelude.{
  ◌≡◌, ◌≢◌, refl, not, ◌&&◌, Option, none, some, List, [], ◌∷◌, ◌++◌, map, Text, is_empty,
  is_empty→eq, text_eq, text_eq_iff, text_eq_refl, if◌then◌else◌, arith, All,
}

-- Keys are byte strings; `id` is the RFC 7638 thumbprint of the public key.
pub record KeyPair : Type 0 where
  pub id : Text
  pub public : Text
  pub private : Text

pub record Keyring : Type 0 where
  pub active : KeyPair
  pub previous : List KeyPair

unfoldable pub new_keyring : KeyPair → Keyring
new_keyring kp = record { active = kp; previous = [] }

unfoldable pub rotate : Keyring → KeyPair → Keyring
rotate k next =
    if not (is_empty k.active.id) && not (text_eq k.active.id next.id)
    then record { active = next; previous = k.previous ++ k.active ∷ [] }
    else record k { active = next }

-- The loop of `Retire`.
unfoldable pub drop_key : Text → List KeyPair → List KeyPair
drop_key kid [] = []
drop_key kid (p ∷ ps) =
    let rest = drop_key kid ps in if not (text_eq p.id kid) then p ∷ rest else rest

unfoldable pub retire : Keyring → Text → Keyring
unfolding drop_key
retire k kid = record k { previous = drop_key kid k.previous }

unfoldable pub find_key : Text → List KeyPair → Option Text
find_key kid [] = none
find_key kid (p ∷ ps) = if text_eq p.id kid then some p.public else find_key kid ps

-- `none` is `ErrNoSuchKey`.
unfoldable pub verifier : Keyring → Text → Option Text
unfolding find_key
verifier k kid = if text_eq kid k.active.id then some k.active.public else find_key kid k.previous

pub record Jwk : Type 0 where
  pub x : Text
  pub kid : Text

unfoldable pub jwk_for : KeyPair → Jwk
jwk_for kp = record { x = kp.public; kid = kp.id }

-- The keys of the JWKS document, active first.
unfoldable pub jwks : Keyring → List Jwk
unfolding jwk_for
jwks k = jwk_for k.active ∷ map jwk_for k.previous

find_key-append_other :
    (kid : Text) (ps : List KeyPair) (p : KeyPair)
    → p.id ≢ kid
    → find_key kid (ps ++ p ∷ []) ≡ find_key kid ps
unfolding find_key
find_key-append_other kid [] p other = ground (arith, text_eq_iff p.id kid)
find_key-append_other kid (q ∷ ps) p other = ground (arith, find_key-append_other kid ps p other)

-- The previous keys under the name of `p` hold the public key of `p`.
abbrev pub AgreeWith : KeyPair → List KeyPair → Type 0
AgreeWith p = All (λ q. q.id ≡ p.id → q.public ≡ p.public)

find_key-append_self :
    (ps : List KeyPair) (p : KeyPair)
    → AgreeWith p ps
    → find_key p.id (ps ++ p ∷ []) ≡ some p.public
unfolding find_key
find_key-append_self [] p agree = rw text_eq_refl refl
find_key-append_self (q ∷ ps) p agree =
    ground (arith, text_eq_iff q.id p.id, agree.0, find_key-append_self ps p agree.1)

-- Publish, then retire: a rotation keeps every key verifiable under its name, but the name of the
-- new key. (A name determines its key, since it is a digest of it.)
pub verifier-rotate :
    (k : Keyring) (next : KeyPair) (kid : Text)
    → k.active.id ≢ []
    → AgreeWith k.active k.previous
    → kid ≢ next.id
    → verifier (rotate k next) kid ≡ verifier k kid
unfolding verifier rotate
verifier-rotate k next kid named agree other = ground (
  arith,
  text_eq_iff kid k.active.id,
  text_eq_iff kid next.id,
  text_eq_iff k.active.id next.id,
  is_empty→eq k.active.id,
  find_key-append_other kid k.previous k.active,
  find_key-append_self k.previous k.active agree,
)

find_key-drop_key :
    (kid j : Text) (ps : List KeyPair)
    → find_key j (drop_key kid ps) ≡ (if text_eq kid j then none else find_key j ps)
unfolding find_key drop_key
find_key-drop_key kid j [] = ground arith
find_key-drop_key kid j (p ∷ ps) =
    ground (
      arith,
      text_eq_iff kid j,
      text_eq_iff p.id kid,
      text_eq_iff p.id j,
      find_key-drop_key kid j ps,
    )

-- Retiring a name removes exactly that name from the verification set, unless it is the active key's.
pub verifier-retire :
    (k : Keyring) (kid j : Text)
    → verifier (retire k kid) j ≡ (
        if text_eq j k.active.id
        then some k.active.public
        else if text_eq kid j
        then none
        else verifier k j)
unfolding verifier retire
verifier-retire k kid j = ground (arith, find_key-drop_key kid j k.previous)
