-- ===== src/Whois/Transport/Received.antt =====
-- internal/whois/transport.go: what a response holds of what the server sent.
use whois_mcp.Prelude.{
  ℕ, zero, suc, ◌≤◌, ◌≡◌, refl, ap, Bool, false, Bool-cases, inl, inr, Option, some, Option-cases,
  [], ◌∷◌, Text, take, length, ltb, ltb_false→le, arith,
}
use whois_mcp.Whois.Client.{Response}
use whois_mcp.Whois.Transport.{Stream, cap_of, normalize_host, receive, transport_query}

length-take : (n : ℕ) (s : Text) → length (take n s) ≤ n
length-take zero s = omega arith
length-take (suc n) [] = omega arith
length-take (suc n) (c ∷ s) = omega (arith, length-take n s)

take-take : (n : ℕ) (s : Text) → take n (take (suc n) s) ≡ take n s
take-take zero s = refl
take-take (suc n) [] = refl
take-take (suc n) (c ∷ s) = ap (◌∷◌ c) (take-take n s)

take_short : (n : ℕ) (s : Text) → length (take (suc n) s) ≤ n → take (suc n) s ≡ s
take_short n [] h = refl
take_short zero (c ∷ s) h = absurd (omega (arith, h))
take_short (suc n) (c ∷ s) h = ap (◌∷◌ c) (take_short n s (omega (arith, h)))

take_all : (n : ℕ) (s : Text) → length s ≤ n → take n s ≡ s
take_all zero [] h = refl
take_all zero (c ∷ s) h = absurd (omega (arith, h))
take_all (suc n) [] h = refl
take_all (suc n) (c ∷ s) h = ap (◌∷◌ c) (take_all n s (omega (arith, h)))

-- What the cap leaves of a stream, with the mark of a response that is not all of it.
pub record Holds (limit : ℕ) (s : Stream) (r : Response) : Type 0 where
  pub bounded : length r.raw ≤ limit
  pub prefix : r.raw ≡ take limit s.bytes
  pub complete : r.truncated ≡ false → (r.raw ≡ s.bytes) × (s.breaks ≡ false)

receive-Holds :
    (limit : ℕ) (addr query : Text) (s : Stream) (r : Response)
    → receive limit addr query s ≡ some r
    → Holds limit s r
unfolding receive
receive-Holds limit addr query s r h =
    let raw = take (suc limit) s.bytes in
    elim (Bool-cases (ltb limit (length raw))) [
      | inl long ↦ record {
        bounded = ground (arith, length-take limit raw);
        prefix = ground (arith, take-take limit s.bytes);
        complete = ground arith;
      }
      | inr short ↦
          let whole = take_short limit s.bytes (ltb_false→le limit (length raw) short) in
          let fits : length s.bytes ≤ limit = rw whole at (ltb_false→le limit (length raw) short) in
          let all = take_all limit s.bytes fits in
          record {
            bounded = ground (arith, whole, fits);
            prefix = ground (arith, whole, all);
            complete = ground (arith, whole);
          }
    ]

-- A response of the transport is what the server sent to the dialled address, up to the cap and no
-- more; and it is marked as truncated unless it is all that the server sent and the connection ended
-- well.
pub transport_query-Holds :
    (has_port : Text → Bool) (dial : Text → Text → Option Stream) (max_bytes : ℕ)
    (host query : Text) (r : Response)
    → transport_query has_port dial max_bytes host query ≡ some r
    → (addr : Text) × (s : Stream) × (normalize_host has_port host ≡ some addr)
      × (dial addr query ≡ some s)
      × Holds (cap_of max_bytes) s r
unfolding transport_query
transport_query-Holds has_port dial max_bytes host query r h =
    elim (Option-cases (normalize_host has_port host)) [
      | inl e ↦ absurd (ground arith)
      | inr (addr, e) ↦ elim (Option-cases (dial addr query)) [
        | inl f ↦ absurd (ground arith)
        | inr (s, f) ↦ (
          addr,
          s,
          e,
          f,
          receive-Holds (cap_of max_bytes) addr query s r (rw (e, f, transport_query) at h),
        )
      ]
    ]
