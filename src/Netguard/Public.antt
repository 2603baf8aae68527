-- ===== src/Netguard/Public.antt =====
-- internal/netguard/netguard.go: what an address that may be dialled is not.
use whois_mcp.Prelude.{
  ℕ, ◌+◌, ◌*◌, ◌^◌, ◌≤◌, ◌<◌, ◌≡◌, ◌≢◌, inl, inr, refl, sym, ap, ◌∙◌, Option, none, some, Text, err,
  Option-cases, arith,
}
use whois_mcp.Netguard.{
  reason_of, blocked, BlockReason, reason4, reason6, to4, block_reason, control,
}

-- The blocks of four-byte addresses that are named by their first bytes.
pub data Special : ℕ → ℕ → Type 0 where
  private_10 : (b : ℕ) → Special 10 b
  loopback_127 : (b : ℕ) → Special 127 b
  link_local_169 : Special 169 254
  private_172 : (b : ℕ) → 16 ≤ b → b < 32 → Special 172 b
  private_192 : Special 192 168
  shared_100 : (b : ℕ) → 64 ≤ b → b < 128 → Special 100 b
  benchmark_198 : (b : ℕ) → 18 ≤ b → b < 20 → Special 198 b
  from_224 : (a b : ℕ) → 224 ≤ a → Special a b

abbrev pub quad : ℕ → ℕ → ℕ → ℕ → ℕ
quad a b c d = a * 2 ^ 24 + b * 2 ^ 16 + c * 2 ^ 8 + d

reason4-Special :
    (a b c d : ℕ)
    → a < 256
    → b < 256
    → c < 256
    → d < 256
    → Special a b
    → reason4 (quad a b c d) ≢ none
unfolding reason4
reason4-Special a b c d la lb lc ld (private_10 q) = λ h. ground arith
reason4-Special a b c d la lb lc ld (loopback_127 q) = λ h. ground arith
reason4-Special a b c d la lb lc ld link_local_169 = λ h. ground arith
reason4-Special a b c d la lb lc ld (private_172 q x y) = λ h. ground arith
reason4-Special a b c d la lb lc ld private_192 = λ h. ground arith
reason4-Special a b c d la lb lc ld (shared_100 q x y) = λ h. ground arith
reason4-Special a b c d la lb lc ld (benchmark_198 q x y) = λ h. ground arith
reason4-Special a b c d la lb lc ld (from_224 p q x) = λ h. ground arith

abbrev pub mapped : ℕ → ℕ
mapped v = 65535 * 2 ^ 32 + v

-- The addresses inside a network, of four bytes or of sixteen.
pub data Internal : ℕ → Type 0 where
  four_bytes :
      (a b c d : ℕ)
      → a < 256
      → b < 256
      → c < 256
      → d < 256
      → Special a b
      → Internal (mapped (quad a b c d))
  unspecified_4 : Internal (mapped 0)
  unspecified_6 : Internal 0
  loopback_6 : Internal 1
  link_local_6 : (n : ℕ) → 1018 * 2 ^ 118 ≤ n → n < 1019 * 2 ^ 118 → Internal n
  unique_local_6 : (n : ℕ) → 126 * 2 ^ 121 ≤ n → n < 127 * 2 ^ 121 → Internal n
  multicast_6 : (n : ℕ) → 255 * 2 ^ 120 ≤ n → n < 256 * 2 ^ 120 → Internal n

quad-bound : (a b c d : ℕ) → a < 256 → b < 256 → c < 256 → d < 256 → quad a b c d < 2 ^ 32
quad-bound a b c d la lb lc ld = omega arith

to4-mapped : (v : ℕ) → v < 2 ^ 32 → to4 (mapped v) ≡ some v
to4-mapped v small = ground arith

block_reason-Internal : (n : ℕ) → Internal n → block_reason (some n) ≢ none
unfolding block_reason reason4 reason6
block_reason-Internal n (four_bytes a b c d la lb lc ld s) = λ h.
    reason4-Special a b c d la lb lc ld s
      (sym (ap (reason_of n) (to4-mapped (quad a b c d) (quad-bound a b c d la lb lc ld))) ∙ h)
block_reason-Internal n unspecified_4 = λ h. ground arith
block_reason-Internal n unspecified_6 = λ h. ground arith
block_reason-Internal n loopback_6 = λ h. ground arith
block_reason-Internal n (link_local_6 m low high) = λ h. ground arith
block_reason-Internal n (unique_local_6 m low high) = λ h. ground arith
block_reason-Internal n (multicast_6 m low high) = λ h. ground arith

-- No connection is made to an address inside a network, however the name resolved: the dialer's
-- check refuses it with a reason.
pub control_refuses :
    (split_host_port : Text → Option Text) (parse_ip : Text → Option ℕ) (address host : Text)
    (n : ℕ)
    → split_host_port address ≡ some host
    → parse_ip host ≡ some n
    → Internal n
    → (why : BlockReason) × (control split_host_port parse_ip address ≡ err (blocked why))
unfolding control
control_refuses split_host_port parse_ip address host n split parsed inside =
    elim (Option-cases (block_reason (some n))) [
      | inl e ↦ absurd (block_reason-Internal n inside e)
      | inr (why, e) ↦ (why, rw (split, control, parsed, e) refl)
    ]
