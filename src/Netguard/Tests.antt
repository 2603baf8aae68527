-- ===== src/Netguard/Tests.antt =====
-- internal/netguard/netguard.go: the theorem at a concrete input.
use whois_mcp.Prelude.{◌≡◌, refl, some, codes, ok, err, arith}
use whois_mcp.Netguard.{BlockReason, blocked, control, block_reason, reason4}
use whois_mcp.Netguard.Public.{mapped, quad, link_local_169, four_bytes, control_refuses}

-- A public address passes.
control_public :
    control (λ s. some s) (λ s. some (mapped (quad 193 0 6 135))) (codes "rdap.db.ripe.net") ≡ ok tt
unfolding control block_reason reason4
control_public = refl

-- 169.254.169.254, the address of cloud metadata.
control_refuses_example :
    (why : BlockReason) × (control
        (λ s. some s)
        (λ s. some (mapped (quad 169 254 169 254)))
        (codes "metadata:443")
      ≡ err (blocked why))
control_refuses_example =
    control_refuses (λ s. some s) (λ s. some (mapped (quad 169 254 169 254))) (codes "metadata:443")
      (codes "metadata:443") (mapped (quad 169 254 169 254)) refl refl
      (four_bytes 169 254 169 254 (omega arith) (omega arith) (omega arith) (omega arith)
        link_local_169)
