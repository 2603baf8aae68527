-- ===== src/RateLimit/Breaker/Trips.antt =====
-- internal/ratelimit/breaker.go: the cycle of one host's circuit, from the failures that open it to the
-- probes that close it.
use whois_mcp.Prelude.{
  ℕ, ◌+◌, ◌≤◌, ◌<◌, ◌≡◌, refl, true, false, List, [], ◌∷◌, ◌++◌, length, err, length, ap, ◌∙◌,
  arith,
}
use whois_mcp.RateLimit.Breaker.{
  closed, open_circuit, half_open, BreakerState, new_state, Options, host_allow, host_record,
  record_success, record_failure,
}

-- One probe: a call that finds the circuit ready, and reports success.
unfoldable pub probe : Options → BreakerState → ℕ → BreakerState
probe o st now = host_record o (host_allow o st now).0 true now

unfoldable pub probe_all : Options → BreakerState → List ℕ → BreakerState
probe_all o st [] = st
probe_all o st (now ∷ times) = probe_all o (probe o st now) times

-- The failed calls of a run of bad luck, at the times given.
unfoldable pub fail_all : Options → BreakerState → List ℕ → BreakerState
fail_all o st [] = st
fail_all o st (now ∷ times) = fail_all o (host_record o st false now) times

abbrev failing : ℕ → ℕ → BreakerState
failing f u = record {
  state = closed;
  failures = f;
  successes = 0;
  open_until = u;
  in_flight_probe = false;
}

abbrev tripped : ℕ → ℕ → BreakerState
tripped f u = record {
  state = open_circuit;
  failures = f;
  successes = 0;
  open_until = u;
  in_flight_probe = false;
}

abbrev probing : ℕ → ℕ → ℕ → BreakerState
probing f s u = record {
  state = half_open;
  failures = f;
  successes = s;
  open_until = u;
  in_flight_probe = false;
}

host_record_below :
    (o : Options) (f u now : ℕ)
    → f + 1 < o.threshold
    → host_record o (failing f u) false now ≡ failing (f + 1) u
unfolding host_record record_failure
host_record_below o f u now h = ground arith

host_record_trips :
    (o : Options) (f u now : ℕ)
    → o.threshold ≤ f + 1
    → host_record o (failing f u) false now ≡ tripped (f + 1) (now + o.cooldown)
unfolding host_record record_failure
host_record_trips o f u now h = ground arith

fail_all_below :
    (o : Options) (f u : ℕ) (times : List ℕ)
    → f + length times < o.threshold
    → fail_all o (failing f u) times ≡ failing (f + length times) u
unfolding fail_all
fail_all_below o f u [] h = ap (λ (n : ℕ). failing n u) (omega arith)
fail_all_below o f u (now ∷ times) h =
    ap (λ (st : BreakerState). fail_all o st times) (host_record_below o f u now (omega arith))
    ∙ fail_all_below o (f + 1) u times (omega arith)
    ∙ ap (λ (n : ℕ). failing n u) (omega arith)

fail_all-new_state :
    (o : Options) (times : List ℕ)
    → length times < o.threshold
    → fail_all o new_state times ≡ failing (length times) 0
fail_all-new_state o times h =
    fail_all_below o 0 0 times (omega arith) ∙ ap (λ (n : ℕ). failing n 0) (omega arith)

fail_all-append :
    (o : Options) (st : BreakerState) (times : List ℕ) (now : ℕ)
    → fail_all o st (times ++ (now ∷ [])) ≡ host_record o (fail_all o st times) false now
unfolding fail_all
fail_all-append o st [] now = refl
fail_all-append o st (t ∷ times) now = fail_all-append o (host_record o st false t) times now

-- The threshold's failures in a row open the circuit, the last of them and none before: it then
-- refuses every call up to the end of the cooldown, which starts at the last failure.
pub fail_all-trips :
    (o : Options) (times : List ℕ) (last now : ℕ)
    → length times + 1 ≡ o.threshold
    → now < last + o.cooldown
    → ((fail_all o new_state times).state ≡ closed)
      × ((host_allow o (fail_all o new_state (times ++ (last ∷ []))) now).1
          ≡ err (last + o.cooldown))
unfolding host_allow
fail_all-trips o times last now h early =
    let below = fail_all-new_state o times (omega arith) in
    let opened =
      fail_all-append o new_state times last
      ∙ ap (λ (st : BreakerState). host_record o st false last) below
      ∙ host_record_trips o (length times) 0 last (omega arith) in
    (
      ap (λ (st : BreakerState). st.state) below,
      ap (λ (st : BreakerState). (host_allow o st now).1) opened ∙ ground arith,
    )

probe_below :
    (o : Options) (f s u now : ℕ)
    → s + 1 < o.probes
    → probe o (probing f s u) now ≡ probing 0 (s + 1) u
unfolding probe host_allow host_record record_success
probe_below o f s u now h = ground arith

probe_last :
    (o : Options) (f s u now : ℕ) → o.probes ≤ s + 1 → probe o (probing f s u) now ≡ failing 0 u
unfolding probe host_allow host_record record_success
probe_last o f s u now h = ground arith

probe_open :
    (o : Options) (f u now : ℕ) → u ≤ now → probe o (tripped f u) now ≡ probe o (probing f 0 u) now
unfolding probe host_allow host_record record_success
probe_open o f u now h = ground arith

probe_all_below :
    (o : Options) (f s u : ℕ) (times : List ℕ)
    → s + length times < o.probes
    → (probe_all o (probing f s u) times).state ≡ half_open
unfolding probe_all
probe_all_below o f s u [] h = refl
probe_all_below o f s u (now ∷ times) h =
    ap (λ (st : BreakerState). (probe_all o st times).state) (probe_below o f s u now (omega arith))
    ∙ probe_all_below o 0 (s + 1) u times (omega arith)

probe_all_closes :
    (o : Options) (f s u : ℕ) (times : List ℕ)
    → s + length times ≡ o.probes
    → 0 < length times
    → probe_all o (probing f s u) times ≡ failing 0 u
unfolding probe_all
probe_all_closes o f s u [] h some = absurd (omega arith)
probe_all_closes o f s u (now ∷ []) h some = probe_last o f s u now (omega arith)
probe_all_closes o f s u (now ∷ later ∷ times) h some =
    ap (λ (st : BreakerState). probe_all o st (later ∷ times))
      (probe_below o f s u now (omega arith))
    ∙ probe_all_closes o 0 (s + 1) u (later ∷ times) (omega arith) (omega arith)

-- From the end of the cooldown, fewer successful probes than the option asks for keep the circuit
-- half-open.
pub probe_all_too_few :
    (o : Options) (f u now : ℕ) (times : List ℕ)
    → u ≤ now
    → 1 + length times < o.probes
    → (probe_all o (tripped f u) (now ∷ times)).state ≡ half_open
unfolding probe_all
probe_all_too_few o f u now times due few =
    ap (λ (st : BreakerState). (probe_all o st times).state) (probe_open o f u now due)
    ∙ probe_all_below o f 0 u (now ∷ times) (omega arith)

-- As many as it asks for, one after the other, close it with no failure counted.
pub probe_all-closes :
    (o : Options) (f u now : ℕ) (times : List ℕ)
    → u ≤ now
    → 1 + length times ≡ o.probes
    → probe_all o (tripped f u) (now ∷ times) ≡ failing 0 u
unfolding probe_all
probe_all-closes o f u now times due enough =
    ap (λ (st : BreakerState). probe_all o st times) (probe_open o f u now due)
    ∙ probe_all_closes o f 0 u (now ∷ times) (omega arith) (omega arith)

-- A failed probe opens the circuit again for a whole cooldown, whatever the threshold.
pub host_record_of_probe :
    (o : Options) (st : BreakerState) (now later : ℕ)
    → st.state ≡ half_open
    → later < now + o.cooldown
    → (host_allow o (host_record o st false now) later).1 ≡ err (now + o.cooldown)
unfolding host_allow host_record record_failure
host_record_of_probe o st now later half early = ground arith
