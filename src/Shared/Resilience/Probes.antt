-- ===== src/Shared/Resilience/Probes.antt =====
-- What the circuit breaker of src/shared/resilience.py admits.
use scalable_ecommerce_backe.Prelude.{
  ℕ, ◌+◌, ◌<◌, ◌≤◌, ◌≡◌, refl, ◌∙◌, ap, sym, subst, true, false, List, [], ◌∷◌, arith, All, ◌⊎◌,
  inl, inr, length,
}
use scalable_ecommerce_backe.Shared.Resilience.Breaker.{
  pos, negsuc, State, Breaker, allow, allow_all, record_failure, record_failures, record_abandoned,
  IsFalse,
}

lt_or_ge : (m n : ℕ) → (m < n) ⊎ (n ≤ m)
lt_or_ge m n = omega arith

-- While one probe is in flight, every other call fails fast.
probe_taken :
    (b : Breaker) (n : ℕ)
    → b.state ≡ State.half_open
    → b.half_open_calls ≡ pos (n + 1)
    → (times : List ℕ) → All IsFalse (allow_all times b)
probe_taken b n s c [] = tt
probe_taken b n s c (now ∷ times) =
    subst (λ r. All IsFalse (r.0 ∷ allow_all times r.1)) (sym refused)
      (refl, probe_taken b n s c times)
  where
    refused : allow now b ≡ (false, b)
    refused = ground arith

-- Of all the calls that arrive once the reset window of an open breaker is over, with no call
-- recorded in between, the first is admitted and every other one fails fast, provided that the
-- counter of probes is at zero.
pub one_probe :
    (b : Breaker) (now : ℕ) (times : List ℕ)
    → b.state ≡ State.opened
    → b.half_open_calls ≡ pos 0
    → b.opened_at + b.reset_timeout ≤ now
    → ((allow now b).0 ≡ true) × All IsFalse (allow_all times (allow now b).1)
one_probe b now times s c late =
    subst (λ r. (r.0 ≡ true) × All IsFalse (allow_all times r.1)) (sym admitted)
      (refl, probe_taken probing 0 refl refl times)
  where
    probing : Breaker
    probing = record b { state = State.half_open; half_open_calls = pos 1 }

    admitted : allow now b ≡ (true, probing)
    admitted = ground arith

stays_open :
    (b : Breaker) (times : List ℕ)
    → b.state ≡ State.opened
    → (record_failures times b).state ≡ State.opened
stays_open b [] s = s
stays_open b (now ∷ times) s =
    subst (λ c. (record_failures times c).state ≡ State.opened) (sym ignored) (stays_open b times s)
  where
    ignored : record_failure now b ≡ b
    ignored = ground arith

-- How a closed breaker counts one fault.
counted :
    (b : Breaker) (now : ℕ)
    → b.state ≡ State.closed
    → b.consecutive_failures + 1 < b.threshold
    → record_failure now b ≡ record b { consecutive_failures = b.consecutive_failures + 1 }
counted b now s below = ground arith

tripped :
    (b : Breaker) (now : ℕ)
    → b.state ≡ State.closed
    → b.threshold ≤ b.consecutive_failures + 1
    → (record_failure now b).state ≡ State.opened
tripped b now s reached = ground arith

-- Faults recorded in a row on a closed breaker open it exactly when their number, with those
-- counted before, reaches the threshold, provided that there is one: with fewer it stays closed.
pub record_failures-Opens :
    (b : Breaker) (times : List ℕ)
    → b.state ≡ State.closed
    → b.consecutive_failures < b.threshold
    → (b.consecutive_failures + length times < b.threshold
        → (record_failures times b).state ≡ State.closed)
      × (b.threshold ≤ b.consecutive_failures + length times
          → (record_failures times b).state ≡ State.opened)
record_failures-Opens b [] s below = (λ _. s, λ reached. ground arith)
record_failures-Opens b (now ∷ times) s below =
    elim (lt_or_ge (b.consecutive_failures + 1) b.threshold) [
      | inl more ↦
          let next : Breaker = record b { consecutive_failures = b.consecutive_failures + 1 } in
          let rest = record_failures-Opens next times s more in
          let step = sym (counted b now s more) in
          (
            λ few.
                subst (λ c. (record_failures times c).state ≡ State.closed) step
                  (rest.0 (omega arith)),
            λ many.
                subst (λ c. (record_failures times c).state ≡ State.opened) step
                  (rest.1 (omega arith)),
          )
      | inr reached ↦ (
        λ few. ground arith,
        λ many. stays_open (record_failure now b) times (tripped b now s reached),
      )
    ]

-- The probe is cancelled, and then a call that was admitted before the breaker opened faults: once
-- the next reset window is over, two probes that arrive together are both admitted.
pub record_failure_straggler :
    (b : Breaker) (now later : ℕ)
    → b.state ≡ State.half_open
    → b.half_open_calls ≡ pos 1
    → now + b.reset_timeout ≤ later
    → allow_all (later ∷ later ∷ []) (record_failure now (record_abandoned b)) ≡ true ∷ true ∷ []
record_failure_straggler b now later s c late =
    ap (allow_all (later ∷ later ∷ [])) late_fault
    ∙ ap (λ r. r.0 ∷ (allow later r.1).0 ∷ []) first
    ∙ ap (λ r. true ∷ r.0 ∷ []) second
  where
    reopened : Breaker
    reopened = record b {
      consecutive_failures = 0;
      opened_at = now;
      state = State.opened;
      half_open_calls = negsuc 0;
    }

    first_probe : Breaker
    first_probe = record reopened { state = State.half_open; half_open_calls = pos 0 }

    second_probe : Breaker
    second_probe = record reopened { state = State.half_open; half_open_calls = pos 1 }

    late_fault : record_failure now (record_abandoned b) ≡ reopened
    late_fault = ground arith

    first : allow later reopened ≡ (true, first_probe)
    first = ground arith

    second : allow later first_probe ≡ (true, second_probe)
    second = refl
