-- ===== src/Shared/Resilience/Tests.antt =====
-- The resilience primitives at concrete inputs.
use scalable_ecommerce_backe.Prelude.{
  ℕ, ◌+◌, ◌<◌, ◌≤◌, ◌≡◌, refl, true, false, if◌then◌else◌, not, ◌&&◌, leb, none, some, [], ◌∷◌,
  arith, All, ok, err, Exec,
}
use scalable_ecommerce_backe.Shared.Resilience.Breaker.{
  State, Breaker, breaker, allow, allow_all, record_failure, record_failures, record_abandoned,
  IsFalse,
}
use scalable_ecommerce_backe.Shared.Resilience.Probes.{
  one_probe, record_failures-Opens, record_failure_straggler,
}
use scalable_ecommerce_backe.Shared.Resilience.Budget.{
  Budget, acquire, in_flight, IsBounded, acquire_sheds, acquire-IsBounded,
}
use scalable_ecommerce_backe.Shared.Resilience.Retry.{
  retry_transient, counting, Tries, retry_transient-Tries,
}

abbrev payment : Breaker
payment = breaker 3 30

abbrev down : Breaker
down = record_failures (1 ∷ 2 ∷ 3 ∷ []) payment

one_probe_example :
    ((allow 33 down).0 ≡ true) × All IsFalse (allow_all (33 ∷ 34 ∷ 90 ∷ []) (allow 33 down).1)
one_probe_example = one_probe down 33 (33 ∷ 34 ∷ 90 ∷ []) refl refl (omega arith)

record_failures-Opens_example :
    (3 < 3 → (record_failures (1 ∷ 2 ∷ 3 ∷ []) payment).state ≡ State.closed)
    × (3 ≤ 3 → (record_failures (1 ∷ 2 ∷ 3 ∷ []) payment).state ≡ State.opened)
record_failures-Opens_example = record_failures-Opens payment (1 ∷ 2 ∷ 3 ∷ []) refl (omega arith)

record_failure_straggler_example :
    allow_all (90 ∷ 90 ∷ []) (record_failure 40 (record_abandoned (allow 33 down).1))
    ≡ true ∷ true ∷ []
record_failure_straggler_example =
    record_failure_straggler (allow 33 down).1 40 90 refl refl (omega arith)

abbrev budget : Budget
budget = record {
  permits = record { id = 2; expiry = 95 } ∷ record { id = 1; expiry = 80 } ∷ [];
  expires_at = 95;
}

budget-IsBounded : IsBounded 2 budget
budget-IsBounded = record { bound = omega arith; outlived = (omega arith, (omega arith, tt)) }

acquire_sheds_example :
    (acquire 2 30 false 3 70 budget).0
    ≡ (if not false && leb 2 (in_flight 70 budget) then none else some 3)
acquire_sheds_example = acquire_sheds 2 30 false 3 70 budget budget-IsBounded

acquire-IsBounded_example : IsBounded 2 (acquire 2 30 false 3 85 budget).1
acquire-IsBounded_example = acquire-IsBounded 2 30 false 3 85 budget budget-IsBounded (omega arith)

-- A dependency that faults as long as its counter is below two.
flaky : Exec ℕ ℕ ℕ
flaky s = ((if leb 2 s then ok 7 else err 503), s + 1)

retry_transient-Tries_example :
    Tries (λ e. leb 500 e) 0 3 (retry_transient 0 (λ e. leb 500 e) 3 (counting flaky) (0, 0))
retry_transient-Tries_example = retry_transient-Tries 0 (λ e. leb 500 e) 2 flaky 0 0
