-- ===== src/Shared/Resilience/Breaker.antt =====
-- `CircuitBreaker` (src/shared/resilience.py). Every operation that reads the monotonic clock takes
-- its value; the gauge, the counter and the log lines are left out. The number of probes in flight
-- is an integer: the code decrements it without a test.
use scalable_ecommerce_backe.Prelude.{
  ℕ, zero, suc, ◌+◌, ◌≡◌, ltb, leb, if◌then◌else◌, Bool, true, false, List, [], ◌∷◌,
}

pub data ℤ : Type 0 where
  pos negsuc : ℕ → ℤ

abbrev pub succ_ℤ : ℤ → ℤ
succ_ℤ (pos n) = pos (n + 1)
succ_ℤ (negsuc zero) = pos 0
succ_ℤ (negsuc (suc n)) = negsuc n

abbrev pub pred_ℤ : ℤ → ℤ
pred_ℤ (pos zero) = negsuc 0
pred_ℤ (pos (suc n)) = pos n
pred_ℤ (negsuc n) = negsuc (n + 1)

abbrev pub max_zero : ℤ → ℤ
max_zero (pos n) = pos n
max_zero (negsuc n) = pos 0

-- `calls >= 1`
abbrev pub is_positive : ℤ → Bool
is_positive (pos n) = leb 1 n
is_positive (negsuc n) = false

pub data State : Type 0 where
  closed half_open opened : State

pub record Breaker : Type 0 where
  pub threshold : ℕ
  pub reset_timeout : ℕ
  pub state : State
  pub consecutive_failures : ℕ
  pub opened_at : ℕ
  pub half_open_calls : ℤ

abbrev pub breaker : ℕ → ℕ → Breaker
breaker threshold reset_timeout = record {
  threshold = threshold;
  reset_timeout = reset_timeout;
  state = State.closed;
  consecutive_failures = 0;
  opened_at = 0;
  half_open_calls = pos 0;
}

-- The half-open part of `allow`.
abbrev pub admit_probe : Breaker → Bool × Breaker
admit_probe b =
    if is_positive b.half_open_calls
    then (false, b)
    else (true, record b { half_open_calls = succ_ℤ b.half_open_calls })

abbrev allow_in : State → ℕ → Breaker → Bool × Breaker
allow_in State.closed now b = (true, b)
allow_in State.half_open now b = admit_probe b
allow_in State.opened now b =
    if ltb now (b.opened_at + b.reset_timeout)
    then (false, b)
    else admit_probe (record b { state = State.half_open })

abbrev pub allow : ℕ → Breaker → Bool × Breaker
allow now b = allow_in b.state now b

-- `_open`
abbrev pub trip : ℕ → Breaker → Breaker
trip now b = record b { consecutive_failures = 0; opened_at = now; state = State.opened }

abbrev record_success_in : State → Breaker → Breaker
record_success_in State.opened b = b
record_success_in State.half_open b = record b {
  half_open_calls = pred_ℤ b.half_open_calls;
  state = State.closed;
  consecutive_failures = 0;
}
record_success_in State.closed b = record b { consecutive_failures = 0 }

abbrev pub record_success : Breaker → Breaker
record_success b = record_success_in b.state b

abbrev record_failure_in : State → ℕ → Breaker → Breaker
record_failure_in State.opened now b = b
record_failure_in State.half_open now b =
    trip now (record b { half_open_calls = pred_ℤ b.half_open_calls })
record_failure_in State.closed now b =
    let counted : Breaker = record b { consecutive_failures = b.consecutive_failures + 1 } in
    if leb b.threshold (b.consecutive_failures + 1) then trip now counted else counted

abbrev pub record_failure : ℕ → Breaker → Breaker
record_failure now b = record_failure_in b.state now b

abbrev record_abandoned_in : State → Breaker → Breaker
record_abandoned_in State.half_open b = record b {
  half_open_calls = max_zero (pred_ℤ b.half_open_calls);
}
record_abandoned_in State.closed b = b
record_abandoned_in State.opened b = b

abbrev pub record_abandoned : Breaker → Breaker
record_abandoned b = record_abandoned_in b.state b

-- The answers of `allow` to calls at the given times, with nothing recorded in between.
abbrev pub allow_all : List ℕ → Breaker → List Bool
allow_all [] b = []
allow_all (now ∷ times) b = (allow now b).0 ∷ allow_all times (allow now b).1

-- Faults recorded at the given times.
abbrev pub record_failures : List ℕ → Breaker → Breaker
record_failures [] b = b
record_failures (now ∷ times) b = record_failures times (record_failure now b)

abbrev pub IsTrue : Bool → Type 0
IsTrue b = b ≡ true

abbrev pub IsFalse : Bool → Type 0
IsFalse b = b ≡ false
