-- ===== src/Orders/Saga/Ports.antt =====
-- The ports of the checkout saga (src/orders/ports/checkout.py and src/orders/ports/repository.py),
-- over any state of the world. A call may change the world in any way, whatever it answers, so what
-- other sessions do meanwhile and what a call does before it faults are a part of it.
use scalable_ecommerce_backe.Prelude.{
  ℕ, if◌then◌else◌, Bool, true, false, Option, List, ok, err, Exec, pure, raise,
}
use scalable_ecommerce_backe.Orders.Model.{
  OrderStatus, OrderItem, Order, Step, StepStatus, OrderPlaced,
}

-- `ChargeResult`
pub data ChargeResult : Type 0 where
  succeeded failed pending refunded : ChargeResult

-- What became of the refund of a charge whose order died.
pub data RefundOutcome : Type 0 where
  refunded deferred refused : RefundOutcome

-- The details that an `OrderStateConflictError` is raised with.
pub data Reason : Type 0 where
  empty_cart reservation_timed_out cancelled_meanwhile outcome_unknown payment_failed
        payment_refunded declined :
      Reason
  commit_timed_out stock_not_committed timed_out after_payment already_cancelled : Reason
  cancelled_after_charge : RefundOutcome → Reason

-- What the saga tells apart. `timeout` is a TimeoutError; `deadline` is the cancellation by the
-- overall timeout, which no `except Exception` catches.
pub data Error : Type 0 where
  order_state_conflict : Reason → Error
  idempotency_conflict cart_changed insufficient_stock : Error
  circuit_open budget_exhausted dependency_unavailable timeout deadline vanished other : Error

abbrev pub Call : Type 0 → Type 0 → Type 0
Call W A = Exec Error W A

-- The replay record: the hash of the body and the stored response.
abbrev pub Record : Type 0
Record = ℕ × Order

pub record Ports (W : Type 0) : Type 0 where
  pub get_order : ℕ → Call W (Option Order)
  pub get_order_status : ℕ → Call W (Option OrderStatus)
  pub get_by_idempotency : ℕ → ℕ → Call W (Option Order)
  pub create_pending_order : ℕ → ℕ → ℕ → ℕ → List OrderItem → ℕ → Call W (Order × Bool)
  pub transition_status :
      ℕ → List OrderStatus → OrderStatus → Option OrderPlaced → Call W (Option Order)
  pub log_saga_step : ℕ → Step → StepStatus → Call W (Unit {0})
  pub has_recent_saga_activity : ℕ → ℕ → Call W Bool
  pub claim_stuck_pending : ℕ → ℕ → Call W (List ℕ)
  pub claim_cancelled_with_pending_refund : ℕ → ℕ → Call W (List ℕ)
  pub rollback : Call W (Unit {0})
  pub get_lines : ℕ → Call W (List OrderItem)
  pub consume : ℕ → List OrderItem → Call W (Unit {0})
  pub clear : ℕ → Call W (Unit {0})
  pub current_prices : List ℕ → Call W (ℕ → Option ℕ)
  pub reserve_many : List (ℕ × ℕ) → ℕ → Call W (Unit {0})
  pub release_for_order : ℕ → Call W ℕ
  pub restock_for_order : ℕ → Call W ℕ
  pub commit_for_order : ℕ → ℕ → Call W ℕ
  pub charge : ℕ → ℕ × ℕ → ℕ → ℕ → Call W ChargeResult
  pub find_by_idempotency_key : ℕ × ℕ → Call W (Option ChargeResult)
  pub refund : ℕ × ℕ → Call W Bool
  pub recall : ℕ → ℕ → Call W (Option Record)
  pub put : ℕ → ℕ → ℕ → Order → Call W (Unit {0})
  pub fresh_compensate : Option (ℕ → Call W (Unit {0}))

-- `payment_key_for`: the pair is the key.
abbrev pub payment_key_for : ℕ → ℕ → ℕ × ℕ
payment_key_for user_id key = (user_id, key)

abbrev pub is_exception : Error → Bool
is_exception deadline = false
is_exception _ = true

abbrev pub is_timeout : Error → Bool
is_timeout timeout = true
is_timeout _ = false

module _ {W A : Type 0} where
  -- `try: … except`, where the handler is given the state that the raise left.
  abbrev pub catch : Exec Error W A → (Error → Exec Error W A) → Exec Error W A
  catch m handler w = elim (m w).0 [ ok a ↦ (ok a, (m w).1) | err e ↦ handler e (m w).1 ]

  -- `except Exception`, with what is answered instead.
  abbrev pub or_else : A → Exec Error W A → Exec Error W A
  or_else a m = catch m (λ e. if is_exception e then pure a else raise e)
