-- ===== src/Orders/Saga/Unanswered.antt =====
-- A charge that gave no answer is looked up, and the drive then raises: only an answered charge is
-- judged (src/orders/application/checkout_saga.py).
use scalable_ecommerce_backe.Prelude.{◌≡◌, true, false, Option, none, some, Exec, ◌>>◌}
use scalable_ecommerce_backe.Orders.Model.{Step, StepStatus}
use scalable_ecommerce_backe.Orders.Saga.Ports.{
  ChargeResult, Reason, Error, order_state_conflict, idempotency_conflict, cart_changed,
  insufficient_stock, circuit_open, budget_exhausted, dependency_unavailable, timeout, deadline,
  vanished, other, outcome_unknown, Ports, payment_key_for, payment_failed, or_else,
}
use scalable_ecommerce_backe.Orders.Saga.Undo.{compensate}
use scalable_ecommerce_backe.Orders.Saga.Settling.{Frame, Checkout, conflict, call, assign, log}
use scalable_ecommerce_backe.Orders.Saga.Drive.{set_uncertain, looked_up, uncertain, no_answer}
use scalable_ecommerce_backe.Shared.Outcomes.{Leaves, Leaves-raise, Leaves-bind}

module _ {W : Type 0} (ports : Ports W) (Paid : W → Type 0) (c : Checkout) where
  -- A charge that succeeded leaves Paid.
  abbrev pub Taken : ChargeResult → Frame W → Type 0
  Taken charge f = charge ≡ ChargeResult.succeeded → Paid f.world

  -- The lookup after a charge without an answer only raises.
  gives_up-Taken :
      {A : Type 0} (m : Exec Error (Frame W) A) (r : Reason) (f : Frame W)
      → Leaves Taken (m >> conflict r) f
  gives_up-Taken m r f =
      Leaves-bind (λ _ _. Unit {0}) Taken m (λ _. conflict r) f (λ _ _. tt)
        (λ _ g _. Leaves-raise Taken (order_state_conflict r) g)

  looked_up-Taken :
      (found : Option ChargeResult) (f : Frame W) → Leaves Taken (looked_up ports c found) f
  looked_up-Taken (some ChargeResult.failed) = gives_up-Taken undo payment_failed
    where
      undo : Exec Error (Frame W) (Unit {0})
      undo =
          log ports c Step.charge StepStatus.failed
          >> assign (set_uncertain ports c false)
          >> call (compensate ports c.order_id)
  looked_up-Taken none = gives_up-Taken (log ports c Step.charge StepStatus.unknown) outcome_unknown
  looked_up-Taken (some ChargeResult.succeeded) =
      gives_up-Taken (log ports c Step.charge StepStatus.unknown) outcome_unknown
  looked_up-Taken (some ChargeResult.pending) =
      gives_up-Taken (log ports c Step.charge StepStatus.unknown) outcome_unknown
  looked_up-Taken (some ChargeResult.refunded) =
      gives_up-Taken (log ports c Step.charge StepStatus.unknown) outcome_unknown

  uncertain-Taken : (f : Frame W) → Leaves Taken (uncertain ports c) f
  unfolding uncertain
  uncertain-Taken f =
      Leaves-bind (λ _ _. Unit {0}) Taken look (looked_up ports c) f (λ _ _. tt)
        (λ found g _. looked_up-Taken found g)
    where
      look : Exec Error (Frame W) (Option ChargeResult)
      look =
          assign (set_uncertain ports c true)
          >> call (or_else none (ports.find_by_idempotency_key (payment_key_for c.user_id c.key)))

  pub no_answer-Taken : (e : Error) (f : Frame W) → Leaves Taken (no_answer ports c e) f
  unfolding uncertain
  no_answer-Taken timeout = uncertain-Taken
  no_answer-Taken dependency_unavailable = uncertain-Taken
  no_answer-Taken (order_state_conflict r) = Leaves-raise Taken (order_state_conflict r)
  no_answer-Taken deadline = Leaves-raise Taken deadline
  no_answer-Taken idempotency_conflict = Leaves-raise Taken idempotency_conflict
  no_answer-Taken cart_changed = Leaves-raise Taken cart_changed
  no_answer-Taken insufficient_stock = Leaves-raise Taken insufficient_stock
  no_answer-Taken circuit_open = Leaves-raise Taken circuit_open
  no_answer-Taken budget_exhausted = Leaves-raise Taken budget_exhausted
  no_answer-Taken vanished = Leaves-raise Taken vanished
  no_answer-Taken other = Leaves-raise Taken other
