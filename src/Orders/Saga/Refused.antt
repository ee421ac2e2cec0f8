-- ===== src/Orders/Saga/Refused.antt =====
-- The arms of `_drive` that answer no fresh paid order: each ends in a raise, or answers an order that
-- another frame paid (src/orders/application/checkout_saga.py).
use scalable_ecommerce_backe.Prelude.{
  ◌≡◌, if◌then◌else◌, Bool, true, false, ◌||◌, Option, none, some, ok, Exec, pure, raise, ◌>>◌,
  arith,
}
use scalable_ecommerce_backe.Orders.Model.{OrderStatus, Order, Step, StepStatus, same_status}
use scalable_ecommerce_backe.Orders.Saga.Ports.{
  cancelled_after_charge, Reason, Error, order_state_conflict, idempotency_conflict, cart_changed,
  insufficient_stock, circuit_open, budget_exhausted, dependency_unavailable, timeout, deadline,
  vanished, other, timed_out, after_payment, stock_not_committed, Call, Ports, or_else,
}
use scalable_ecommerce_backe.Orders.Saga.Undo.{
  refund_orphaned_charge, compensate, compensate_after_cancel,
}
use scalable_ecommerce_backe.Orders.Saga.Basket.{remember, clear_basket_if_replay_mop_up}
use scalable_ecommerce_backe.Orders.Saga.Settling.{
  Frame, Answer, Checkout, conflict, call, assign, log, return_money, shortfall, dead_or_waiting,
}
use scalable_ecommerce_backe.Orders.Saga.Drive.{
  give_up, settled_meanwhile, on_timeout, on_exception, on_error,
}
use scalable_ecommerce_backe.Orders.Saga.Confirms.{Confirms, Confirms-raise, Confirms-after}
use scalable_ecommerce_backe.Shared.Outcomes.{answer}

module _ {W : Type 0} (ports : Ports W) (Q : Frame W → Type 0) (c : Checkout) where
  pub return_money-Confirms : (f : Frame W) → Confirms Q (return_money ports c) f
  unfolding return_money
  return_money-Confirms =
      Confirms-after Q (call (refund_orphaned_charge ports c.order_id c.user_id c.key))
        (λ outcome. conflict (cancelled_after_charge outcome))
        (λ outcome g. Confirms-raise Q (order_state_conflict (cancelled_after_charge outcome)) g)

  dead_or_waiting-Confirms :
      (status : Option OrderStatus) (f : Frame W) → Confirms Q (dead_or_waiting ports c status) f
  unfolding return_money
  dead_or_waiting-Confirms none f = Confirms-raise Q (order_state_conflict stock_not_committed) f
  dead_or_waiting-Confirms (some status) f = after (same_status status OrderStatus.cancelled)
    where
      after :
          (b : Bool)
          → Confirms Q (if b then return_money ports c else conflict stock_not_committed) f
      after true = return_money-Confirms f
      after false = Confirms-raise Q (order_state_conflict stock_not_committed) f

  pub give_up-Confirms :
      (status : StepStatus) (reason : Reason) (f : Frame W)
      → Confirms Q (give_up ports c status reason) f
  give_up-Confirms status reason =
      Confirms-after Q undo (λ _. conflict reason)
        (λ _ g. Confirms-raise Q (order_state_conflict reason) g)
    where
      undo : Exec Error (Frame W) (Unit {0})
      undo = log ports c Step.charge status >> call (compensate ports c.order_id)

  pub shortfall-Confirms : (f : Frame W) → Confirms Q (shortfall ports c) f
  unfolding shortfall
  shortfall-Confirms = Confirms-after Q look (dead_or_waiting ports c) dead_or_waiting-Confirms
    where
      look : Exec Error (Frame W) (Option OrderStatus)
      look =
          log ports c Step.commit StepStatus.shortfall >> call (ports.get_order_status c.order_id)

  pub settled_meanwhile-Confirms :
      (live : Order) (f : Frame W) → Confirms Q (settled_meanwhile ports c live) f
  unfolding settled_meanwhile
  settled_meanwhile-Confirms live =
      Confirms-after Q note (λ _. pure (live, false)) (λ _ g o h. absurd (not_fresh o h))
    where
      note : Exec Error (Frame W) (Unit {0})
      note =
          assign (λ (f : Frame W). record f { settled_paid = true })
          >> call (remember ports c.user_id c.key c.body_hash live)
          >> call (clear_basket_if_replay_mop_up ports c.user_id live.items)

      not_fresh : (o : Order) → answer {E = Error} {A = Answer} (live, false) ≡ ok (o, true) → ⊥
      not_fresh o h = ground arith

  undo-Confirms :
      (m : Call W (Unit {0})) (e : Error) (f : Frame W) → Confirms Q (call m >> raise e) f
  undo-Confirms m e = Confirms-after Q (call m) (λ _. raise e) (λ _ g. Confirms-raise Q e g)

  on_exception-Confirms : (e : Error) (f : Frame W) → Confirms Q (on_exception ports c e) f
  on_exception-Confirms e f = after (f.charged || f.charge_uncertain)
    where
      after :
          (b : Bool)
          → Confirms Q
              (λ (g : Frame W).
                (if b
                    then conflict after_payment
                    else call (compensate ports c.order_id) >> raise e)
                  g)
              f
      after true = Confirms-raise Q (order_state_conflict after_payment) f
      after false = undo-Confirms (compensate ports c.order_id) e f

  on_timeout-Confirms : (f : Frame W) → Confirms Q (on_timeout ports c) f
  on_timeout-Confirms f = after f.settled_paid (f.charged || f.charge_uncertain) f.compensated
    where
      settle : Call W (Unit {0})
      settle = or_else tt (compensate_after_cancel ports c.order_id)

      after :
          (s b d : Bool)
          → Confirms Q
              (λ (g : Frame W).
                (if s
                    then conflict timed_out
                    else if b
                    then conflict after_payment
                    else if d
                    then conflict timed_out
                    else call settle >> conflict timed_out)
                  g)
              f
      after true b d = Confirms-raise Q (order_state_conflict timed_out) f
      after false true d = Confirms-raise Q (order_state_conflict after_payment) f
      after false false true = Confirms-raise Q (order_state_conflict timed_out) f
      after false false false = undo-Confirms settle (order_state_conflict timed_out) f

  pub on_error-Confirms : (e : Error) (f : Frame W) → Confirms Q (on_error ports c e) f
  on_error-Confirms (order_state_conflict r) = Confirms-raise Q (order_state_conflict r)
  on_error-Confirms idempotency_conflict = Confirms-raise Q idempotency_conflict
  on_error-Confirms timeout = on_timeout-Confirms
  on_error-Confirms deadline = on_timeout-Confirms
  on_error-Confirms cart_changed = on_exception-Confirms cart_changed
  on_error-Confirms insufficient_stock = on_exception-Confirms insufficient_stock
  on_error-Confirms circuit_open = on_exception-Confirms circuit_open
  on_error-Confirms budget_exhausted = on_exception-Confirms budget_exhausted
  on_error-Confirms dependency_unavailable = on_exception-Confirms dependency_unavailable
  on_error-Confirms vanished = on_exception-Confirms vanished
  on_error-Confirms other = on_exception-Confirms other
