-- ===== src/Orders/Saga/Drive.antt =====
-- `_drive` (src/orders/application/checkout_saga.py): reserve, charge, and what its except arms do.
use scalable_ecommerce_backe.Prelude.{
  ℕ, if◌then◌else◌, Bool, true, false, ◌||◌, Option, none, some, List, map, Exec, pure, raise,
  ◌>>=◌, ◌>>◌,
}
use scalable_ecommerce_backe.Orders.Model.{OrderStatus, Order, Step, StepStatus}
use scalable_ecommerce_backe.Orders.Saga.Ports.{
  ChargeResult, Reason, reservation_timed_out, cancelled_meanwhile, outcome_unknown, payment_failed,
  payment_refunded, declined, timed_out, after_payment, Error, order_state_conflict,
  idempotency_conflict, dependency_unavailable, timeout, deadline, Call, Ports, payment_key_for,
  is_timeout, catch, or_else,
}
use scalable_ecommerce_backe.Orders.Saga.Undo.{compensate, compensate_after_cancel}
use scalable_ecommerce_backe.Orders.Saga.Basket.{remember, clear_basket_if_replay_mop_up}
use scalable_ecommerce_backe.Orders.Saga.Settling.{
  total, Frame, Answer, Checkout, conflict, call, assign, log, commit,
}

module _ {W : Type 0} (ports : Ports W) (c : Checkout) where
  abbrev pub take_charge : Frame W → Frame W
  take_charge f = record f { charged = true; charge_uncertain = false }

  abbrev pub give_up : {A : Type 0} → StepStatus → Reason → Exec Error (Frame W) A
  give_up status reason =
      log ports c Step.charge status >> call (compensate ports c.order_id) >> conflict reason

  -- What follows from the outcome of the charge.
  unfoldable pub judge : ChargeResult → Exec Error (Frame W) Answer
  unfolding commit
  judge ChargeResult.refunded = give_up StepStatus.refunded payment_refunded
  judge ChargeResult.failed = give_up StepStatus.failed declined
  judge ChargeResult.pending =
      log ports c Step.charge StepStatus.unknown >> conflict outcome_unknown
  judge ChargeResult.succeeded =
      assign take_charge >> log ports c Step.charge StepStatus.completed >> commit ports c

  -- No answer came back: the recorded outcome decides.
  abbrev pub set_uncertain : Bool → Frame W → Frame W
  set_uncertain b f = record f { charge_uncertain = b }

  abbrev pub looked_up : Option ChargeResult → Exec Error (Frame W) ChargeResult
  looked_up (some ChargeResult.failed) =
      log ports c Step.charge StepStatus.failed
      >> assign (set_uncertain false)
      >> call (compensate ports c.order_id)
      >> conflict payment_failed
  looked_up _ = log ports c Step.charge StepStatus.unknown >> conflict outcome_unknown

  unfoldable pub uncertain : Exec Error (Frame W) ChargeResult
  uncertain =
      assign (set_uncertain true)
      >> call (or_else none (ports.find_by_idempotency_key (payment_key_for c.user_id c.key)))
      >>= looked_up

  abbrev pub no_answer : Error → Exec Error (Frame W) ChargeResult
  no_answer timeout = uncertain
  no_answer dependency_unavailable = uncertain
  no_answer e = raise e

  -- The charge of this checkout.
  abbrev pub charge_of : Call W ChargeResult
  charge_of = ports.charge c.order_id (payment_key_for c.user_id c.key) (total c.lines) c.token

  unfoldable pub pay : Exec Error (Frame W) Answer
  unfolding uncertain judge
  pay = catch (call charge_of) no_answer >>= judge

  -- The last word before money moves: only a pending order is charged.
  unfoldable pub settled_meanwhile : Order → Exec Error (Frame W) Answer
  settled_meanwhile live =
      assign (λ f. record f { settled_paid = true })
      >> call (remember ports c.user_id c.key c.body_hash live)
      >> call (clear_basket_if_replay_mop_up ports c.user_id live.items)
      >> pure (live, false)

  abbrev pub by_status : OrderStatus → Order → Exec Error (Frame W) Answer
  by_status OrderStatus.paid live = settled_meanwhile live
  by_status OrderStatus.pending live = pay
  by_status OrderStatus.shipped live = conflict cancelled_meanwhile
  by_status OrderStatus.cancelled live = conflict cancelled_meanwhile

  unfoldable pub charge_live : Option Order → Exec Error (Frame W) Answer
  unfolding settled_meanwhile pay
  charge_live none = conflict cancelled_meanwhile
  charge_live (some live) = by_status live.status live

  -- A reservation that times out may have landed.
  unfoldable pub reserve_late : Error → Exec Error (Frame W) (Unit {0})
  reserve_late e =
      if is_timeout e
      then (assign (λ f. record f { compensated = true })
          >> call (or_else tt (compensate_after_cancel ports c.order_id))
          >> conflict reservation_timed_out)
      else raise e

  abbrev pub sku_lines : List (ℕ × ℕ)
  sku_lines = map (λ l. (l.product_id, l.quantity)) c.lines

  unfoldable pub steps : Exec Error (Frame W) Answer
  unfolding reserve_late charge_live
  steps =
      log ports c Step.reserve StepStatus.started
      >> catch (call (ports.reserve_many sku_lines c.order_id)) reserve_late
      >> log ports c Step.reserve StepStatus.completed
      >> log ports c Step.charge StepStatus.started
      >> call (ports.get_order c.order_id)
      >>= charge_live

  -- The except arms of the whole drive.
  abbrev pub on_timeout : Exec Error (Frame W) Answer
  on_timeout f =
      (if f.settled_paid
          then conflict timed_out
          else if f.charged || f.charge_uncertain
          then conflict after_payment
          else if f.compensated
          then conflict timed_out
          else call (or_else tt (compensate_after_cancel ports c.order_id)) >> conflict timed_out)
        f

  abbrev pub on_exception : Error → Exec Error (Frame W) Answer
  on_exception e f =
      (if f.charged || f.charge_uncertain
          then conflict after_payment
          else call (compensate ports c.order_id) >> raise e)
        f

  abbrev pub on_error : Error → Exec Error (Frame W) Answer
  on_error (order_state_conflict r) = raise (order_state_conflict r)
  on_error idempotency_conflict = raise idempotency_conflict
  on_error timeout = on_timeout
  on_error deadline = on_timeout
  on_error e = on_exception e

  unfoldable pub drive_frame : Exec Error (Frame W) Answer
  unfolding steps
  drive_frame = catch steps on_error

  abbrev pub first_frame : W → Frame W
  first_frame w = record {
    world = w;
    charged = false;
    charge_uncertain = false;
    compensated = false;
    settled_paid = false;
  }

  unfoldable pub drive : Call W Answer
  unfolding drive_frame
  drive w = ((drive_frame (first_frame w)).0, (drive_frame (first_frame w)).1.world)
