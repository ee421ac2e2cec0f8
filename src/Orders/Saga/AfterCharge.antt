-- ===== src/Orders/Saga/AfterCharge.antt =====
-- The part of `_drive` after the charge releases, cancels and compensates nothing
-- (src/orders/application/checkout_saga.py). The predicate K on the frame is any that a call keeps
-- when it keeps I on the world.
use scalable_ecommerce_backe.Prelude.{
  if◌then◌else◌, Option, none, some, [], ◌∷◌, length, Exec, ◌>>◌,
}
use scalable_ecommerce_backe.Orders.Model.{
  OrderStatus, Order, Step, StepStatus, order_placed_outbox, same_status,
}
use scalable_ecommerce_backe.Orders.Saga.Ports.{
  RefundOutcome, Error, order_state_conflict, vanished, cancelled_after_charge, stock_not_committed,
  Call, Ports,
}
use scalable_ecommerce_backe.Orders.Saga.Undo.{refund_orphaned_charge, commit_holds}
use scalable_ecommerce_backe.Orders.Saga.Basket.{remember, consume_basket}
use scalable_ecommerce_backe.Orders.Saga.Settling.{
  Frame, Answer, Checkout, conflict, call, log, finish, return_money, lost_flip, flipped, flip_paid,
  mark_paid, shortfall, dead_or_waiting, try_commit, commit,
}
use scalable_ecommerce_backe.Orders.Saga.Preserves.{
  Preserves, Preserves-raise, Preserves-bind, Preserves-then, Preserves-if,
}
use scalable_ecommerce_backe.Orders.Saga.Calm.{Calm, refund_orphaned_charge-Preserves, steady_of}
use scalable_ecommerce_backe.Orders.Saga.Steady.{
  commit_holds-Preserves, call_keeps, log-Preserves, finish-Preserves, try_commit-Preserves,
}

module _ {W : Type 0} (ports : Ports W) (I : W → Type 0) (calm : Calm ports I) where
  module _ (K : Frame W → Type 0)
      (lift : (f : Frame W) (w : W) → (I f.world → I w) → K f → K (record f { world = w }))
      (c : Checkout) where
    awaited : {A : Type 0} (m : Call W A) → Preserves I m → Preserves K (call m)
    awaited = call_keeps ports I (steady_of ports I calm) K lift c

    log_keeps : (step : Step) (status : StepStatus) → Preserves K (log ports c step status)
    log_keeps = log-Preserves ports I (steady_of ports I calm) K lift c

    finish_keeps : (paid : Order) → Preserves K (finish ports c paid)
    unfolding finish remember consume_basket
    finish_keeps = finish-Preserves ports I (steady_of ports I calm) K lift c

    return_money-Preserves : (A : Type 0) → Preserves K (return_money ports c {A = A})
    unfolding return_money
    return_money-Preserves A =
        Preserves-bind K (call (refund_orphaned_charge ports c.order_id c.user_id c.key)) died
          (awaited (refund_orphaned_charge ports c.order_id c.user_id c.key)
            (refund_orphaned_charge-Preserves ports I calm c.order_id c.user_id c.key))
          (λ outcome. Preserves-raise K A (order_state_conflict (cancelled_after_charge outcome)))
      where
        died : RefundOutcome → Exec Error (Frame W) A
        died outcome = conflict (cancelled_after_charge outcome)

    lost_flip-Preserves : (settled : Option Order) → Preserves K (lost_flip ports c settled)
    unfolding lost_flip
    lost_flip-Preserves none = Preserves-raise K Answer vanished
    lost_flip-Preserves (some settled) =
        Preserves-if K (same_status settled.status OrderStatus.paid) (finish ports c settled)
          (return_money ports c) (finish_keeps settled) (return_money-Preserves Answer)

    flipped-Preserves : (paid : Option Order) → Preserves K (flipped ports c paid)
    unfolding flipped
    flipped-Preserves (some paid) =
        Preserves-then K (log ports c Step.mark_paid StepStatus.completed) (finish ports c paid)
          (log_keeps Step.mark_paid StepStatus.completed) (finish_keeps paid)
    flipped-Preserves none =
        Preserves-bind K (call (ports.get_order c.order_id)) (lost_flip ports c)
          (awaited (ports.get_order c.order_id) (calm.get_order c.order_id)) lost_flip-Preserves

    flip_paid-Preserves : (order : Option Order) → Preserves K (flip_paid ports c order)
    unfolding flip_paid
    flip_paid-Preserves none = Preserves-raise K Answer vanished
    flip_paid-Preserves (some order) =
        Preserves-bind K (log ports c Step.mark_paid StepStatus.started >> call flip)
          (flipped ports c)
          (Preserves-then K (log ports c Step.mark_paid StepStatus.started) (call flip)
            (log_keeps Step.mark_paid StepStatus.started)
            (awaited flip (calm.mark_paid c.order_id (order_placed_outbox order))))
          flipped-Preserves
      where
        flip : Call W (Option Order)
        flip =
            ports.transition_status c.order_id (OrderStatus.pending ∷ []) OrderStatus.paid
              (some (order_placed_outbox order))

    mark_paid-Preserves : Preserves K (mark_paid ports c)
    unfolding mark_paid
    mark_paid-Preserves =
        Preserves-bind K
          (log ports c Step.commit StepStatus.completed >> call (ports.get_order c.order_id))
          (flip_paid ports c)
          (Preserves-then K (log ports c Step.commit StepStatus.completed)
            (call (ports.get_order c.order_id)) (log_keeps Step.commit StepStatus.completed)
            (awaited (ports.get_order c.order_id) (calm.get_order c.order_id)))
          flip_paid-Preserves

    dead_or_waiting-Preserves :
        (status : Option OrderStatus) → Preserves K (dead_or_waiting ports c status)
    unfolding return_money
    dead_or_waiting-Preserves none =
        Preserves-raise K Answer (order_state_conflict stock_not_committed)
    dead_or_waiting-Preserves (some status) =
        Preserves-if K (same_status status OrderStatus.cancelled) (return_money ports c)
          (conflict stock_not_committed) (return_money-Preserves Answer)
          (Preserves-raise K Answer (order_state_conflict stock_not_committed))

    shortfall-Preserves : Preserves K (shortfall ports c)
    unfolding shortfall
    shortfall-Preserves =
        Preserves-bind K
          (log ports c Step.commit StepStatus.shortfall >> call (ports.get_order_status c.order_id))
          (dead_or_waiting ports c)
          (Preserves-then K (log ports c Step.commit StepStatus.shortfall)
            (call (ports.get_order_status c.order_id)) (log_keeps Step.commit StepStatus.shortfall)
            (awaited (ports.get_order_status c.order_id) (calm.get_order_status c.order_id)))
          dead_or_waiting-Preserves

    pub commit-Preserves : Preserves K (commit ports c)
    unfolding commit
    commit-Preserves =
        Preserves-bind K
          (try_commit ports c >> call (commit_holds ports c.order_id (length c.lines)))
          (λ committed. if committed then mark_paid ports c else shortfall ports c)
          (Preserves-then K (try_commit ports c)
            (call (commit_holds ports c.order_id (length c.lines)))
            (try_commit-Preserves ports I (steady_of ports I calm) K lift c)
            (awaited (commit_holds ports c.order_id (length c.lines)) (
              commit_holds-Preserves ports I (steady_of ports I calm) c.order_id (length c.lines))))
          (λ committed.
            Preserves-if K committed (mark_paid ports c) (shortfall ports c) mark_paid-Preserves
              shortfall-Preserves)
