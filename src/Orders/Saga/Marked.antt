-- ===== src/Orders/Saga/Marked.antt =====
-- The end of `_drive`'s successful path: the order is flipped to paid, or found paid, and answered
-- (src/orders/application/checkout_saga.py).
use scalable_ecommerce_backe.Prelude.{
  if◌then◌else◌, Bool, true, false, Option, none, some, [], ◌∷◌, Exec, ◌>>◌,
}
use scalable_ecommerce_backe.Orders.Model.{
  OrderStatus, Order, Step, StepStatus, order_placed_outbox, same_status,
}
use scalable_ecommerce_backe.Orders.Saga.Ports.{Error, vanished, Call, Ports}
use scalable_ecommerce_backe.Orders.Saga.Basket.{remember, consume_basket}
use scalable_ecommerce_backe.Orders.Saga.Settling.{
  Frame, Checkout, call, log, return_money, finish, lost_flip, flipped, flip_paid, mark_paid,
}
use scalable_ecommerce_backe.Orders.Saga.Preserves.{Preserves, Preserves-then}
use scalable_ecommerce_backe.Orders.Saga.Steady.{
  Steady, call_keeps, log-Preserves, finish-Preserves,
}
use scalable_ecommerce_backe.Orders.Saga.Confirms.{Confirms, Confirms-raise, Confirms-bind}
use scalable_ecommerce_backe.Orders.Saga.Refused.{return_money-Confirms}

module _ {W : Type 0} (ports : Ports W) (Paid Committed : W → Type 0) (paid : Steady ports Paid)
    (held : Steady ports Committed) (c : Checkout) where
  abbrev Settled : Frame W → Type 0
  Settled f = Paid f.world × Committed f.world

  both : Steady ports (λ w. Paid w × Committed w)
  both = record {
    get_order = λ id w (p, k). (paid.get_order id w p, held.get_order id w k);
    log_saga_step = λ id step status w (p, k).
        (paid.log_saga_step id step status w p, held.log_saga_step id step status w k);
    mark_paid =
        λ id message w (p, k). (paid.mark_paid id message w p, held.mark_paid id message w k);
    commit_for_order = λ id expected w (p, k).
        (paid.commit_for_order id expected w p, held.commit_for_order id expected w k);
    consume =
        λ user_id lines w (p, k). (paid.consume user_id lines w p, held.consume user_id lines w k);
    put = λ user_id key hash o w (p, k).
        (paid.put user_id key hash o w p, held.put user_id key hash o w k);
  }

  logs : (step : Step) (status : StepStatus) → Preserves Settled (log ports c step status)
  logs = log-Preserves ports (λ w. Paid w × Committed w) both Settled (λ f w p. p) c

  awaits :
      {A : Type 0} (m : Call W A)
      → Preserves (λ w. Paid w × Committed w) m
      → Preserves Settled (call m)
  awaits = call_keeps ports (λ w. Paid w × Committed w) both Settled (λ f w p. p) c

  finish-Confirms :
      (settled : Order) (f : Frame W) → Settled f → Confirms Settled (finish ports c settled) f
  unfolding finish remember consume_basket
  finish-Confirms settled f k o h =
      finish-Preserves ports (λ w. Paid w × Committed w) both Settled (λ f w p. p) c settled f k

  lost_flip-Confirms :
      (settled : Option Order) (f : Frame W)
      → Settled f
      → Confirms Settled (lost_flip ports c settled) f
  unfolding lost_flip
  lost_flip-Confirms none f k = Confirms-raise Settled vanished f
  lost_flip-Confirms (some settled) f k = after (same_status settled.status OrderStatus.paid)
    where
      after :
          (b : Bool)
          → Confirms Settled (if b then finish ports c settled else return_money ports c) f
      after true = finish-Confirms settled f k
      after false = (return_money-Confirms ports Settled c) f

  flipped-Confirms :
      (order : Option Order) (f : Frame W) → Settled f → Confirms Settled (flipped ports c order) f
  unfolding flipped
  flipped-Confirms (some order) f k =
      Confirms-bind Settled (λ _. Settled) (log ports c Step.mark_paid StepStatus.completed)
        (λ _. finish ports c order) f (λ _ _. logs Step.mark_paid StepStatus.completed f k)
        (λ _. finish-Confirms order)
  flipped-Confirms none f k =
      Confirms-bind Settled (λ _. Settled) (call (ports.get_order c.order_id)) (lost_flip ports c) f
        (λ _ _. awaits (ports.get_order c.order_id) (both.get_order c.order_id) f k)
        lost_flip-Confirms

  flip_paid-Confirms :
      (order : Option Order) (f : Frame W)
      → Settled f
      → Confirms Settled (flip_paid ports c order) f
  unfolding flip_paid
  flip_paid-Confirms none f k = Confirms-raise Settled vanished f
  flip_paid-Confirms (some order) f k =
      Confirms-bind Settled (λ _. Settled) start (flipped ports c) f (λ _ _. start-Preserves f k)
        flipped-Confirms
    where
      flip : Call W (Option Order)
      flip =
          ports.transition_status c.order_id (OrderStatus.pending ∷ []) OrderStatus.paid
            (some (order_placed_outbox order))

      start : Exec Error (Frame W) (Option Order)
      start = log ports c Step.mark_paid StepStatus.started >> call flip

      start-Preserves : Preserves Settled start
      start-Preserves =
          Preserves-then Settled (log ports c Step.mark_paid StepStatus.started) (call flip)
            (logs Step.mark_paid StepStatus.started)
            (awaits flip (both.mark_paid c.order_id (order_placed_outbox order)))

  pub mark_paid-Confirms : (f : Frame W) → Settled f → Confirms Settled (mark_paid ports c) f
  unfolding mark_paid
  mark_paid-Confirms f k =
      Confirms-bind Settled (λ _. Settled) start (flip_paid ports c) f (λ _ _. start-Preserves f k)
        flip_paid-Confirms
    where
      start : Exec Error (Frame W) (Option Order)
      start = log ports c Step.commit StepStatus.completed >> call (ports.get_order c.order_id)

      start-Preserves : Preserves Settled start
      start-Preserves =
          Preserves-then Settled (log ports c Step.commit StepStatus.completed)
            (call (ports.get_order c.order_id)) (logs Step.commit StepStatus.completed)
            (awaits (ports.get_order c.order_id) (both.get_order c.order_id))
