-- ===== src/Orders/Saga/Recovering.antt =====
-- What one settled order keeps (`recover_stuck` of src/orders/application/checkout_saga.py): an order
-- whose charge stands is compensated only after a refund was asked for and answered, be it with a
-- refusal, which leaves the money out.
use scalable_ecommerce_backe.Prelude.{
  ℕ, ◌≡◌, refl, if◌then◌else◌, Bool, true, false, Option, none, some, [], ◌∷◌, length, ok, pure,
  ◌>>=◌, ◌>>◌,
}
use scalable_ecommerce_backe.Orders.Model.{
  OrderStatus, Order, Step, StepStatus, order_placed_outbox, same_status,
}
use scalable_ecommerce_backe.Orders.Saga.Ports.{ChargeResult, Call, Ports}
use scalable_ecommerce_backe.Orders.Saga.Undo.{compensate, refund_orphaned_charge, commit_holds}
use scalable_ecommerce_backe.Orders.Saga.Basket.{consume_basket}
use scalable_ecommerce_backe.Orders.Saga.Recovery.{
  Settled, key_of, by_refund, lost, paid_or_lost, give_back, committed, by_payment, settle_crashed,
}
use scalable_ecommerce_backe.Orders.Saga.Preserves.{
  Preserves, Preserves-pure, Preserves-bind, Preserves-then, Preserves-if, Preserves-or_else,
  bind_lands,
}
use scalable_ecommerce_backe.Orders.Saga.Calm.{Calm, refund_orphaned_charge-Preserves, steady_of}
use scalable_ecommerce_backe.Orders.Saga.Steady.{commit_holds-Preserves}

-- No charge that a lookup answers with still holds the money, or may come to.
abbrev pub stands : Option ChargeResult → Bool
stands none = false
stands (some ChargeResult.succeeded) = true
stands (some ChargeResult.pending) = true
stands (some ChargeResult.failed) = false
stands (some ChargeResult.refunded) = false

-- No call of the recovery breaks G, but for a compensation of an order o where Returned o does not
-- hold. A refund that is answered, also with a refusal, leaves Returned o, so does a lookup that finds no standing charge,
-- and a refund's journal row keeps it.
pub record Guarded {W : Type 0} (ports : Ports W) (G : W → Type 0) (Returned : Order → W → Type 0)
    : Type 0 where
  pub calm : Calm ports G
  pub find : (key : ℕ × ℕ) → Preserves G (ports.find_by_idempotency_key key)
  pub has_recent : (id since : ℕ) → Preserves G (ports.has_recent_saga_activity id since)
  pub claim_pending : (cutoff n : ℕ) → Preserves G (ports.claim_stuck_pending cutoff n)
  pub claim_refunds :
      (cutoff n : ℕ) → Preserves G (ports.claim_cancelled_with_pending_refund cutoff n)
  pub rollback : Preserves G ports.rollback
  pub no_charge :
      (o : Order) (w : W) (found : Option ChargeResult)
      → (ports.find_by_idempotency_key (key_of ports o) w).0 ≡ ok found
      → stands found ≡ false
      → Returned o (ports.find_by_idempotency_key (key_of ports o) w).1
  pub returned :
      (o : Order) (w : W) (b : Bool)
      → (ports.refund (key_of ports o) w).0 ≡ ok b
      → Returned o (ports.refund (key_of ports o) w).1
  pub journal :
      (o : Order) (status : StepStatus)
      → Preserves (Returned o) (ports.log_saga_step o.id Step.refund status)
  pub undone : (o : Order) (w : W) → Returned o w → G w → G (compensate ports o.id w).1

module _ {W : Type 0} (ports : Ports W) (G : W → Type 0) (Returned : Order → W → Type 0)
    (guarded : Guarded ports G Returned) where
  lost-Preserves :
      (order : Order) (status : Option OrderStatus) → Preserves G (lost ports order status)
  lost-Preserves order (some OrderStatus.cancelled) =
      Preserves-bind G (refund_orphaned_charge ports order.id order.user_id order.idempotency_key)
        (λ r. pure (by_refund ports r))
        (refund_orphaned_charge-Preserves ports G guarded.calm order.id order.user_id
          order.idempotency_key)
        (λ r. Preserves-pure G (by_refund ports r))
  lost-Preserves order (some OrderStatus.pending) = Preserves-pure G Settled.completed
  lost-Preserves order (some OrderStatus.paid) = Preserves-pure G Settled.completed
  lost-Preserves order (some OrderStatus.shipped) = Preserves-pure G Settled.completed
  lost-Preserves order none = Preserves-pure G Settled.completed

  paid_or_lost-Preserves :
      (order : Order) (paid : Option Order) → Preserves G (paid_or_lost ports order paid)
  unfolding consume_basket
  paid_or_lost-Preserves order (some paid) =
      Preserves-then G (if same_status paid.status OrderStatus.paid then tidy else pure tt)
        (pure Settled.completed)
        (Preserves-if G (same_status paid.status OrderStatus.paid) tidy (pure tt)
          (Preserves-then G (ports.log_saga_step order.id Step.mark_paid StepStatus.completed)
            (consume_basket ports order.user_id order.items)
            (guarded.calm.log_saga_step order.id Step.mark_paid StepStatus.completed)
            (Preserves-or_else G tt (ports.consume order.user_id order.items)
              (guarded.calm.consume order.user_id order.items)))
          (Preserves-pure G tt))
        (Preserves-pure G Settled.completed)
    where
      tidy : Call W (Unit {0})
      tidy =
          ports.log_saga_step order.id Step.mark_paid StepStatus.completed
          >> consume_basket ports order.user_id order.items
  paid_or_lost-Preserves order none =
      Preserves-bind G (ports.get_order_status order.id) (lost ports order)
        (guarded.calm.get_order_status order.id) (lost-Preserves order)

  -- From a world where the charge of the order is returned.
  abbrev Back : Order → W → Type 0
  Back o w = Returned o w × G w

  give_back-Preserves :
      (order : Order) (b : Bool) (w : W) → Back order w → G (give_back ports order b w).1
  give_back-Preserves order b w back =
      bind_lands G (mark >> compensate ports order.id) (λ _. pure Settled.compensated) w undone
        (λ _ _. undone)
    where
      status : StepStatus
      status = if b then StepStatus.completed else StepStatus.refused

      mark : Call W (Unit {0})
      mark = ports.log_saga_step order.id Step.refund status

      undone : G ((mark >> compensate ports order.id) w).1
      undone =
          bind_lands G mark (λ _. compensate ports order.id) w
            (guarded.calm.log_saga_step order.id Step.refund status w back.1)
            (λ _ _.
              guarded.undone order (mark w).1 (guarded.journal order status w back.0)
                (guarded.calm.log_saga_step order.id Step.refund status w back.1))

  committed-Preserves : (order : Order) (enough : Bool) → Preserves G (committed ports order enough)
  committed-Preserves order false = λ w g.
      bind_lands G (ports.refund (key_of ports order)) (give_back ports order) w
        (guarded.calm.refund (key_of ports order) w g)
        (λ b h.
          give_back-Preserves order b (ports.refund (key_of ports order) w).1
            (guarded.returned order w b h, guarded.calm.refund (key_of ports order) w g))
  committed-Preserves order true =
      Preserves-bind G (begin >> flip) (paid_or_lost ports order)
        (Preserves-then G begin flip
          (Preserves-then G (ports.log_saga_step order.id Step.commit StepStatus.completed)
            (ports.log_saga_step order.id Step.mark_paid StepStatus.started)
            (guarded.calm.log_saga_step order.id Step.commit StepStatus.completed)
            (guarded.calm.log_saga_step order.id Step.mark_paid StepStatus.started))
          (guarded.calm.mark_paid order.id (order_placed_outbox order)))
        (paid_or_lost-Preserves order)
    where
      begin : Call W (Unit {0})
      begin =
          ports.log_saga_step order.id Step.commit StepStatus.completed
          >> ports.log_saga_step order.id Step.mark_paid StepStatus.started

      flip : Call W (Option Order)
      flip =
          ports.transition_status order.id (OrderStatus.pending ∷ []) OrderStatus.paid
            (some (order_placed_outbox order))

  unpaid-Preserves :
      (order : Order) (w : W)
      → Back order w
      → G (◌>>=◌ (compensate ports order.id) (λ _. pure Settled.compensated) w).1
  unpaid-Preserves order w back =
      bind_lands G (compensate ports order.id) (λ _. pure Settled.compensated) w undone
        (λ _ _. undone)
    where
      undone : G (compensate ports order.id w).1
      undone = guarded.undone order w back.0 back.1

  by_payment-Preserves :
      (order : Order) (found : Option ChargeResult) (w : W)
      → (stands found ≡ false → Returned order w)
      → G w
      → G (by_payment ports order found w).1
  by_payment-Preserves order (some ChargeResult.succeeded) w back =
      Preserves-bind G (commit_holds ports order.id (length order.items)) (committed ports order)
        (commit_holds-Preserves ports G (steady_of ports G guarded.calm) order.id
          (length order.items))
        (committed-Preserves order) w
  by_payment-Preserves order (some ChargeResult.refunded) w back =
      λ g. unpaid-Preserves order w (back refl, g)
  by_payment-Preserves order (some ChargeResult.failed) w back =
      λ g. unpaid-Preserves order w (back refl, g)
  by_payment-Preserves order (some ChargeResult.pending) w back = λ g. g
  by_payment-Preserves order none w back = λ g. unpaid-Preserves order w (back refl, g)

  pub settle_crashed-Preserves : (order : Order) → Preserves G (settle_crashed ports order)
  unfolding settle_crashed
  settle_crashed-Preserves order w g =
      bind_lands G (ports.find_by_idempotency_key (key_of ports order)) (by_payment ports order) w
        looked
        (λ found h.
          by_payment-Preserves order found (ports.find_by_idempotency_key (key_of ports order) w).1
            (guarded.no_charge order w found h) looked)
    where
      looked : G (ports.find_by_idempotency_key (key_of ports order) w).1
      looked = guarded.find (key_of ports order) w g
