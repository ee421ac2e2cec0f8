-- ===== src/Orders/Saga/Calm.antt =====
-- What the calls that undo nothing keep: the ports that do not release, cancel or compensate
-- (src/orders/application/checkout_saga.py).
use scalable_ecommerce_backe.Prelude.{
  ℕ, Bool, true, false, Option, none, some, List, [], ◌∷◌, pure, ◌>>=◌,
}
use scalable_ecommerce_backe.Orders.Model.{
  OrderStatus, OrderItem, Order, Step, StepStatus, OrderPlaced, same_status,
}
use scalable_ecommerce_backe.Orders.Saga.Ports.{RefundOutcome, Call, Ports, payment_key_for}
use scalable_ecommerce_backe.Orders.Saga.Undo.{
  journal_refund, restock_cancelled_order, restock_dead, ask_refund, refund_outcome,
  refund_orphaned_charge,
}
use scalable_ecommerce_backe.Orders.Saga.Steady.{Steady}
use scalable_ecommerce_backe.Orders.Saga.Preserves.{
  Preserves, Preserves-pure, Preserves-bind, Preserves-then, Preserves-if, Preserves-or_else,
}

-- A property of the world that no call of the ports breaks, but for a release, a cancellation and
-- what may compensate.
pub record Calm {W : Type 0} (ports : Ports W) (I : W → Type 0) : Type 0 where
  pub get_order : (id : ℕ) → Preserves I (ports.get_order id)
  pub get_order_status : (id : ℕ) → Preserves I (ports.get_order_status id)
  pub log_saga_step :
      (id : ℕ) (step : Step) (status : StepStatus)
      → Preserves I (ports.log_saga_step id step status)
  pub mark_paid :
      (id : ℕ) (message : OrderPlaced)
      → Preserves I
          (ports.transition_status id (OrderStatus.pending ∷ []) OrderStatus.paid (some message))
  pub commit_for_order : (id expected : ℕ) → Preserves I (ports.commit_for_order id expected)
  pub restock_for_order : (id : ℕ) → Preserves I (ports.restock_for_order id)
  pub refund : (key : ℕ × ℕ) → Preserves I (ports.refund key)
  pub consume : (user_id : ℕ) (lines : List OrderItem) → Preserves I (ports.consume user_id lines)
  pub put : (user_id key hash : ℕ) (o : Order) → Preserves I (ports.put user_id key hash o)

module _ {W : Type 0} (ports : Ports W) (I : W → Type 0) (calm : Calm ports I) where
  journal_refund-Preserves :
      (id : ℕ) (status : StepStatus) → Preserves I (journal_refund ports id status)
  unfolding journal_refund
  journal_refund-Preserves id status = Preserves-or_else I false _ (
      Preserves-then I (ports.log_saga_step id Step.refund status) (pure true)
        (calm.log_saga_step id Step.refund status) (Preserves-pure I true))

  restock_dead-Preserves :
      (id : ℕ) (status : Option OrderStatus) → Preserves I (restock_dead ports id status)
  restock_dead-Preserves id none = Preserves-pure I true
  restock_dead-Preserves id (some status) =
      Preserves-if I (same_status status OrderStatus.cancelled) _ _
        (Preserves-then I (ports.restock_for_order id) (pure true) (calm.restock_for_order id)
          (Preserves-pure I true))
        (Preserves-pure I true)

  pub restock-Preserves : (id : ℕ) → Preserves I (restock_cancelled_order ports id)
  unfolding restock_cancelled_order
  restock-Preserves id = Preserves-or_else I false _ (
      Preserves-bind I (ports.get_order_status id) (restock_dead ports id)
        (calm.get_order_status id) (restock_dead-Preserves id))

  refund_outcome-Preserves :
      (id : ℕ) (intent restocked : Bool) (answer : Option Bool)
      → Preserves I (refund_outcome ports id intent restocked answer)
  refund_outcome-Preserves id true restocked none = Preserves-pure I RefundOutcome.deferred
  refund_outcome-Preserves id false restocked none = Preserves-pure I RefundOutcome.refused
  refund_outcome-Preserves id intent true (some true) =
      Preserves-then I (journal_refund ports id StepStatus.completed) (pure RefundOutcome.refunded)
        (journal_refund-Preserves id StepStatus.completed) (Preserves-pure I RefundOutcome.refunded)
  refund_outcome-Preserves id intent false (some true) = Preserves-pure I RefundOutcome.refunded
  refund_outcome-Preserves id true restocked (some false) =
      Preserves-then I (journal_refund ports id StepStatus.refused) (pure RefundOutcome.refused)
        (journal_refund-Preserves id StepStatus.refused) (Preserves-pure I RefundOutcome.refused)
  refund_outcome-Preserves id false restocked (some false) = Preserves-pure I RefundOutcome.refused

  ask_refund-Preserves : (key : ℕ × ℕ) → Preserves I (ask_refund ports key)
  ask_refund-Preserves key = Preserves-or_else I none _ (
      Preserves-bind I (ports.refund key) (λ refunded. pure (some refunded)) (calm.refund key)
        (λ refunded. Preserves-pure I (some refunded)))

  pub refund_orphaned_charge-Preserves :
      (id user_id key : ℕ) → Preserves I (refund_orphaned_charge ports id user_id key)
  unfolding refund_orphaned_charge
  refund_orphaned_charge-Preserves id user_id key =
      Preserves-bind I (journal_refund ports id StepStatus.requested) after_intent
        (journal_refund-Preserves id StepStatus.requested)
        (λ intent.
          Preserves-bind I (restock_cancelled_order ports id) (after_restock intent)
            (restock-Preserves id)
            (λ restocked.
              Preserves-bind I (ask_refund ports (payment_key_for user_id key))
                (refund_outcome ports id intent restocked)
                (ask_refund-Preserves (payment_key_for user_id key))
                (refund_outcome-Preserves id intent restocked)))
    where
      after_restock : Bool → Bool → Call W RefundOutcome
      after_restock intent restocked =
          ask_refund ports (payment_key_for user_id key)
          >>= refund_outcome ports id intent restocked

      after_intent : Bool → Call W RefundOutcome
      after_intent intent = restock_cancelled_order ports id >>= after_restock intent

  -- What the calls that undo nothing keep, the calls of the success path keep.
  pub steady_of : Steady ports I
  steady_of = record {
    get_order = calm.get_order;
    log_saga_step = calm.log_saga_step;
    mark_paid = calm.mark_paid;
    commit_for_order = calm.commit_for_order;
    consume = calm.consume;
    put = calm.put;
  }
