-- ===== src/Orders/Saga/Recovery.antt =====
-- The recovery of src/orders/application/checkout_saga.py: `_settle_crashed`,
-- `_retry_journaled_refund` and the pass `recover_stuck`. The labels of metrics are left out.
use scalable_ecommerce_backe.Prelude.{
  ℕ, ◌+◌, if◌then◌else◌, Bool, true, false, Option, none, some, List, [], ◌∷◌, length, pure, raise,
  ◌>>=◌, ◌>>◌,
}
use scalable_ecommerce_backe.Orders.Model.{
  OrderStatus, Order, Step, StepStatus, order_placed_outbox, same_status,
}
use scalable_ecommerce_backe.Orders.Saga.Ports.{
  ChargeResult, RefundOutcome, Call, Ports, payment_key_for, is_exception, catch,
}
use scalable_ecommerce_backe.Orders.Saga.Undo.{
  compensate, restock_cancelled_order, refund_orphaned_charge, commit_holds,
}
use scalable_ecommerce_backe.Orders.Saga.Basket.{consume_basket}

-- The keys of the counts.
pub data Settled : Type 0 where
  completed compensated deferred refunded refund_failed : Settled

pub record Counts : Type 0 where
  pub completed : ℕ
  pub compensated : ℕ
  pub deferred : ℕ
  pub refunded : ℕ
  pub refund_failed : ℕ

abbrev pub no_counts : Counts
no_counts = record { completed = 0; compensated = 0; deferred = 0; refunded = 0; refund_failed = 0 }

abbrev pub bump : Settled → Counts → Counts
bump Settled.completed n = record n { completed = n.completed + 1 }
bump Settled.compensated n = record n { compensated = n.compensated + 1 }
bump Settled.deferred n = record n { deferred = n.deferred + 1 }
bump Settled.refunded n = record n { refunded = n.refunded + 1 }
bump Settled.refund_failed n = record n { refund_failed = n.refund_failed + 1 }

module _ {W : Type 0} (ports : Ports W) where
  abbrev pub key_of : Order → ℕ × ℕ
  key_of order = payment_key_for order.user_id order.idempotency_key

  abbrev pub by_refund : RefundOutcome → Settled
  by_refund RefundOutcome.refunded = Settled.refunded
  by_refund RefundOutcome.deferred = Settled.deferred
  by_refund RefundOutcome.refused = Settled.refund_failed

  -- The guarded flip was lost: to a cancel, or to another frame that paid.
  abbrev pub lost : Order → Option OrderStatus → Call W Settled
  lost order (some OrderStatus.cancelled) =
      refund_orphaned_charge ports order.id order.user_id order.idempotency_key >>= λ r.
      pure (by_refund r)
  lost order _ = pure Settled.completed

  abbrev pub paid_or_lost : Order → Option Order → Call W Settled
  paid_or_lost order (some paid) =
      (if same_status paid.status OrderStatus.paid
        then ports.log_saga_step order.id Step.mark_paid StepStatus.completed
          >> consume_basket ports order.user_id order.items
        else pure tt)
      >> pure Settled.completed
  paid_or_lost order none = ports.get_order_status order.id >>= lost order

  -- The holds were reaped: the money goes back first, and then the order is cancelled.
  abbrev pub give_back : Order → Bool → Call W Settled
  give_back order answer =
      ports.log_saga_step order.id Step.refund
        (if answer then StepStatus.completed else StepStatus.refused)
      >> compensate ports order.id
      >> pure Settled.compensated

  abbrev pub committed : Order → Bool → Call W Settled
  committed order false = ports.refund (key_of order) >>= give_back order
  committed order true =
      ports.log_saga_step order.id Step.commit StepStatus.completed
      >> ports.log_saga_step order.id Step.mark_paid StepStatus.started
      >> ports.transition_status order.id (OrderStatus.pending ∷ []) OrderStatus.paid
          (some (order_placed_outbox order))
      >>= paid_or_lost order

  abbrev pub by_payment : Order → Option ChargeResult → Call W Settled
  by_payment order (some ChargeResult.succeeded) =
      commit_holds ports order.id (length order.items) >>= committed order
  by_payment order (some ChargeResult.refunded) =
      compensate ports order.id >> pure Settled.compensated
  by_payment order (some ChargeResult.failed) =
      compensate ports order.id >> pure Settled.compensated
  by_payment order (some ChargeResult.pending) = pure Settled.deferred
  by_payment order none = compensate ports order.id >> pure Settled.compensated

  -- `_settle_crashed`
  unfoldable pub settle_crashed : Order → Call W Settled
  settle_crashed order = ports.find_by_idempotency_key (key_of order) >>= by_payment order

  -- `_retry_journaled_refund`
  abbrev pub asked_again : Order → Bool → Call W Settled
  asked_again order true =
      ports.log_saga_step order.id Step.refund StepStatus.completed >> pure Settled.refunded
  asked_again order false =
      ports.log_saga_step order.id Step.refund StepStatus.refused >> pure Settled.refund_failed

  abbrev pub standing : Order → Option ChargeResult → Call W Settled
  standing order (some ChargeResult.refunded) =
      ports.log_saga_step order.id Step.refund StepStatus.completed >> pure Settled.refunded
  standing order (some ChargeResult.succeeded) = ports.refund (key_of order) >>= asked_again order
  standing order _ = pure Settled.deferred

  abbrev pub if_restocked : Order → Bool → Call W Settled
  if_restocked order false = pure Settled.deferred
  if_restocked order true = ports.find_by_idempotency_key (key_of order) >>= standing order

  unfoldable pub retry_journaled_refund : Order → Call W Settled
  retry_journaled_refund order = restock_cancelled_order ports order.id >>= if_restocked order

  -- One claimed order of `recover_stuck`: read afresh, and left alone while its journal moves.
  abbrev pub unless_active : Order → Bool → Call W Settled
  unless_active order true = pure Settled.deferred
  unless_active order false = settle_crashed order

  abbrev pub settle_claimed : ℕ → Option Order → Call W Settled
  settle_claimed cutoff none = pure Settled.deferred
  settle_claimed cutoff (some order) =
      ports.has_recent_saga_activity order.id cutoff >>= unless_active order

  unfoldable pub settle_stuck : ℕ → ℕ → Call W Settled
  unfolding settle_crashed
  settle_stuck cutoff order_id = ports.get_order order_id >>= settle_claimed cutoff

  abbrev pub retry_claimed : Option Order → Call W Settled
  retry_claimed none = pure Settled.deferred
  retry_claimed (some order) = retry_journaled_refund order

  unfoldable pub retry_refund : ℕ → Call W Settled
  retry_refund order_id = ports.get_order order_id >>= retry_claimed

  -- What raises is rolled back and deferred.
  abbrev pub or_deferred : Call W Settled → Call W Settled
  or_deferred m =
      catch m (λ e. if is_exception e then ports.rollback >> pure Settled.deferred else raise e)

  abbrev pub each : (ℕ → Call W Settled) → List ℕ → Counts → Call W Counts
  each settle [] n = pure n
  each settle (id ∷ ids) n = or_deferred (settle id) >>= λ s. each settle ids (bump s n)

  unfoldable pub recover_stuck : ℕ → ℕ → Call W Counts
  unfolding settle_stuck retry_refund
  recover_stuck cutoff batch_size = ports.claim_stuck_pending cutoff batch_size >>= λ stuck.
      each (settle_stuck cutoff) stuck no_counts >>= λ n.
      ports.claim_cancelled_with_pending_refund cutoff batch_size >>= λ refunds.
      each retry_refund refunds n
