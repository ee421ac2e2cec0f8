-- ===== src/Orders/Saga/Undo.antt =====
-- What the saga undoes: `compensate_with` and `_compensate_after_cancel`, the journaled refund of a
-- charge whose order died, and `_commit_holds` (src/orders/application/checkout_saga.py).
use scalable_ecommerce_backe.Prelude.{
  ℕ, leb, if◌then◌else◌, Bool, true, false, Option, none, some, [], ◌∷◌, pure, ◌>>=◌, ◌>>◌,
}
use scalable_ecommerce_backe.Orders.Model.{OrderStatus, Step, StepStatus, same_status}
use scalable_ecommerce_backe.Orders.Saga.Ports.{
  RefundOutcome, Call, Ports, payment_key_for, or_else,
}

module _ {W : Type 0} (ports : Ports W) where
  -- `compensate_with` on a scope's ports: release, then the guarded cancel, between two journal rows.
  unfoldable pub compensate : ℕ → Call W (Unit {0})
  compensate order_id =
      ports.log_saga_step order_id Step.compensate StepStatus.started
      >> ports.release_for_order order_id
      >> ports.transition_status order_id (OrderStatus.pending ∷ []) OrderStatus.cancelled none
      >> ports.log_saga_step order_id Step.compensate StepStatus.completed

  abbrev compensate_fresh : Option (ℕ → Call W (Unit {0})) → ℕ → Call W (Unit {0})
  compensate_fresh none order_id = compensate order_id
  compensate_fresh (some fresh) order_id = fresh order_id

  -- `_compensate_after_cancel`
  unfoldable pub compensate_after_cancel : ℕ → Call W (Unit {0})
  compensate_after_cancel order_id =
      or_else tt ports.rollback >> compensate_fresh ports.fresh_compensate order_id

  -- `_journal_refund`: whether the marker is durable.
  unfoldable pub journal_refund : ℕ → StepStatus → Call W Bool
  journal_refund order_id status =
      or_else false (ports.log_saga_step order_id Step.refund status >> pure true)

  abbrev pub restock_dead : ℕ → Option OrderStatus → Call W Bool
  restock_dead order_id none = pure true
  restock_dead order_id (some status) =
      if same_status status OrderStatus.cancelled
      then ports.restock_for_order order_id >> pure true
      else pure true

  -- `_restock_cancelled_order`
  unfoldable pub restock_cancelled_order : ℕ → Call W Bool
  restock_cancelled_order order_id =
      or_else false (ports.get_order_status order_id >>= restock_dead order_id)

  -- `_refund_orphaned_charge`: the answer of the provider, or nothing where it raised.
  abbrev pub ask_refund : ℕ × ℕ → Call W (Option Bool)
  ask_refund key = or_else none (ports.refund key >>= λ refunded. pure (some refunded))

  abbrev pub refund_outcome : ℕ → Bool → Bool → Option Bool → Call W RefundOutcome
  refund_outcome order_id true restocked none = pure RefundOutcome.deferred
  refund_outcome order_id false restocked none = pure RefundOutcome.refused
  refund_outcome order_id intent true (some true) =
      journal_refund order_id StepStatus.completed >> pure RefundOutcome.refunded
  refund_outcome order_id intent false (some true) = pure RefundOutcome.refunded
  refund_outcome order_id true restocked (some false) =
      journal_refund order_id StepStatus.refused >> pure RefundOutcome.refused
  refund_outcome order_id false restocked (some false) = pure RefundOutcome.refused

  unfoldable pub refund_orphaned_charge : ℕ → ℕ → ℕ → Call W RefundOutcome
  unfolding journal_refund
  refund_orphaned_charge order_id user_id key =
      journal_refund order_id StepStatus.requested >>= λ intent.
      restock_cancelled_order order_id >>= λ restocked.
      ask_refund (payment_key_for user_id key) >>= refund_outcome order_id intent restocked

  -- `_commit_holds`
  unfoldable pub commit_holds : ℕ → ℕ → Call W Bool
  commit_holds order_id expected =
      ports.commit_for_order order_id expected >>= λ committed. pure (leb expected committed)
