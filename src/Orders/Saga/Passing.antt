-- ===== src/Orders/Saga/Passing.antt =====
-- A pass of the recovery (`recover_stuck` of src/orders/application/checkout_saga.py): what it keeps,
-- and that it settles every order it claimed.
use scalable_ecommerce_backe.Prelude.{
  ℕ, if◌then◌else◌, Bool, true, false, Option, none, some, List, [], ◌∷◌, pure, raise, ◌>>=◌, ◌>>◌,
}
use scalable_ecommerce_backe.Orders.Model.{Order, Step, StepStatus}
use scalable_ecommerce_backe.Orders.Saga.Ports.{ChargeResult, Error, Call, Ports, is_exception}
use scalable_ecommerce_backe.Orders.Saga.Undo.{restock_cancelled_order}
use scalable_ecommerce_backe.Orders.Saga.Recovery.{
  Settled, Counts, no_counts, bump, key_of, asked_again, standing, if_restocked,
  retry_journaled_refund, unless_active, settle_claimed, settle_stuck, retry_claimed, retry_refund,
  or_deferred, each, recover_stuck,
}
use scalable_ecommerce_backe.Orders.Saga.Preserves.{
  Preserves, Preserves-pure, Preserves-raise, Preserves-bind, Preserves-then, Preserves-catch,
  Preserves-if,
}
use scalable_ecommerce_backe.Orders.Saga.Calm.{restock-Preserves}
use scalable_ecommerce_backe.Orders.Saga.Recovering.{Guarded, settle_crashed-Preserves}

module _ {W : Type 0} (ports : Ports W) (G : W → Type 0) (Returned : Order → W → Type 0)
    (guarded : Guarded ports G Returned) where
  marked-Preserves :
      (order : Order) (status : StepStatus) (s : Settled)
      → Preserves G (ports.log_saga_step order.id Step.refund status >> pure s)
  marked-Preserves order status s =
      Preserves-then G (ports.log_saga_step order.id Step.refund status) (pure s)
        (guarded.calm.log_saga_step order.id Step.refund status) (Preserves-pure G s)

  asked_again-Preserves : (order : Order) (b : Bool) → Preserves G (asked_again ports order b)
  asked_again-Preserves order true = marked-Preserves order StepStatus.completed Settled.refunded
  asked_again-Preserves order false =
      marked-Preserves order StepStatus.refused Settled.refund_failed

  standing-Preserves :
      (order : Order) (found : Option ChargeResult) → Preserves G (standing ports order found)
  standing-Preserves order (some ChargeResult.refunded) =
      marked-Preserves order StepStatus.completed Settled.refunded
  standing-Preserves order (some ChargeResult.succeeded) =
      Preserves-bind G (ports.refund (key_of ports order)) (asked_again ports order)
        (guarded.calm.refund (key_of ports order)) (asked_again-Preserves order)
  standing-Preserves order (some ChargeResult.failed) = Preserves-pure G Settled.deferred
  standing-Preserves order (some ChargeResult.pending) = Preserves-pure G Settled.deferred
  standing-Preserves order none = Preserves-pure G Settled.deferred

  if_restocked-Preserves : (order : Order) (b : Bool) → Preserves G (if_restocked ports order b)
  if_restocked-Preserves order false = Preserves-pure G Settled.deferred
  if_restocked-Preserves order true =
      Preserves-bind G (ports.find_by_idempotency_key (key_of ports order)) (standing ports order)
        (guarded.find (key_of ports order)) (standing-Preserves order)

  retry_journaled_refund-Preserves :
      (order : Order) → Preserves G (retry_journaled_refund ports order)
  unfolding retry_journaled_refund
  retry_journaled_refund-Preserves order =
      Preserves-bind G (restock_cancelled_order ports order.id) (if_restocked ports order)
        (restock-Preserves ports G guarded.calm order.id) (if_restocked-Preserves order)

  retry_claimed-Preserves : (order : Option Order) → Preserves G (retry_claimed ports order)
  retry_claimed-Preserves none = Preserves-pure G Settled.deferred
  retry_claimed-Preserves (some order) = retry_journaled_refund-Preserves order

  retry_refund-Preserves : (id : ℕ) → Preserves G (retry_refund ports id)
  unfolding retry_refund
  retry_refund-Preserves id =
      Preserves-bind G (ports.get_order id) (retry_claimed ports) (guarded.calm.get_order id)
        retry_claimed-Preserves

  unless_active-Preserves : (order : Order) (b : Bool) → Preserves G (unless_active ports order b)
  unless_active-Preserves order true = Preserves-pure G Settled.deferred
  unless_active-Preserves order false = settle_crashed-Preserves ports G Returned guarded order

  settle_claimed-Preserves :
      (cutoff : ℕ) (order : Option Order) → Preserves G (settle_claimed ports cutoff order)
  settle_claimed-Preserves cutoff none = Preserves-pure G Settled.deferred
  settle_claimed-Preserves cutoff (some order) =
      Preserves-bind G (ports.has_recent_saga_activity order.id cutoff) (unless_active ports order)
        (guarded.has_recent order.id cutoff) (unless_active-Preserves order)

  settle_stuck-Preserves : (cutoff id : ℕ) → Preserves G (settle_stuck ports cutoff id)
  unfolding settle_stuck
  settle_stuck-Preserves cutoff id =
      Preserves-bind G (ports.get_order id) (settle_claimed ports cutoff)
        (guarded.calm.get_order id) (settle_claimed-Preserves cutoff)

  or_deferred-Preserves : (m : Call W Settled) → Preserves G m → Preserves G (or_deferred ports m)
  or_deferred-Preserves m pm = Preserves-catch G m handler pm (λ e.
      Preserves-if G (is_exception e) (ports.rollback >> pure Settled.deferred) (raise e)
        (Preserves-then G ports.rollback (pure Settled.deferred) guarded.rollback
          (Preserves-pure G Settled.deferred))
        (Preserves-raise G Settled e))
    where
      handler : Error → Call W Settled
      handler e = if is_exception e then ports.rollback >> pure Settled.deferred else raise e

  each-Preserves :
      (settle : ℕ → Call W Settled)
      → ((id : ℕ) → Preserves G (settle id))
      → (ids : List ℕ) (n : Counts) → Preserves G (each ports settle ids n)
  each-Preserves settle ps [] n = Preserves-pure G n
  each-Preserves settle ps (id ∷ ids) n =
      Preserves-bind G (or_deferred ports (settle id)) (λ s. each ports settle ids (bump s n))
        (or_deferred-Preserves (settle id) (ps id)) (λ s. each-Preserves settle ps ids (bump s n))

  -- Let G be broken only by the compensation of an order whose charge has not been given back: asked
  -- for with a refund that was answered, be it with a refusal, or looked up and found absent, failed or refunded. Then a
  -- whole recovery pass keeps G, whatever its ports answer or raise.
  pub recover_stuck-IsGuarded :
      (cutoff batch_size : ℕ) (w : W) → G w → G (recover_stuck ports cutoff batch_size w).1
  unfolding recover_stuck
  recover_stuck-IsGuarded cutoff batch_size =
      Preserves-bind G (ports.claim_stuck_pending cutoff batch_size) first
        (guarded.claim_pending cutoff batch_size)
        (λ stuck.
          Preserves-bind G (each ports (settle_stuck ports cutoff) stuck no_counts) second
            (each-Preserves (settle_stuck ports cutoff) (settle_stuck-Preserves cutoff) stuck
              no_counts)
            (λ n.
              Preserves-bind G (ports.claim_cancelled_with_pending_refund cutoff batch_size)
                (third n) (guarded.claim_refunds cutoff batch_size)
                (λ refunds. each-Preserves (retry_refund ports) retry_refund-Preserves refunds n)))
    where
      third : Counts → List ℕ → Call W Counts
      third n refunds = each ports (retry_refund ports) refunds n

      second : Counts → Call W Counts
      second n = ports.claim_cancelled_with_pending_refund cutoff batch_size >>= third n

      first : List ℕ → Call W Counts
      first stuck = each ports (settle_stuck ports cutoff) stuck no_counts >>= second
