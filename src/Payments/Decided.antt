-- ===== src/Payments/Decided.antt =====
-- Every charge and refund of src/payments/application/service.py follows a rule that its parts do.
use scalable_ecommerce_backe.Prelude.{
  ℕ, Bool, false, Option, none, some, List, ok, err, Result, pure, raise, ◌>>=◌,
}
use Prim.Native.String.{String}
use scalable_ecommerce_backe.Payments.Model.{
  PaymentStatus, Payment, payment_refunded, Outcome, Gateway, GatewayCharge, GatewayRefund, Error,
  invalid_payment_method, vanished, Action, is_status,
}
use scalable_ecommerce_backe.Payments.Repository.{get, get_by_key, transition, create_pending}
use scalable_ecommerce_backe.Payments.Service.{
  looks_like_pan, decided, charge, refund, apply_outcome, apply_charge, or_unknown, row_or_gone,
  read_back, charged, ask, refunded, flipped, flip_refunded, refund_row,
}
use scalable_ecommerce_backe.Payments.Rule.{Rule, Safe, Safe-pure, Safe-raise, Safe-bind, if-Safe}

module _ (rule : Rule) where
  pub apply_outcome-Safe :
      (id : ℕ) (outcome : Outcome) (ref : Option ℕ) (reason : Option String)
      → Safe rule (apply_outcome rule.hook id outcome ref reason)
  unfolding apply_outcome
  apply_outcome-Safe id Outcome.pending ref reason db f = rule.still db f
  apply_outcome-Safe id Outcome.succeeded ref reason db f = rule.succeeded id ref db f
  apply_outcome-Safe id Outcome.failed ref reason db f = rule.failed id ref (or_unknown reason) db f

  row_or_gone-Safe : (there : Option Payment) → Safe rule (row_or_gone there)
  unfolding row_or_gone
  row_or_gone-Safe (some row) = Safe-pure rule row
  row_or_gone-Safe none = Safe-raise rule Payment vanished

  read_back-Safe : (id : ℕ) (updated : Option Payment) → Safe rule (read_back id updated)
  unfolding read_back
  read_back-Safe id (some p) db f = rule.still db f
  read_back-Safe id none db f = row_or_gone-Safe (get id db.payments) db f

  apply_charge-Safe :
      (id : ℕ) (result : GatewayCharge) → Safe rule (apply_charge rule.hook id result)
  unfolding apply_charge
  apply_charge-Safe id result =
      Safe-bind rule (apply_outcome rule.hook id result.outcome (some result.ref) result.reason)
        (read_back id) (apply_outcome-Safe id result.outcome (some result.ref) result.reason)
        (read_back-Safe id)

  charged-Safe :
      (id : ℕ) (answer : Result Error GatewayCharge) → Safe rule (charged rule.hook id answer)
  unfolding charged
  charged-Safe id (err e) = Safe-raise rule Payment e
  charged-Safe id (ok result) = apply_charge-Safe id result

  pub ask-Safe :
      (gateway : Gateway) (key amount : ℕ) (token : List ℕ) (id : ℕ)
      (known : Option (Result Error Payment))
      → Safe rule (ask rule.hook gateway key amount token id known)
  unfolding ask
  ask-Safe gateway key amount token id (some answer) db f = rule.still db f
  ask-Safe gateway key amount token id none db f =
      charged-Safe id (gateway.charge amount key token) db f

  flipped-Safe : (id : ℕ) (updated : Option Payment) → Safe rule (flipped id updated)
  unfolding flipped
  flipped-Safe id (some p) db f = rule.still db f
  flipped-Safe id none db f = rule.still db f

  flip_refunded-Safe : (row : Payment) (outcome : Outcome) → Safe rule (flip_refunded row outcome)
  unfolding flip_refunded
  flip_refunded-Safe row Outcome.succeeded =
      Safe-bind rule
        (transition none payment_refunded row.id PaymentStatus.succeeded PaymentStatus.refunded
          row.gateway_ref none)
        (flipped row.id) (rule.refunded row.id row.gateway_ref) (flipped-Safe row.id)
  flip_refunded-Safe row Outcome.failed = Safe-pure rule false
  flip_refunded-Safe row Outcome.pending = Safe-pure rule false

  refunded-Safe :
      (row : Payment) (answer : Result Error GatewayRefund) → Safe rule (refunded row answer)
  unfolding refunded
  refunded-Safe row (err e) = Safe-raise rule Bool e
  refunded-Safe row (ok result) = flip_refunded-Safe row result.outcome

  pub refund_row-Safe :
      (gateway : Gateway) (key : ℕ) (row : Option Payment) → Safe rule (refund_row gateway key row)
  unfolding refund_row
  refund_row-Safe gateway key none = Safe-pure rule false
  refund_row-Safe gateway key (some row) =
      if-Safe rule (is_status row.status PaymentStatus.succeeded)
        (refunded row (gateway.refund row.amount key row.gateway_ref))
        (pure (is_status row.status PaymentStatus.refunded))
        (refunded-Safe row (gateway.refund row.amount key row.gateway_ref))
        (Safe-pure rule (is_status row.status PaymentStatus.refunded))

  pub charge-Safe :
      (is_digit : ℕ → Bool) (gateway : Gateway) (now order_id key amount : ℕ) (token : List ℕ)
      → Safe rule (charge is_digit rule.hook gateway now order_id key amount token)
  unfolding charge
  charge-Safe is_digit gateway now order_id key amount token =
      if-Safe rule (looks_like_pan is_digit token) (raise invalid_payment_method)
        (create_pending now order_id key amount >>= next)
        (Safe-raise rule Payment invalid_payment_method)
        (Safe-bind rule (create_pending now order_id key amount) next
          (rule.made now order_id key amount)
          (λ made. ask-Safe gateway key amount token made.0.id (decided order_id amount made)))
    where
      next : Payment × Bool → Action Payment
      next made = ask rule.hook gateway key amount token made.0.id (decided order_id amount made)

  pub refund-Safe : (gateway : Gateway) (key : ℕ) → Safe rule (refund gateway key)
  unfolding refund
  refund-Safe gateway key db f = refund_row-Safe gateway key (get_by_key key db.payments) db f
