-- ===== src/Payments/Settled.antt =====
-- Every webhook and reconciliation of src/payments/application/service.py follows a rule that its
-- parts do.
use scalable_ecommerce_backe.Prelude.{
  ℕ, ◌+◌, Bool, Option, none, some, List, [], ◌∷◌, ok, err, Result, pure, ◌>>=◌,
}
use scalable_ecommerce_backe.Shared.UnitOfWork.{transaction}
use scalable_ecommerce_backe.Payments.Model.{
  Payment, Outcome, Gateway, GatewayCharge, Error, unknown_ref, Action,
}
use scalable_ecommerce_backe.Payments.Repository.{get_by_key, due_for_reconciliation, abandonable}
use scalable_ecommerce_backe.Payments.Service.{
  reconcile, handle_webhook, verify_signature, Delivery, apply_outcome, look_up, abandon, sweep,
  Payload, count_if, is_some, looked_up, settle_event, addressed, deliver, verified,
}
use scalable_ecommerce_backe.Payments.Rule.{
  Rule, Safe, Safe-pure, Safe-raise, Safe-bind, Safe-transaction,
}
use scalable_ecommerce_backe.Payments.Decided.{apply_outcome-Safe}

module _ (rule : Rule) where
  looked_up-Safe :
      (absent : Action ℕ) (id : ℕ) (answer : Result Error (Option GatewayCharge))
      → Safe rule absent
      → Safe rule (looked_up rule.hook absent id answer)
  unfolding looked_up
  looked_up-Safe absent id (err e) s = Safe-pure rule {A = ℕ} 0
  looked_up-Safe absent id (ok none) s = s
  looked_up-Safe absent id (ok (some result)) s =
      Safe-bind rule (apply_outcome rule.hook id result.outcome (some result.ref) result.reason)
        (λ updated. pure (count_if updated))
        (apply_outcome-Safe rule id result.outcome (some result.ref) result.reason)
        (λ updated. Safe-pure rule (count_if updated))

  pub look_up-Safe :
      (gateway : Gateway) (absent : Action ℕ) (row : Payment)
      → Safe rule absent
      → Safe rule (look_up rule.hook gateway absent row)
  unfolding look_up
  look_up-Safe gateway absent row =
      looked_up-Safe absent row.id (gateway.lookup row.idempotency_key)

  abandoned-Safe :
      (id : ℕ)
      → Safe rule (apply_outcome none id Outcome.failed none (some "abandoned_by_reconciler"))
  unfolding apply_outcome
  abandoned-Safe id = rule.failed id none (some "abandoned_by_reconciler")

  abandon-Safe : (row : Payment) → Safe rule (abandon row)
  unfolding abandon
  abandon-Safe row =
      Safe-bind rule
        (apply_outcome none row.id Outcome.failed none (some "abandoned_by_reconciler"))
        (λ updated. pure (count_if updated)) (abandoned-Safe row.id)
        (λ updated. Safe-pure rule (count_if updated))

  pub sweep-Safe :
      (visit : Payment → Action ℕ) (rows : List Payment)
      → ((row : Payment) → Safe rule (visit row))
      → Safe rule (sweep visit rows)
  unfolding sweep
  sweep-Safe visit [] s = Safe-pure rule {A = ℕ} 0
  sweep-Safe visit (row ∷ rows) s =
      Safe-bind rule (visit row) (λ n. sweep visit rows >>= λ m. pure (n + m)) (s row)
        (λ n.
          Safe-bind rule (sweep visit rows) (λ m. pure (n + m)) (sweep-Safe visit rows s)
            (λ m. Safe-pure rule (n + m)))

  settle_event-Safe :
      (p : Payload) (outcome : Outcome) (row : Option Payment)
      → Safe rule (settle_event rule.hook p outcome row)
  unfolding settle_event
  settle_event-Safe p outcome none = Safe-raise rule Bool unknown_ref
  settle_event-Safe p outcome (some row) =
      Safe-bind rule (transaction apply) (λ updated. pure (is_some updated))
        (λ db f.
          Safe-transaction rule apply db f
            (apply_outcome-Safe rule row.id outcome p.gateway_ref p.reason db f))
        (λ updated. Safe-pure rule (is_some updated))
    where
      apply : Action (Option Payment)
      apply = apply_outcome rule.hook row.id outcome p.gateway_ref p.reason

  addressed-Safe :
      (p : Payload) (outcome : Option Outcome) (key : Option ℕ)
      → Safe rule (addressed rule.hook p outcome key)
  unfolding addressed
  addressed-Safe p none key db f = rule.still db f
  addressed-Safe p (some outcome) none db f = rule.still db f
  addressed-Safe p (some outcome) (some key) db f =
      settle_event-Safe p outcome (get_by_key key db.payments) db f

  deliver-Safe : (p : Option Payload) → Safe rule (deliver rule.hook p)
  unfolding deliver
  deliver-Safe none db f = rule.still db f
  deliver-Safe (some p) db f = addressed-Safe p p.outcome p.idempotency_key db f

  pub verified-Safe :
      (p : Option Payload) (refused : Option Error) → Safe rule (verified rule.hook p refused)
  unfolding verified
  verified-Safe p (some e) = Safe-raise rule Bool e
  verified-Safe p none = deliver-Safe p

  pub handle_webhook-Safe :
      (digest : List ℕ → ℕ → List ℕ → List ℕ) (parse : List ℕ → Option Payload)
      (secret : Option (List ℕ)) (tolerance now : ℕ) (d : Delivery)
      → Safe rule (handle_webhook digest parse rule.hook secret tolerance now d)
  unfolding handle_webhook
  handle_webhook-Safe digest parse secret tolerance now d =
      verified-Safe (parse d.body) (verify_signature digest secret tolerance now d)

  young-Safe :
      (gateway : Gateway) (now grace max_age batch : ℕ)
      → Safe rule (λ db.
        sweep
          (look_up rule.hook gateway (pure 0))
          (due_for_reconciliation now grace max_age batch db)
          db)
  young-Safe gateway now grace max_age batch db f =
      sweep-Safe (look_up rule.hook gateway (pure 0))
        (due_for_reconciliation now grace max_age batch db)
        (λ row. look_up-Safe gateway (pure 0) row (Safe-pure rule {A = ℕ} 0)) db f

  old-Safe :
      (gateway : Gateway) (now max_age batch : ℕ)
      → Safe rule (λ db.
        sweep
          (λ row. look_up rule.hook gateway (abandon row) row)
          (abandonable now max_age batch db)
          db)
  old-Safe gateway now max_age batch db f =
      sweep-Safe (λ row. look_up rule.hook gateway (abandon row) row)
        (abandonable now max_age batch db)
        (λ row. look_up-Safe gateway (abandon row) row (abandon-Safe row)) db f

  pub reconcile-Safe :
      (gateway : Gateway) (now grace max_age batch : ℕ)
      → Safe rule (reconcile rule.hook gateway now grace max_age batch)
  unfolding reconcile
  reconcile-Safe gateway now grace max_age batch =
      Safe-bind rule _ (λ n. old >>= λ m. pure (n + m)) (young-Safe gateway now grace max_age batch)
        (λ n.
          Safe-bind rule old (λ m. pure (n + m)) (old-Safe gateway now max_age batch)
            (λ m. Safe-pure rule (n + m)))
    where
      old : Action ℕ
      old db =
          sweep (λ row. look_up rule.hook gateway (abandon row) row)
            (abandonable now max_age batch db) db
