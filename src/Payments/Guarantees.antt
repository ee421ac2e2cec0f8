-- ===== src/Payments/Guarantees.antt =====
-- What the payments service (src/payments/application/service.py) promises its callers.
use scalable_ecommerce_backe.Prelude.{
  ℕ, ◌≡◌, refl, ap, ◌∙◌, if◌then◌else◌, Bool, false, Option, none, some, List, ok, pure, ◌>>=◌,
}
use Prim.Native.String.{String}
use scalable_ecommerce_backe.Shared.UnitOfWork.{transaction}
use scalable_ecommerce_backe.Payments.Model.{
  PaymentStatus, Payment, EventType, payment_succeeded, payment_failed, Outcome, Gateway, Db,
  is_status,
}
use scalable_ecommerce_backe.Payments.Repository.{
  set_outcome, get, get_by_key, returning, transition_body, transition,
}
use scalable_ecommerce_backe.Payments.Service.{
  charge, refund, reconcile, Payload, Delivery, or_unknown, is_some, verify_signature, verified,
  deliver, addressed, settle_event, apply_outcome, handle_webhook,
}
use scalable_ecommerce_backe.Payments.Progress.{Progress, IsFresh}
use scalable_ecommerce_backe.Payments.Progressing.{progress_rule}
use scalable_ecommerce_backe.Payments.Decided.{charge-Safe, refund-Safe}
use scalable_ecommerce_backe.Payments.Settled.{handle_webhook-Safe, reconcile-Safe}

-- A charge, whatever it returns or raises and whatever the gateway answers, loses no payment,
-- changes no order, amount or key of one, and moves a status only from pending to a decided one or
-- from succeeded to refunded, provided that the ids in use are below the next one; so they stay.
pub charge-Progress :
    (is_digit : ℕ → Bool) (hook : Option (ℕ → Bool)) (gateway : Gateway)
    (now order_id key amount : ℕ) (token : List ℕ) (db : Db)
    → IsFresh db
    → Progress db (charge is_digit hook gateway now order_id key amount token db).1
charge-Progress is_digit hook gateway now order_id key amount token =
    charge-Safe (progress_rule hook) is_digit gateway now order_id key amount token

-- A refund, whatever the gateway answers, loses no payment, changes no order, amount or key of one,
-- and moves a status only from pending to a decided one or from succeeded to refunded, provided
-- that the ids in use are below the next one; so they stay.
pub refund-Progress :
    (gateway : Gateway) (key : ℕ) (db : Db) → IsFresh db → Progress db (refund gateway key db).1
refund-Progress gateway key = refund-Safe (progress_rule none) gateway key

-- A webhook delivery, whatever its body, its signature and the hook, loses no payment, changes no
-- order, amount or key of one, and moves a status only from pending to a decided one or from
-- succeeded to refunded, provided that the ids in use are below the next one; so they stay.
pub handle_webhook-Progress :
    (digest : List ℕ → ℕ → List ℕ → List ℕ) (parse : List ℕ → Option Payload)
    (hook : Option (ℕ → Bool)) (secret : Option (List ℕ)) (tolerance now : ℕ) (d : Delivery)
    (db : Db)
    → IsFresh db
    → Progress db (handle_webhook digest parse hook secret tolerance now d db).1
handle_webhook-Progress digest parse hook secret tolerance now d =
    handle_webhook-Safe (progress_rule hook) digest parse secret tolerance now d

-- A reconciliation run, whatever the gateway's lookups answer, loses no payment, changes no order,
-- amount or key of one, and moves a status only from pending to a decided one or from succeeded to
-- refunded, provided that the ids in use are below the next one; so they stay.
pub reconcile-Progress :
    (hook : Option (ℕ → Bool)) (gateway : Gateway) (now grace max_age batch : ℕ) (db : Db)
    → IsFresh db
    → Progress db (reconcile hook gateway now grace max_age batch db).1
reconcile-Progress hook gateway now grace max_age batch =
    reconcile-Safe (progress_rule hook) gateway now grace max_age batch

-- A row whose status is not the expected one is not updated.
transition_refused :
    (hook : Option (ℕ → Bool)) (event : EventType) (id : ℕ) (expect to_status : PaymentStatus)
    (ref : Option ℕ) (reason : Option String) (db : Db) (row : Payment)
    → get id db.payments ≡ some row
    → is_status row.status expect ≡ false
    → transition hook event id expect to_status ref reason db ≡ (ok none, db)
unfolding transition transition_body returning
transition_refused hook event id expect to_status ref reason db row there s =
    ap (λ o. transaction (transition_body hook event id set expect o) db) nothing
  where
    set : Payment → Payment
    set = set_outcome to_status ref reason

    nothing : returning id expect set db.payments ≡ none
    nothing =
        ap
          (λ o. elim o as (λ _. Option Payment) [
            | none ↦ none
            | some p ↦ if is_status p.status expect then some (set p) else none
          ])
          there
        ∙ ap (λ b. if b then some (set row) else none) s

pub apply_outcome_decided :
    (hook : Option (ℕ → Bool)) (id : ℕ) (outcome : Outcome) (ref : Option ℕ)
    (reason : Option String) (db : Db) (row : Payment)
    → get id db.payments ≡ some row
    → is_status row.status PaymentStatus.pending ≡ false
    → apply_outcome hook id outcome ref reason db ≡ (ok none, db)
unfolding apply_outcome
apply_outcome_decided hook id Outcome.pending ref reason db row there s = refl
apply_outcome_decided hook id Outcome.succeeded ref reason db row there s =
    transition_refused hook payment_succeeded id PaymentStatus.pending PaymentStatus.succeeded ref
      none db row there s
apply_outcome_decided hook id Outcome.failed ref reason db row there s =
    transition_refused none payment_failed id PaymentStatus.pending PaymentStatus.failed ref
      (or_unknown reason) db row there s

settle_event_decided :
    (hook : Option (ℕ → Bool)) (p : Payload) (outcome : Outcome) (db : Db) (row : Payment)
    → get row.id db.payments ≡ some row
    → is_status row.status PaymentStatus.pending ≡ false
    → settle_event hook p outcome (some row) db ≡ (ok false, db)
unfolding settle_event
settle_event_decided hook p outcome db row same s =
    ap (λ r. ◌>>=◌ (transaction (λ (_ : Db). r)) (λ updated. pure (is_some updated)) db)
      (apply_outcome_decided hook row.id outcome p.gateway_ref p.reason db row same s)

-- A webhook for a payment that is decided, delivered with a good signature, is acknowledged as
-- nothing new: it writes nothing and publishes no second event.
pub handle_webhook_twice :
    (digest : List ℕ → ℕ → List ℕ → List ℕ) (parse : List ℕ → Option Payload)
    (hook : Option (ℕ → Bool)) (secret : Option (List ℕ)) (tolerance now : ℕ) (d : Delivery)
    (db : Db) (p : Payload) (outcome : Outcome) (key : ℕ) (row : Payment)
    → verify_signature digest secret tolerance now d ≡ none
    → parse d.body ≡ some p
    → p.outcome ≡ some outcome
    → p.idempotency_key ≡ some key
    → get_by_key key db.payments ≡ some row
    → get row.id db.payments ≡ some row
    → is_status row.status PaymentStatus.pending ≡ false
    → handle_webhook digest parse hook secret tolerance now d db ≡ (ok false, db)
unfolding handle_webhook verified deliver addressed
handle_webhook_twice digest parse hook secret tolerance now d db p outcome key row v b o k there
      same s =
    ap (λ x. verified hook (parse d.body) x db) v
    ∙ ap (λ x. deliver hook x db) b
    ∙ ap (λ x. addressed hook p x p.idempotency_key db) o
    ∙ ap (λ x. addressed hook p (some outcome) x db) k
    ∙ ap (λ x. settle_event hook p outcome x db) there
    ∙ settle_event_decided hook p outcome db row same s
