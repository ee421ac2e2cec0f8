-- ===== src/Bootstrap/Tests.antt =====
-- Orders and payments at concrete inputs.
use scalable_ecommerce_backe.Prelude.{
  ◌≡◌, refl, ℕ, true, false, Option, none, some, List, [], ◌∷◌, ok,
}
use scalable_ecommerce_backe.Payments.Model.{Outcome, Gateway}
use scalable_ecommerce_backe.Payments.Service.{
  charge, refund, reconcile, handle_webhook, Payload, Delivery,
}
use scalable_ecommerce_backe.Orders.Model.{OrderStatus}
use scalable_ecommerce_backe.Bootstrap.Transactions.{
  empty_shop, Transaction, create_payment, payment_succeeds, create_order, settle_order, run_all,
}
use scalable_ecommerce_backe.Bootstrap.Marked.{marked}
use scalable_ecommerce_backe.Bootstrap.Covered.{run_all-IsCovered}
use scalable_ecommerce_backe.Bootstrap.Runs.{Runs, service-Runs}

-- A charge that lands after the order was cancelled.
abbrev late_charge : List Transaction
late_charge =
    create_order 10 7 1 5 500 [] 0
    ∷ create_payment 11 0 33 500
    ∷ settle_order 12 (λ id. true) 0 (OrderStatus.pending ∷ []) OrderStatus.cancelled none
    ∷ payment_succeeds 13 (λ id. true) 0 (some 90)
    ∷ []

run_all-IsCovered_example : marked 0 (run_all late_charge empty_shop).orders ≡ true
unfolding run_all scalable_ecommerce_backe.Bootstrap.Transactions.run
    scalable_ecommerce_backe.Payments.Repository.transition
    scalable_ecommerce_backe.Payments.Repository.transition_body
    scalable_ecommerce_backe.Payments.Repository.returning
    scalable_ecommerce_backe.Payments.Repository.create_pending
    scalable_ecommerce_backe.Payments.Repository.insert_pending
    scalable_ecommerce_backe.Payments.Repository.get_by_key
    scalable_ecommerce_backe.Payments.Repository.update
    scalable_ecommerce_backe.Payments.Repository.has_succeeded_for_order
    scalable_ecommerce_backe.Payments.Repository.get scalable_ecommerce_backe.Orders.Repository.find
    scalable_ecommerce_backe.Orders.Repository.journal_refund_if_cancelled
    scalable_ecommerce_backe.Orders.Repository.transition_status
    scalable_ecommerce_backe.Orders.Repository.transition_body
    scalable_ecommerce_backe.Orders.Repository.matches
    scalable_ecommerce_backe.Orders.Repository.create_pending_order
    scalable_ecommerce_backe.Orders.Repository.insert_order
    scalable_ecommerce_backe.Orders.Repository.find_by_key
    scalable_ecommerce_backe.Orders.Repository.request_refund_once
    scalable_ecommerce_backe.Orders.Repository.update
run_all-IsCovered_example = run_all-IsCovered late_charge 0 refl refl

abbrev provider : Gateway
provider = record {
  charge = λ amount key token. ok (record { ref = 90; outcome = Outcome.succeeded; reason = none });
  lookup = λ key. ok none;
  refund = λ amount key ref. ok (record { ref = 91; outcome = Outcome.succeeded; reason = none });
}

abbrev parse : List ℕ → Option Payload
parse body = none

abbrev delivery : Delivery
delivery = record { body = []; signature = none; timestamp = none }

abbrev digest : List ℕ → ℕ → List ℕ → List ℕ
digest secret at body = secret

service-Runs_example :
    Runs empty_shop.payments
      (charge (λ c. false) (some (λ id. true)) provider 11 0 33 500 [] empty_shop.payments).1
    × (Runs empty_shop.payments (refund provider 33 empty_shop.payments).1
        × (Runs empty_shop.payments
              (handle_webhook digest parse
                (some (λ id. true))
                none
                300
                11
                delivery
                empty_shop.payments).1
            × Runs empty_shop.payments
                (reconcile (some (λ id. true)) provider 11 30 3600 10 empty_shop.payments).1))
service-Runs_example =
    service-Runs (λ c. false) (λ id. true) provider 11 0 33 500 [] digest parse none 300 delivery 30
      3600 10 empty_shop.payments
