-- ===== src/Payments/Tests.antt =====
-- Payments at concrete inputs.
use scalable_ecommerce_backe.Prelude.{
  ℕ, ◌≡◌, refl, ◌==◌, Bool, false, Option, none, some, List, [], ◌∷◌, arith, ok, err,
}
use scalable_ecommerce_backe.Payments.Model.{
  payment_succeeded, PaymentStatus, Payment, Outcome, Gateway, Db, idempotency_conflict,
}
use scalable_ecommerce_backe.Payments.Repository.{transition, get, get_by_key}
use scalable_ecommerce_backe.Payments.Service.{
  looks_like_pan, charge, refund, reconcile, Payload, Delivery, verify_signature, handle_webhook,
  strip_prefix,
}
use scalable_ecommerce_backe.Payments.Flipped.{IsPublished, transition-IsPublished}
use scalable_ecommerce_backe.Payments.Progress.{Progress, IsFresh}
use scalable_ecommerce_backe.Payments.Ordered.{IsOrdered}
use scalable_ecommerce_backe.Payments.Again.{charge_twice, charge_conflict}
use scalable_ecommerce_backe.Payments.Guarantees.{
  charge-Progress, refund-Progress, handle_webhook-Progress, reconcile-Progress,
  handle_webhook_twice,
}

abbrev is_digit : ℕ → Bool
is_digit c = c == b'4'

-- A provider that accepts every charge and refund.
abbrev provider : Gateway
provider = record {
  charge = λ amount key token. ok (record { ref = 90; outcome = Outcome.succeeded; reason = none });
  lookup = λ key. ok (some (record { ref = 90; outcome = Outcome.succeeded; reason = none }));
  refund = λ amount key ref. ok (record { ref = 91; outcome = Outcome.succeeded; reason = none });
}

abbrev token : List ℕ
token = b't' ∷ b'o' ∷ b'k' ∷ []

abbrev paid : Payment
paid = record {
  id = 0;
  order_id = 7;
  status = PaymentStatus.succeeded;
  amount = 500;
  gateway_ref = some 90;
  created_at = 10;
  failure_reason = none;
  idempotency_key = 33;
}

abbrev waiting : Payment
waiting = record paid {
  id = 1;
  order_id = 8;
  status = PaymentStatus.pending;
  idempotency_key = 34;
  gateway_ref = none;
}

abbrev rows : Db
rows = record { payments = waiting ∷ paid ∷ []; outbox = []; hooked = []; next_id = 2 }

rows-IsFresh : IsFresh rows
unfolding IsFresh
rows-IsFresh = (omega arith, (omega arith, tt))

abbrev digest : List ℕ → ℕ → List ℕ → List ℕ
digest secret ts body = secret

abbrev parse : List ℕ → Option Payload
parse body = some (record {
  outcome = some Outcome.succeeded;
  idempotency_key = some 33;
  gateway_ref = some 90;
  reason = none;
})

abbrev parse_waiting : List ℕ → Option Payload
parse_waiting body = some (record {
  outcome = some Outcome.failed;
  idempotency_key = some 34;
  gateway_ref = some 92;
  reason = none;
})

abbrev secret : List ℕ
secret = b'k' ∷ []

abbrev delivery : Delivery
delivery = record { body = []; signature = some secret; timestamp = some 100 }

charge-Progress_example : Progress rows (charge is_digit none provider 50 9 35 600 token rows).1
charge-Progress_example = charge-Progress is_digit none provider 50 9 35 600 token rows rows-IsFresh

refund-Progress_example : Progress rows (refund provider 33 rows).1
refund-Progress_example = refund-Progress provider 33 rows rows-IsFresh

handle_webhook-Progress_example :
    Progress rows (handle_webhook digest parse_waiting none (some secret) 300 120 delivery rows).1
handle_webhook-Progress_example =
    handle_webhook-Progress digest parse_waiting none (some secret) 300 120 delivery rows
      rows-IsFresh

reconcile-Progress_example : Progress rows (reconcile none provider 100 30 3600 10 rows).1
reconcile-Progress_example = reconcile-Progress none provider 100 30 3600 10 rows rows-IsFresh

no_pan : looks_like_pan is_digit token ≡ false
unfolding looks_like_pan
no_pan = refl

paid_there : get_by_key 33 rows.payments ≡ some paid
unfolding get_by_key
paid_there = refl

paid_here : get 0 rows.payments ≡ some paid
unfolding get
paid_here = refl

genuine : verify_signature digest (some secret) 300 120 delivery ≡ none
unfolding verify_signature strip_prefix
genuine = refl

rows-IsOrdered : IsOrdered rows
rows-IsOrdered = ((omega arith, (omega arith, tt)), ((omega arith, tt), (tt, tt)))

-- A first charge, of a key that is new.
abbrev bought : Payment
bought = record {
  id = 2;
  order_id = 7;
  status = PaymentStatus.succeeded;
  amount = 500;
  gateway_ref = some 90;
  created_at = 50;
  failure_reason = none;
  idempotency_key = 40;
}

charge_succeeds : (charge is_digit none provider 50 7 40 500 token rows).0 ≡ ok bought
unfolding charge looks_like_pan scalable_ecommerce_backe.Payments.Repository.create_pending
    scalable_ecommerce_backe.Payments.Repository.insert_pending get_by_key
    scalable_ecommerce_backe.Payments.Service.apply_charge
    scalable_ecommerce_backe.Payments.Service.apply_outcome transition
    scalable_ecommerce_backe.Payments.Repository.transition_body
    scalable_ecommerce_backe.Payments.Repository.returning
    scalable_ecommerce_backe.Payments.Repository.update
charge_succeeds = refl

charge_twice_example :
    charge is_digit none provider 60 7 40 500 token
      (charge is_digit none provider 50 7 40 500 token rows).1
    ≡ (ok bought, (charge is_digit none provider 50 7 40 500 token rows).1)
charge_twice_example =
    charge_twice is_digit none none provider provider 50 60 7 40 500 token rows bought
      rows-IsOrdered charge_succeeds refl

charge_conflict_example :
    charge is_digit none provider 60 7 40 501 token
      (charge is_digit none provider 50 7 40 500 token rows).1
    ≡ (err idempotency_conflict, (charge is_digit none provider 50 7 40 500 token rows).1)
charge_conflict_example =
    charge_conflict is_digit none none provider provider 50 60 7 7 40 500 501 token rows bought
      rows-IsOrdered charge_succeeds refl

handle_webhook_twice_example :
    handle_webhook digest parse none (some secret) 300 120 delivery rows ≡ (ok false, rows)
handle_webhook_twice_example =
    handle_webhook_twice digest parse none (some secret) 300 120 delivery rows
      (record {
        outcome = some Outcome.succeeded;
        idempotency_key = some 33;
        gateway_ref = some 90;
        reason = none;
      })
      Outcome.succeeded 33 paid genuine refl refl refl paid_there paid_here refl

-- An order's hook that takes the charge.
abbrev confirm : ℕ → Bool
confirm order_id = order_id == 8

transition-IsPublished_example :
    IsPublished
      (some confirm)
      payment_succeeded
      1
      PaymentStatus.pending
      PaymentStatus.succeeded
      (some 93)
      none
      rows
      (transition
        (some confirm)
        payment_succeeded
        1
        PaymentStatus.pending
        PaymentStatus.succeeded
        (some 93)
        none
        rows)
transition-IsPublished_example =
    transition-IsPublished (some confirm) payment_succeeded 1 PaymentStatus.pending
      PaymentStatus.succeeded (some 93) none rows
