-- ===== src/Payments/Again.antt =====
-- A charge that is asked for again (`charge` of src/payments/application/service.py).
use scalable_ecommerce_backe.Prelude.{
  ℕ, ◌≡◌, refl, ap, ◌∙◌, ◌==◌, if◌then◌else◌, Bool, true, false, not, ◌||◌, Option, some, List, ok,
  err, Result, raise, ◌>>=◌, arith,
}
use scalable_ecommerce_backe.Shared.Outcomes.{err_ne_ok}
use scalable_ecommerce_backe.Payments.Model.{
  PaymentStatus, Payment, Gateway, Db, Error, idempotency_conflict, invalid_payment_method, Action,
  is_status,
}
use scalable_ecommerce_backe.Payments.Repository.{get_by_key, create_pending, insert_pending}
use scalable_ecommerce_backe.Payments.Service.{looks_like_pan, charge, decided, ask}
use scalable_ecommerce_backe.Payments.Ordered.{IsOrdered}
use scalable_ecommerce_backe.Payments.Keyed.{Holds, charge-Holds}

-- A charge that returned had no card number for a token.
token_passes :
    (is_digit : ℕ → Bool) (hook : Option (ℕ → Bool)) (gateway : Gateway)
    (now order_id key amount : ℕ) (token : List ℕ) (db : Db) (row : Payment)
    → (charge is_digit hook gateway now order_id key amount token db).0 ≡ ok row
    → looks_like_pan is_digit token ≡ false
unfolding charge
token_passes is_digit hook gateway now order_id key amount token db row =
    after (looks_like_pan is_digit token)
  where
    next : Payment × Bool → Action Payment
    next made = ask hook gateway key amount token made.0.id (decided order_id amount made)

    after :
        (b : Bool)
        → ((if b
              then raise invalid_payment_method
              else create_pending now order_id key amount >>= next)
            db).0
          ≡ ok row
        → b ≡ false
    after true h = absurd (err_ne_ok invalid_payment_method row h)
    after false h = refl

bind_ok :
    {A B : Type 0} (m : Action A) (k : A → Action B) (db : Db) (a : A) (db' : Db)
    → m db ≡ (ok a, db')
    → (m >>= k) db ≡ k a db'
bind_ok m k db a db' e = ap (λ r. ◌>>=◌ (λ (_ : Db). r) k db) e

-- The charge of a key that has a row already.
charge_there :
    (is_digit : ℕ → Bool) (hook : Option (ℕ → Bool)) (gateway : Gateway)
    (now order_id key amount : ℕ) (token : List ℕ) (db : Db) (row : Payment)
    (answer : Result Error Payment)
    → looks_like_pan is_digit token ≡ false
    → get_by_key key db.payments ≡ some row
    → decided order_id amount (row, false) ≡ some answer
    → charge is_digit hook gateway now order_id key amount token db ≡ (answer, db)
unfolding charge create_pending insert_pending ask
charge_there is_digit hook gateway now order_id key amount token db row answer pan there d =
    ap
      (λ b.
        (if b
            then raise invalid_payment_method
            else create_pending now order_id key amount >>= next)
          db)
      pan
    ∙ bind_ok (create_pending now order_id key amount) next db (row, false) db
        (ap (λ o. insert_pending now order_id key amount o db) there)
    ∙ ap (λ k. ask hook gateway key amount token row.id k db) d
  where
    next : Payment × Bool → Action Payment
    next made = ask hook gateway key amount token made.0.id (decided order_id amount made)

-- From tables whose ids grow with the insertions: a charge that returned a decided payment, asked for
-- again with the same order, key, amount and token, at any time and whatever the gateway and the
-- hook would then answer, returns that payment again and writes nothing.
pub charge_twice :
    (is_digit : ℕ → Bool) (hook hook' : Option (ℕ → Bool)) (gateway gateway' : Gateway)
    (now now' order_id key amount : ℕ) (token : List ℕ) (db : Db) (row : Payment)
    → IsOrdered db
    → (charge is_digit hook gateway now order_id key amount token db).0 ≡ ok row
    → is_status row.status PaymentStatus.pending ≡ false
    → charge is_digit hook' gateway' now' order_id key amount token
        (charge is_digit hook gateway now order_id key amount token db).1
      ≡ (ok row, (charge is_digit hook gateway now order_id key amount token db).1)
unfolding decided
charge_twice is_digit hook hook' gateway gateway' now now' order_id key amount token db row o h s =
    charge_there is_digit hook' gateway' now' order_id key amount token
      (charge is_digit hook gateway now order_id key amount token db).1 row (ok row)
      (token_passes is_digit hook gateway now order_id key amount token db row h) holds.0
      (known holds.1.0 holds.1.1)
  where
    holds :
        Holds order_id key amount row
          (charge is_digit hook gateway now order_id key amount token db).1
    holds = charge-Holds order_id key amount is_digit hook gateway now token db o row h

    known :
        row.order_id ≡ order_id
        → row.amount ≡ amount
        → decided order_id amount (row, false) ≡ some (ok row)
    known same_order same_amount = ground arith

-- From tables whose ids grow with the insertions: after a charge that returned a payment, decided or
-- not, a charge under its key for another order or another amount, with the same token, raises the
-- conflict and writes nothing, whatever the gateway would answer.
pub charge_conflict :
    (is_digit : ℕ → Bool) (hook hook' : Option (ℕ → Bool)) (gateway gateway' : Gateway)
    (now now' order_id other_order key amount other_amount : ℕ) (token : List ℕ) (db : Db)
    (row : Payment)
    → IsOrdered db
    → (charge is_digit hook gateway now order_id key amount token db).0 ≡ ok row
    → (not (order_id == other_order) || not (amount == other_amount)) ≡ true
    → charge is_digit hook' gateway' now' other_order key other_amount token
        (charge is_digit hook gateway now order_id key amount token db).1
      ≡ (
        err idempotency_conflict,
        (charge is_digit hook gateway now order_id key amount token db).1,
      )
unfolding decided
charge_conflict is_digit hook hook' gateway gateway' now now' order_id other_order key amount
      other_amount token db row o h differ =
    charge_there is_digit hook' gateway' now' other_order key other_amount token
      (charge is_digit hook gateway now order_id key amount token db).1 row
      (err idempotency_conflict)
      (token_passes is_digit hook gateway now order_id key amount token db row h) holds.0
      (refused holds.1.0 holds.1.1)
  where
    holds :
        Holds order_id key amount row
          (charge is_digit hook gateway now order_id key amount token db).1
    holds = charge-Holds order_id key amount is_digit hook gateway now token db o row h

    refused :
        row.order_id ≡ order_id
        → row.amount ≡ amount
        → decided other_order other_amount (row, false) ≡ some (err idempotency_conflict)
    refused same_order same_amount = ground arith
