-- ===== src/Orders/Cancelled.antt =====
-- What `cancel_order` decides (src/orders/application/service.py).
use scalable_ecommerce_backe.Prelude.{
  ℕ, ◌≡◌, refl, ◌∙◌, ap, subst, if◌then◌else◌, Bool, true, false, Option, none, some, List, [], ◌∷◌,
  ok, err, Result, ◌>>=◌, arith,
}
use scalable_ecommerce_backe.Shared.UnitOfWork.{transaction}
use scalable_ecommerce_backe.Shared.Outcomes.{err_ne_ok, ok_inj, Leaves}
use scalable_ecommerce_backe.Orders.Model.{
  is_cancelled, OrderStatus, Order, Db, Error, Action, same_status,
}
use scalable_ecommerce_backe.Orders.Repository.{
  PaymentGuard, find, matches, update, set_status, guard_refund, intend, request_refund_once, flip,
  transition_body, transition_status,
}

-- A row that the guarded update matched is cancelled after it.
update-is_cancelled :
    (now id : ℕ) (expect : List OrderStatus) (os : List Order)
    → matches id expect (find id os) ≡ true
    → is_cancelled (find id (update id expect (set_status now OrderStatus.cancelled) os)) ≡ true
unfolding find update matches
update-is_cancelled now id expect [] h = ground arith
update-is_cancelled now id expect (o ∷ os) h =
    let rest = update-is_cancelled now id expect os in ground arith

-- The intent that a cancellation journals leaves the orders as they are.
guard-orders :
    (now : ℕ) (guard : PaymentGuard) (id : ℕ) (to_status : OrderStatus) (db : Db)
    → (guard_refund now guard id to_status db).1.orders ≡ db.orders
unfolding request_refund_once
guard-orders now none id to_status db = refl
guard-orders now (some has_succeeded) id to_status db =
    asked (same_status to_status OrderStatus.cancelled) (has_succeeded id)
  where
    asked :
        (b : Bool) (r : Result Error Bool)
        → ((if b then intend now id r db else (ok tt, db))).1.orders ≡ db.orders
    asked true (ok true) = ground arith
    asked true (ok false) = refl
    asked true (err e) = refl
    asked false r = refl

-- Nothing, or a cancelled row.
abbrev pub WhenFlipped : ℕ → Option Order → Db → Type 0
WhenFlipped id none db = Unit {0}
WhenFlipped id (some u) db = is_cancelled (find id db.orders) ≡ true

abbrev pub only_pending : List OrderStatus
only_pending = OrderStatus.pending ∷ []

pub transition-WhenFlipped :
    (now : ℕ) (guard : PaymentGuard) (id : ℕ) (db : Db)
    → Leaves
        (WhenFlipped id)
        (transition_status now guard id only_pending OrderStatus.cancelled none)
        db
unfolding transition_status transition_body
transition-WhenFlipped now guard id db = after (matches id only_pending (find id db.orders)) refl
  where
    flipped : Db
    flipped = flip now id only_pending OrderStatus.cancelled none db

    read : Unit {0} → Action (Option Order)
    read a db' = (ok (find id db'.orders), db')

    landed :
        (x : Option Order) (t : Db)
        → t.orders ≡ flipped.orders
        → matches id only_pending (find id db.orders) ≡ true
        → WhenFlipped id x t
    landed none t k h = tt
    landed (some u) t k h =
        ap (λ os. is_cancelled (find id os)) k ∙ update-is_cancelled now id only_pending db.orders h

    body :
        (r : Result Error (Unit {0}) × Db)
        → r.1.orders ≡ flipped.orders
        → matches id only_pending (find id db.orders) ≡ true
        → Leaves (WhenFlipped id) (transaction (λ (_ : Db). ◌>>=◌ (λ (_ : Db). r) read flipped)) db
    body (ok a, t) k h x e = landed x t k h
    body (err y, t) k h x e = absurd (err_ne_ok y x e)

    after :
        (b : Bool)
        → matches id only_pending (find id db.orders) ≡ b
        → Leaves
            (WhenFlipped id)
            (transaction (transition_body now guard id only_pending OrderStatus.cancelled none b))
            db
    after true h x e =
        body (guard_refund now guard id OrderStatus.cancelled flipped)
          (guard-orders now guard id OrderStatus.cancelled flipped) h x e
    after false h x e = subst (λ y. WhenFlipped id y db) (ok_inj none x e) tt
