-- ===== src/Bootstrap/Marked.antt =====
-- What the transactions of the orders do to the cancelled orders and to the refund markers of the
-- journal (src/orders/adapters/db/repository.py).
use scalable_ecommerce_backe.Prelude.{
  ℕ, ◌≡◌, refl, ◌==◌, if◌then◌else◌, Bool, true, false, Option, none, some, List, [], ◌∷◌, any,
  arith, ap, ◌∙◌, ◌⊎◌, inl,
}
use scalable_ecommerce_backe.Orders.Model.{
  is_cancelled, Db as OrdersDb, OrderStatus, Order, same_status,
}
use scalable_ecommerce_backe.Orders.Repository.{
  find, is_refund_of, request_refund_once, refund_if, journal_refund_if_cancelled, update,
  set_status, lease,
}

abbrev pub marked : ℕ → OrdersDb → Bool
marked order_id db = any (is_refund_of order_id) db.saga_log

-- Asking for a refund marks the order, and unmarks none.
pub requested-marked :
    (now id : ℕ) (db : OrdersDb) → marked id (request_refund_once now id db) ≡ true
unfolding request_refund_once
requested-marked now id db = ground arith

pub requested-keeps :
    (now id j : ℕ) (db : OrdersDb)
    → marked j db ≡ true
    → marked j (request_refund_once now id db) ≡ true
unfolding request_refund_once
requested-keeps now id j db h = ground arith

pub requested-orders :
    (now id : ℕ) (db : OrdersDb) → (request_refund_once now id db).orders ≡ db.orders
unfolding request_refund_once
requested-orders now id db = ground arith

-- An order that is cancelled after an update was so before, or the update cancelled it.
pub update-cancelled :
    (now id j : ℕ) (expect : List OrderStatus) (to_status : OrderStatus) (os : List Order)
    → is_cancelled (find j (update id expect (set_status now to_status) os)) ≡ true
    → (is_cancelled (find j os) ≡ true)
      ⊎ (((id == j) ≡ true) × (same_status to_status OrderStatus.cancelled ≡ true))
unfolding find update
update-cancelled now id j expect to_status [] h = inl h
update-cancelled now id j expect to_status (o ∷ os) h =
    let rest = update-cancelled now id j expect to_status os in ground arith

pub lease-cancelled :
    (now j : ℕ) (claimed os : List Order)
    → is_cancelled (find j (lease now claimed os)) ≡ is_cancelled (find j os)
unfolding find
lease-cancelled now j claimed [] = refl
lease-cancelled now j claimed (o ∷ os) = let rest = lease-cancelled now j claimed os in ground arith

-- The hook of a succeeded charge touches no order, unmarks none, and marks a cancelled one.
pub journal-orders :
    (now id : ℕ) (db : OrdersDb) → (journal_refund_if_cancelled now id db).orders ≡ db.orders
unfolding journal_refund_if_cancelled
journal-orders now id db = found (find id db.orders)
  where
    found : (o : Option Order) → (refund_if now id o db).orders ≡ db.orders
    found none = refl
    found (some o) = let asked = requested-orders now id db in ground arith

pub journal-keeps :
    (now id j : ℕ) (db : OrdersDb)
    → marked j db ≡ true
    → marked j (journal_refund_if_cancelled now id db) ≡ true
unfolding journal_refund_if_cancelled
journal-keeps now id j db h = found (find id db.orders)
  where
    found : (o : Option Order) → marked j (refund_if now id o db) ≡ true
    found none = h
    found (some o) = asked (same_status o.status OrderStatus.cancelled)
      where
        asked : (b : Bool) → marked j (if b then request_refund_once now id db else db) ≡ true
        asked true = requested-keeps now id j db h
        asked false = h

pub journal-marked :
    (now id : ℕ) (db : OrdersDb)
    → is_cancelled (find id db.orders) ≡ true
    → marked id (journal_refund_if_cancelled now id db) ≡ true
unfolding journal_refund_if_cancelled
journal-marked now id db c = found (find id db.orders) c
  where
    found : (o : Option Order) → is_cancelled o ≡ true → marked id (refund_if now id o db) ≡ true
    found none h = ground arith
    found (some o) h =
        ap (λ b. marked id (if b then request_refund_once now id db else db)) h
        ∙ requested-marked now id db
