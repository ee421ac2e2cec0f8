-- ===== src/Bootstrap/Covered.antt =====
-- No succeeded charge of a cancelled order goes without a refund marker in the journal.
use Prim.Native.String.{String}
use scalable_ecommerce_backe.Prelude.{
  ℕ, ◌≡◌, refl, if◌then◌else◌, Bool, true, false, Option, none, some, List, [], ◌∷◌, ok, err,
  Result, arith, ◌∙◌, sym, subst, inl, inr, eq_of_==, ◌>>=◌,
}
use scalable_ecommerce_backe.Shared.UnitOfWork.{transaction}
use scalable_ecommerce_backe.Payments.Model.{
  Db as PaymentsDb, Error as PaymentsError, PaymentStatus, Payment, EventType, payment_succeeded,
  payment_failed, payment_refunded, is_status,
}
use scalable_ecommerce_backe.Payments.Repository.{transition}
use scalable_ecommerce_backe.Payments.Captured.{
  captured, create_pending-captured, transition-captured,
}
use scalable_ecommerce_backe.Orders.Model.{
  is_cancelled, Db as OrdersDb, Error, query_fault, OrderStatus, OrderItem, OrderPlaced, Order,
  same_status,
}
use scalable_ecommerce_backe.Orders.Repository.{
  find, request_refund_once, journal_refund_if_cancelled, flip, intend, PaymentGuard, matches,
  transition_status, transition_body, create_pending_order, insert_order, find_by_key,
  log_saga_step, claim,
}
use scalable_ecommerce_backe.Bootstrap.Transactions.{
  Shop, empty_shop, Transaction, create_payment, payment_succeeds, payment_fails, payment_returns,
  create_order, settle_order, journal_step, lease_orders, run, run_all, payment_guard,
  after_success,
}
use scalable_ecommerce_backe.Bootstrap.Marked.{
  marked, requested-marked, requested-keeps, requested-orders, update-cancelled, lease-cancelled,
  journal-orders, journal-keeps, journal-marked,
}

true_ne_false : true ≡ false → ⊥
true_ne_false h = ground arith

-- Of one order: if it is cancelled and a payment of it has succeeded, its refund is in the journal.
abbrev pub IsCovered : ℕ → Shop → Type 0
IsCovered j s =
    is_cancelled (find j s.orders.orders) ≡ true
    → captured j s.payments ≡ true
    → marked j s.orders ≡ true

-- With the orders as they are or marked further, no new succeeded payment keeps an order covered.
IsCovered-more :
    (j : ℕ) (s t : Shop)
    → IsCovered j s
    → (is_cancelled (find j t.orders.orders) ≡ true → is_cancelled (find j s.orders.orders) ≡ true)
    → (captured j t.payments ≡ true → captured j s.payments ≡ true)
    → (marked j s.orders ≡ true → marked j t.orders ≡ true)
    → IsCovered j t
IsCovered-more j s t w c p m dead taken = m (w (c dead) (p taken))

after-orders :
    (now : ℕ) (r : Result PaymentsError (Option Payment)) (db : OrdersDb)
    → (after_success now r db).orders ≡ db.orders
after-orders now (err e) db = refl
after-orders now (ok none) db = refl
after-orders now (ok (some row)) db = journal-orders now row.order_id db

after-keeps :
    (now j : ℕ) (r : Result PaymentsError (Option Payment)) (db : OrdersDb)
    → marked j db ≡ true
    → marked j (after_success now r db) ≡ true
after-keeps now j (err e) db h = h
after-keeps now j (ok none) db h = h
after-keeps now j (ok (some row)) db h = journal-keeps now row.order_id j db h

-- A charge that succeeds marks its own order where that is cancelled.
succeeds-IsCovered :
    (now : ℕ) (hook : ℕ → Bool) (id : ℕ) (ref : Option ℕ) (j : ℕ) (s : Shop)
    → IsCovered j s
    → IsCovered j (run (payment_succeeds now hook id ref) s)
unfolding run
succeeds-IsCovered now hook id ref j s w dead taken =
    elim (transition-captured (some hook) payment_succeeded id j PaymentStatus.pending
      PaymentStatus.succeeded ref none s.payments taken) [
        | inl before ↦ after-keeps now j done.0 s.orders (w was_dead before)
        | inr (to, (row, (returned, mine))) ↦
            subst (λ r. marked j (after_success now r s.orders) ≡ true) (sym returned)
              (subst (λ i. marked j (journal_refund_if_cancelled now i s.orders) ≡ true)
                (sym (eq_of_== row.order_id j mine)) (journal-marked now j s.orders was_dead))
      ]
  where
    done : Result PaymentsError (Option Payment) × PaymentsDb
    done =
        transition (some hook) payment_succeeded id PaymentStatus.pending PaymentStatus.succeeded
          ref none s.payments

    was_dead : is_cancelled (find j s.orders.orders) ≡ true
    was_dead = subst (λ os. is_cancelled (find j os) ≡ true) (after-orders now done.0 s.orders) dead

-- A transition to another status gives no order a succeeded payment.
other-captured :
    (event : EventType) (id j : ℕ) (expect to_status : PaymentStatus) (ref : Option ℕ)
    (reason : Option String) (db : PaymentsDb)
    → is_status to_status PaymentStatus.succeeded ≡ false
    → captured j (transition none event id expect to_status ref reason db).1 ≡ true
    → captured j db ≡ true
other-captured event id j expect to_status ref reason db other h =
    elim (transition-captured none event id j expect to_status ref reason db h) [
      | inl before ↦ before
      | inr (to, x) ↦ ground arith
    ]

answered :
    (b known : Bool) → known ≡ true → (if b then ok known else err query_fault) ≡ ok false → ⊥
answered true true h e = ground arith
answered true false h e = ground arith
answered false known h e = ground arith

-- A cancellation asks the payments, and marks the order where a charge of it has succeeded.
settle-IsCovered :
    (now : ℕ) (answers : ℕ → Bool) (id : ℕ) (expect : List OrderStatus) (to_status : OrderStatus)
    (message : Option OrderPlaced) (j : ℕ) (s : Shop)
    → IsCovered j s
    → IsCovered j (run (settle_order now answers id expect to_status message) s)
unfolding run transition_status transition_body
settle-IsCovered now answers id expect to_status message j s w =
    matched (matches id expect (find id s.orders.orders))
  where
    guard : PaymentGuard
    guard = payment_guard answers s.payments

    flipped : OrdersDb
    flipped = flip now id expect to_status message s.orders

    -- Whatever the guard adds to the journal, it is enough where it marks a captured order.
    settled :
        (orders : OrdersDb)
        → orders.orders ≡ flipped.orders
        → (marked j s.orders ≡ true → marked j orders ≡ true)
        → (same_status to_status OrderStatus.cancelled ≡ true
            → captured id s.payments ≡ true
            → marked id orders ≡ true)
        → IsCovered j (record s { orders = orders })
    settled orders same keeps marks dead taken =
        elim (update-cancelled now id j expect to_status s.orders.orders
          (subst (λ os. is_cancelled (find j os) ≡ true) same dead)) [
            | inl before ↦ keeps (w before taken)
            | inr (mine, to) ↦
                let e = eq_of_== id j mine in
                subst (λ i. marked i orders ≡ true) e
                  (marks to (subst (λ i. captured i s.payments ≡ true) (sym e) taken))
          ]

    guarded :
        (c : Bool) (g : Result Error Bool)
        → (same_status to_status OrderStatus.cancelled ≡ true → c ≡ true)
        → (captured id s.payments ≡ true → g ≡ ok false → ⊥)
        → IsCovered j (record s {
          orders =
              (transaction
                (λ d.
                  ((λ d'. if c then intend now id g d' else (ok tt, d')) >>= λ _ d'.
                  (ok (find id d'.orders), d'))
                    (flip now id expect to_status message d))
                s.orders).1;
        })
    guarded false g cancels knows =
        settled flipped refl (λ m. m) (λ to taken. absurd (true_ne_false (sym (cancels to))))
    guarded true (err e) cancels knows = w
    guarded true (ok true) cancels knows =
        settled (request_refund_once now id flipped) (requested-orders now id flipped)
          (requested-keeps now id j flipped) (λ to taken. requested-marked now id flipped)
    guarded true (ok false) cancels knows =
        settled flipped refl (λ m. m) (λ to taken. absurd (knows taken refl))

    asked :
        captured id s.payments ≡ true
        → (if answers id then ok (captured id s.payments) else err query_fault) ≡ ok false
        → ⊥
    asked taken e = answered (answers id) (captured id s.payments) taken e

    matched :
        (b : Bool)
        → IsCovered j (record s {
          orders =
              (transaction (transition_body now guard id expect to_status message b) s.orders).1;
        })
    matched false = w
    matched true =
        guarded (same_status to_status OrderStatus.cancelled)
          (if answers id then ok (captured id s.payments) else err query_fault) (λ e. e) asked

-- An order that is made is pending.
insert-IsCovered :
    (now user_id key body_hash total : ℕ) (items : List OrderItem) (user_email j : ℕ)
    (there : Option Order) (s : Shop)
    → IsCovered j s
    → IsCovered j (record s {
      orders = (insert_order now user_id key body_hash total items user_email there s.orders).1;
    })
unfolding insert_order find
insert-IsCovered now user_id key body_hash total items user_email j (some winner) s w dead taken =
    w dead taken
insert-IsCovered now user_id key body_hash total items user_email j none s w dead taken =
    let before = w (ground arith) taken in ground arith

-- Every transaction keeps every order covered.
run-IsCovered : (t : Transaction) (j : ℕ) (s : Shop) → IsCovered j s → IsCovered j (run t s)
unfolding run create_pending_order log_saga_step claim
run-IsCovered (create_payment now order_id key amount) j s w =
    IsCovered-more j s (run (create_payment now order_id key amount) s) w (λ c. c)
      (λ h. sym (create_pending-captured now order_id key amount j s.payments) ∙ h) (λ m. m)
run-IsCovered (payment_succeeds now hook id ref) j s w = succeeds-IsCovered now hook id ref j s w
run-IsCovered (payment_fails id ref reason) j s w =
    IsCovered-more j s (run (payment_fails id ref reason) s) w (λ c. c)
      (other-captured payment_failed id j PaymentStatus.pending PaymentStatus.failed ref reason
        s.payments refl)
      (λ m. m)
run-IsCovered (payment_returns id ref) j s w =
    IsCovered-more j s (run (payment_returns id ref) s) w (λ c. c)
      (other-captured payment_refunded id j PaymentStatus.succeeded PaymentStatus.refunded ref none
        s.payments refl)
      (λ m. m)
run-IsCovered (create_order now user_id key body_hash total items user_email) j s w =
    insert-IsCovered now user_id key body_hash total items user_email j
      (find_by_key user_id key s.orders.orders) s w
run-IsCovered (settle_order now answers id expect to_status message) j s w =
    settle-IsCovered now answers id expect to_status message j s w
run-IsCovered (journal_step now order_id step status) j s w =
    IsCovered-more j s (run (journal_step now order_id step status) s) w (λ c. c) (λ h. h)
      (λ m. ground arith)
run-IsCovered (lease_orders now locked wanted batch) j s w =
    IsCovered-more j s (run (lease_orders now locked wanted batch) s) w
      (λ c. sym (lease-cancelled now j _ s.orders.orders) ∙ c) (λ h. h) (λ m. m)

run_all-kept :
    (ts : List Transaction) (j : ℕ) (s : Shop) → IsCovered j s → IsCovered j (run_all ts s)
unfolding run_all
run_all-kept [] j s w = w
run_all-kept (t ∷ ts) j s w = run_all-kept ts j (run t s) (run-IsCovered t j s w)

-- Whatever transactions the orders and the payments commit, in whatever order and interleaving and
-- whatever hooks and queries fail, a cancelled order that has a succeeded payment has a refund
-- marker in the journal.
pub run_all-IsCovered :
    (ts : List Transaction) (order_id : ℕ)
    → is_cancelled (find order_id (run_all ts empty_shop).orders.orders) ≡ true
    → captured order_id (run_all ts empty_shop).payments ≡ true
    → marked order_id (run_all ts empty_shop).orders ≡ true
unfolding find
run_all-IsCovered ts order_id =
    run_all-kept ts order_id empty_shop (λ dead taken. absurd (true_ne_false (sym dead)))
