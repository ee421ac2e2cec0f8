-- ===== src/Orders/Saga/Tests.antt =====
-- The checkout saga over a small world: one order, whose charge, commit and undo it remembers.
use scalable_ecommerce_backe.Prelude.{
  ℕ, ◌+◌, ◌≡◌, refl, ◌∙◌, subst, leb, Bool, true, false, Option, none, some, List, [], ◌∷◌, length,
  ok, err, Result, ap, arith,
}
use scalable_ecommerce_backe.Orders.Model.{OrderStatus, OrderItem, Order}
use scalable_ecommerce_backe.Orders.Saga.Ports.{ChargeResult, Error, other, Ports, is_exception}
use scalable_ecommerce_backe.Orders.Saga.Undo.{compensate, restock_cancelled_order, commit_holds}
use scalable_ecommerce_backe.Orders.Saga.Settling.{Checkout}
use scalable_ecommerce_backe.Orders.Saga.Recovery.{
  settle_stuck, retry_refund, recover_stuck, Settled, Counts, retry_journaled_refund,
}
use scalable_ecommerce_backe.Orders.Saga.Calm.{Calm}
use scalable_ecommerce_backe.Orders.Saga.Steady.{Steady}
use scalable_ecommerce_backe.Shared.Outcomes.{ok_inj}
use scalable_ecommerce_backe.Orders.Saga.Recovering.{Guarded, stands}
use scalable_ecommerce_backe.Orders.Saga.Passing.{recover_stuck-IsGuarded}
use scalable_ecommerce_backe.Orders.Saga.Accounted.{Undisturbed, counted, recover_stuck-counts}

record World : Type 0 where
  charged : Bool
  back : Bool
  unwound : Bool
  committed : Bool
  status : OrderStatus

abbrev start : World
start = record {
  charged = false;
  back = false;
  unwound = false;
  committed = false;
  status = OrderStatus.pending;
}

abbrev line : OrderItem
line = record { product_id = 3; product_name = 0; unit_price = 250; quantity = 2 }

abbrev order_in : World → Order
order_in w = record {
  id = 0;
  user_id = 7;
  status = w.status;
  total = 500;
  items = line ∷ [];
  created_at = 10;
  updated_at = 10;
  idempotency_key = 1;
  idempotency_body_hash = 42;
  user_email = 0;
}

abbrev flip_to : OrderStatus → World → World
flip_to OrderStatus.cancelled w = record w { status = OrderStatus.cancelled; unwound = true }
flip_to s w = record w { status = s }

abbrev answer_of : Bool → Option ChargeResult
answer_of true = some ChargeResult.refunded
answer_of false = some ChargeResult.succeeded

-- The ports, where a commit of n holds finds `found n` of them.
abbrev shop : (ℕ → ℕ) → Ports World
shop found = record {
  get_order = λ id w. (ok (some (order_in w)), w);
  get_order_status = λ id w. (ok (some w.status), w);
  get_by_idempotency = λ user_id key w. (ok none, w);
  create_pending_order = λ user_id key hash total lines email w. (ok (order_in w, true), w);
  transition_status = λ id expect to_status message w.
      (ok (some (order_in (flip_to to_status w))), flip_to to_status w);
  log_saga_step = λ id step status w. (ok tt, w);
  has_recent_saga_activity = λ id since w. (ok false, w);
  claim_stuck_pending = λ cutoff n w. (ok (0 ∷ []), w);
  claim_cancelled_with_pending_refund = λ cutoff n w. (ok (0 ∷ []), w);
  rollback = λ w. (ok tt, w);
  get_lines = λ user_id w. (ok (line ∷ []), w);
  consume = λ user_id lines w. (ok tt, w);
  clear = λ user_id w. (ok tt, w);
  current_prices = λ ids w. (ok (λ id. some 250), w);
  reserve_many = λ lines id w. (ok tt, w);
  release_for_order = λ id w. (ok 1, record w { unwound = true });
  restock_for_order = λ id w. (ok 1, record w { committed = false });
  commit_for_order = λ id expected w.
      (ok (found expected), record w { committed = leb expected (found expected) });
  charge = λ id key amount token w.
      (ok ChargeResult.succeeded, record w { charged = true; back = false; unwound = false });
  find_by_idempotency_key = λ key w. (ok (answer_of w.back), w);
  refund = λ key w. (ok true, record w { back = true });
  recall = λ user_id key w. (ok none, w);
  put = λ user_id key hash o w. (ok tt, w);
  fresh_compensate = none;
}

-- The order is charged and was not undone since.
abbrev Standing : World → Type 0
Standing w = (w.charged ≡ true) × (w.unwound ≡ false)

abbrev all_found : ℕ → ℕ
all_found n = n

abbrev bought : Checkout
bought = record {
  order_id = 0;
  user_id = 7;
  key = 1;
  token = 33;
  lines = line ∷ [];
  body_hash = 42;
}

-- The charge stands: no refund, and no undoing, came after it.
abbrev Paid : World → Type 0
Paid w = (w.charged ≡ true) × ((w.back ≡ false) × (w.unwound ≡ false))

-- The holds are committed, and no restock came after.
abbrev Committed : World → Type 0
Committed w = w.committed ≡ true

-- A world whose holds were reaped before the payment was confirmed.
abbrev none_found : ℕ → ℕ
none_found n = 0

-- The order is not undone before its money is back.
abbrev InOrder : World → Type 0
InOrder w = w.unwound ≡ true → w.back ≡ true

abbrev Returned : Order → World → Type 0
Returned o w = w.back ≡ true

in_order : Calm (shop none_found) InOrder
in_order = record {
  get_order = λ id w p. p;
  get_order_status = λ id w p. p;
  log_saga_step = λ id step status w p. p;
  mark_paid = λ id message w p. p;
  commit_for_order = λ id expected w p. p;
  restock_for_order = λ id w p. p;
  refund = λ key w p h. refl;
  consume = λ user_id lines w p. p;
  put = λ user_id key hash o w p. p;
}

not_standing :
    (b : Bool) (found : Option ChargeResult) → answer_of b ≡ found → stands found ≡ false → b ≡ true
not_standing true found h k = refl
not_standing false found h k = absurd (stands_ne (ap stands h ∙ k))
  where
    stands_ne : true ≡ false → ⊥
    stands_ne e = ground arith

compensate_back :
    (o : Order) (w : World)
    → Returned o w
    → InOrder w
    → InOrder (compensate (shop none_found) o.id w).1
unfolding compensate
compensate_back o w r p h = r

guarded : Guarded (shop none_found) InOrder Returned
guarded = record {
  calm = in_order;
  find = λ key w p. p;
  has_recent = λ id since w p. p;
  claim_pending = λ cutoff n w p. p;
  claim_refunds = λ cutoff n w p. p;
  rollback = λ w p. p;
  no_charge = λ o w found h k. not_standing w.back found (ok_inj (answer_of w.back) found h) k;
  returned = λ o w b h. refl;
  journal = λ o status w p. p;
  undone = compensate_back;
}

-- The payment was confirmed after the holds were reaped: the pass returns the money and cancels.
abbrev late : World
late = record start { charged = true }

recover_stuck-IsGuarded_example : InOrder (recover_stuck (shop none_found) 100 10 late).1
recover_stuck-IsGuarded_example =
    recover_stuck-IsGuarded (shop none_found) InOrder Returned guarded 100 10 late
      (λ h. absurd (unwound_not h))
  where
    unwound_not : false ≡ true → ⊥
    unwound_not e = ground arith

recovered : (recover_stuck (shop none_found) 100 10 late).1.back ≡ true
unfolding recover_stuck commit_holds compensate retry_journaled_refund restock_cancelled_order
recovered = refl

-- A world whose orders cannot be read.
abbrev unreadable : Ports World
unreadable = record (shop none_found) { get_order = λ id w. (err other, w) }

abbrev refused_with : Error → Result Error Settled
refused_with e = err e

other_is_exception : (e : Error) → refused_with other ≡ err e → is_exception e ≡ true
other_is_exception e h = subst (λ x. is_exception x ≡ true) same refl
  where
    same : other ≡ e
    same = cc

settle-Undisturbed : Undisturbed unreadable (λ _. refl) (settle_stuck unreadable 100)
unfolding settle_stuck
settle-Undisturbed id w e h = other_is_exception e h

retry-Undisturbed : Undisturbed unreadable (λ _. refl) (retry_refund unreadable)
unfolding retry_refund
retry-Undisturbed id w e h = other_is_exception e h

recover_stuck-counts_example :
    (stuck : List ℕ) × (((unreadable.claim_stuck_pending 100 10 late).0 ≡ ok stuck)
      × ((v : World) × ((refunds : List ℕ) × (((unreadable.claim_cancelled_with_pending_refund 100
                  10 v).0
                ≡ ok refunds)
              × ((n : Counts) × (((recover_stuck unreadable 100 10 late).0 ≡ ok n)
                    × (counted n ≡ length stuck + length refunds)))))))
recover_stuck-counts_example =
    recover_stuck-counts unreadable (λ _. refl) 100 10 settle-Undisturbed retry-Undisturbed
      (λ w. (0 ∷ [], refl)) (λ w. (0 ∷ [], refl)) late
