-- ===== src/Orders/Saga/Answered.antt =====
-- What a checkout that answers a fresh paid order has done, from what its ports promise
-- (src/orders/application/checkout_saga.py).
use scalable_ecommerce_backe.Prelude.{ℕ, ◌≡◌, leb, true, length, ok}
use scalable_ecommerce_backe.Orders.Saga.Ports.{ChargeResult, Ports}
use scalable_ecommerce_backe.Orders.Saga.Settling.{Checkout}
use scalable_ecommerce_backe.Orders.Saga.Drive.{charge_of}
use scalable_ecommerce_backe.Orders.Saga.Steady.{Steady}
use scalable_ecommerce_backe.Orders.Saga.Confirms.{Confirms}

-- What the ports promise: the journal, a read of an order, a commit, the flip to paid, the basket and
-- the replay record break neither Paid nor Committed, a charge that succeeds leaves Paid, and a commit
-- that reports as many holds as the checkout has lines leaves Committed. A refund, a restock, a
-- release and a cancellation may break both.
pub record Promised {W : Type 0} (ports : Ports W) (Paid Committed : W → Type 0) : Type 0 where
  pub paid_steady : Steady ports Paid
  pub committed_steady : Steady ports Committed
  pub taken :
      (c : Checkout) (w : W)
      → (charge_of ports c w).0 ≡ ok ChargeResult.succeeded
      → Paid (charge_of ports c w).1
  pub committed :
      (c : Checkout) (w : W) (n : ℕ)
      → (ports.commit_for_order c.order_id (length c.lines) w).0 ≡ ok n
      → leb (length c.lines) n ≡ true
      → Committed (ports.commit_for_order c.order_id (length c.lines) w).1

module _ {W : Type 0} (ports : Ports W) (Paid Committed : W → Type 0)
    (promised : Promised ports Paid Committed) where
  abbrev Sold : W → Type 0
  Sold w = Paid w × Committed w
