-- ===== src/Orders/Saga/Unwinding.antt =====
-- A drive that has confirmed its charge does not unwind: `_drive` from the reservation to its except
-- arms (src/orders/application/checkout_saga.py).
use scalable_ecommerce_backe.Prelude.{◌≡◌, true, Exec}
use scalable_ecommerce_backe.Orders.Saga.Ports.{Error, Ports}
use scalable_ecommerce_backe.Orders.Saga.Settling.{Frame, Checkout}
use scalable_ecommerce_backe.Orders.Saga.Preserves.{Preserves}
use scalable_ecommerce_backe.Orders.Saga.Calm.{Calm}
use scalable_ecommerce_backe.Orders.Saga.BeforeCharge.{Uncharged}

module _ {W : Type 0} (ports : Ports W) (I : W → Type 0) (calm : Calm ports I) (c : Checkout) where
  -- The property I, once the frame has taken the charge.
  abbrev Kept : Frame W → Type 0
  Kept f = f.charged ≡ true → I f.world

  -- From a frame that has taken no charge.
  abbrev Starts : {A : Type 0} → Exec Error (Frame W) A → Type 0
  Starts m = (f : Frame W) → Uncharged ports c f → Kept (m f).1
