-- ===== src/Orders/Saga/Basket.antt =====
-- The best-effort writes after a settled checkout: `_remember`, `_clear_basket`, `_consume_basket`
-- and `_clear_basket_if_replay_mop_up` (src/orders/application/checkout_saga.py).
use scalable_ecommerce_backe.Prelude.{
  ℕ, ◌==◌, if◌then◌else◌, Bool, true, not, ◌&&◌, List, [], ◌∷◌, length, filter, pure, ◌>>=◌,
}
use scalable_ecommerce_backe.Orders.Model.{OrderItem, Order}
use scalable_ecommerce_backe.Orders.Saga.Ports.{Call, Ports, or_else}

-- Whether the lines are the same multiset of products and quantities.
abbrev pub same_line : OrderItem → OrderItem → Bool
same_line a b = a.product_id == b.product_id && a.quantity == b.quantity

abbrev pub times : OrderItem → List OrderItem → ℕ
times a xs = length (filter (same_line a) xs)

abbrev pub all_times : List OrderItem → List OrderItem → List OrderItem → Bool
all_times [] xs ys = true
all_times (a ∷ rest) xs ys = times a xs == times a ys && all_times rest xs ys

unfoldable pub same_lines : List OrderItem → List OrderItem → Bool
same_lines xs ys = all_times xs xs ys && all_times ys xs ys

module _ {W : Type 0} (ports : Ports W) where
  unfoldable pub remember : ℕ → ℕ → ℕ → Order → Call W (Unit {0})
  remember user_id key body_hash response = or_else tt (ports.put user_id key body_hash response)

  unfoldable pub clear_basket : ℕ → Call W (Unit {0})
  clear_basket user_id = or_else tt (ports.clear user_id)

  unfoldable pub consume_basket : ℕ → List OrderItem → Call W (Unit {0})
  consume_basket user_id lines = or_else tt (ports.consume user_id lines)

  abbrev mop_up : ℕ → List OrderItem → List OrderItem → Call W (Unit {0})
  mop_up user_id items [] = pure tt
  mop_up user_id items (l ∷ lines) =
      if not (same_lines (l ∷ lines) items) then pure tt else clear_basket user_id

  unfoldable pub clear_basket_if_replay_mop_up : ℕ → List OrderItem → Call W (Unit {0})
  clear_basket_if_replay_mop_up user_id items = ports.get_lines user_id >>= mop_up user_id items
