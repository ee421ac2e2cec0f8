-- ===== src/Orders/Saga/Checkout.antt =====
-- The entry point of src/orders/application/checkout_saga.py: `checkout`, `_revalidate_prices` and
-- `_replay_or_resume`. The labels of metrics are left out; an absent replay cache is one that
-- remembers nothing.
use scalable_ecommerce_backe.Prelude.{
  ℕ, ◌==◌, if◌then◌else◌, Bool, true, false, not, Option, none, some, List, [], ◌∷◌, map, pure,
  raise, ◌>>=◌, ◌>>◌,
}
use scalable_ecommerce_backe.Orders.Model.{OrderStatus, OrderItem, Order, same_status}
use scalable_ecommerce_backe.Orders.Saga.Ports.{
  empty_cart, already_cancelled, order_state_conflict, idempotency_conflict, cart_changed, Call,
  Record, Ports,
}
use scalable_ecommerce_backe.Orders.Saga.Basket.{remember, clear_basket_if_replay_mop_up}
use scalable_ecommerce_backe.Orders.Saga.Settling.{Answer, Checkout, total}
use scalable_ecommerce_backe.Orders.Saga.Drive.{drive}

module _ {W : Type 0} (ports : Ports W) where
  abbrev pub priced : OrderItem → Call W (Unit {0}) → Option ℕ → Call W (Unit {0})
  priced l rest none = raise cart_changed
  priced l rest (some price) = if not (price == l.unit_price) then raise cart_changed else rest

  abbrev pub priced_as_ordered : (ℕ → Option ℕ) → List OrderItem → Call W (Unit {0})
  priced_as_ordered current [] = pure tt
  priced_as_ordered current (l ∷ lines) =
      priced l (priced_as_ordered current lines) (current l.product_id)

  -- `_revalidate_prices`
  unfoldable pub revalidate_prices : List OrderItem → Call W (Unit {0})
  revalidate_prices lines =
      ports.current_prices (map (λ (l : OrderItem). l.product_id) lines) >>= λ current.
      priced_as_ordered current lines

  -- What a checkout is called with, and the hash of its body.
  module _ (user_id key token body_hash user_email : ℕ) where
    abbrev pub frame_of : ℕ → List OrderItem → Checkout
    frame_of order_id lines = record {
      order_id = order_id;
      user_id = user_id;
      key = key;
      token = token;
      lines = lines;
      body_hash = body_hash;
    }

    -- A checkout that this call did not create.
    abbrev not_created : Answer → Call W Answer
    not_created (response, drove) = pure (response, false)

    abbrev pub by_state : OrderStatus → Order → Call W Answer
    by_state OrderStatus.paid order =
        remember ports user_id key body_hash order
        >> clear_basket_if_replay_mop_up ports user_id order.items
        >> pure (order, false)
    by_state OrderStatus.pending order = drive ports (frame_of order.id order.items) >>= not_created
    by_state OrderStatus.shipped order = raise (order_state_conflict already_cancelled)
    by_state OrderStatus.cancelled order = raise (order_state_conflict already_cancelled)

    -- `_replay_or_resume`
    unfoldable pub replay_or_resume : Order → Call W Answer
    replay_or_resume order =
        if not (order.idempotency_body_hash == body_hash)
        then raise idempotency_conflict
        else by_state order.status order

    abbrev pub created : List OrderItem → Order × Bool → Call W Answer
    created lines (order, true) = drive ports (frame_of order.id lines)
    created lines (order, false) = replay_or_resume order

    abbrev pub fresh : List OrderItem → Call W Answer
    fresh [] = raise (order_state_conflict empty_cart)
    fresh (l ∷ lines) =
        revalidate_prices (l ∷ lines)
        >> ports.create_pending_order user_id key body_hash (total (l ∷ lines)) (l ∷ lines)
            user_email
        >>= created (l ∷ lines)

    abbrev pub existing : Option Order → Call W Answer
    existing (some order) = replay_or_resume order
    existing none = ports.get_lines user_id >>= fresh

    abbrev pub recalled : Option Record → Call W Answer
    recalled none = ports.get_by_idempotency user_id key >>= existing
    recalled (some (hash, response)) =
        if not (hash == body_hash)
        then raise idempotency_conflict
        else (if same_status response.status OrderStatus.paid
            then clear_basket_if_replay_mop_up ports user_id response.items
            else pure tt)
          >> pure (response, false)

    unfoldable pub checkout : Call W Answer
    checkout = ports.recall user_id key >>= recalled
