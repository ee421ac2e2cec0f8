-- ===== src/Orders/Tests.antt =====
-- Orders at concrete inputs.
use scalable_ecommerce_backe.Prelude.{ℕ, ◌≡◌, refl, false, none, [], ◌∷◌, ok, err, Exec}
use scalable_ecommerce_backe.Orders.Model.{OrderStatus, Order, Error, not_owner, holds_fault}
use scalable_ecommerce_backe.Orders.Repository.{
  find, get_order, transition_status, transition_body, latest_saga_step, log_saga_step, update,
  matches, newest,
}
use scalable_ecommerce_backe.Orders.Service.{Session, cancel_order}
use scalable_ecommerce_backe.Orders.Decided.{IsDecided, cancel_order-IsDecided}

abbrev row : Order
row = record {
  id = 3;
  user_id = 7;
  status = OrderStatus.pending;
  total = 500;
  items = [];
  created_at = 10;
  updated_at = 10;
  idempotency_key = 1;
  idempotency_body_hash = 42;
  user_email = 0;
}

-- The stock is the number of holds.
abbrev session : Session ℕ
session = record {
  orders = record { orders = row ∷ []; saga_log = []; outbox = []; next_id = 4 };
  stock = 2;
}

abbrev release : ℕ → Exec Error ℕ ℕ
release id holds = (ok holds, 0)

abbrev fault : ℕ → Exec Error ℕ ℕ
fault id holds = (err holds_fault, 0)

abbrev alone : Session ℕ → Session ℕ
alone s = s

cancel_order-IsDecided_example :
    IsDecided release 20 none 3 alone alone session
      (cancel_order release 20 none 3 alone alone 7 false session)
cancel_order-IsDecided_example =
    cancel_order-IsDecided release 20 none 3 alone alone session 7 false

-- The owner cancels: the row is cancelled and the holds are released.
cancelled : (cancel_order release 20 none 3 alone alone 7 false session).1.stock ≡ 0
unfolding cancel_order get_order transition_status transition_body latest_saga_step log_saga_step
    update matches newest find
cancelled = refl

-- Another user may not, and a failing release takes the flip back.
refused : cancel_order release 20 none 3 alone alone 8 false session ≡ (err not_owner, session)
unfolding cancel_order get_order find
refused = refl

unreleased : cancel_order fault 20 none 3 alone alone 7 false session ≡ (err holds_fault, session)
unfolding cancel_order get_order transition_status transition_body latest_saga_step log_saga_step
    update matches newest find
unreleased = refl
