-- ===== src/Orders/Model.antt =====
-- The types of src/orders/domain/order.py and the tables that src/orders/adapters/db/repository.py
-- writes. Ids, keys, hashes, names and addresses are compared only; money is in the smallest unit.
-- The journal has its newest row first.
use scalable_ecommerce_backe.Prelude.{Option, none, some, ℕ, Bool, true, false, List, Exec}

pub data OrderStatus : Type 0 where
  pending paid shipped cancelled : OrderStatus

pub record OrderItem : Type 0 where
  pub product_id : ℕ
  pub product_name : ℕ
  pub unit_price : ℕ
  pub quantity : ℕ

pub record Order : Type 0 where
  pub id : ℕ
  pub user_id : ℕ
  pub status : OrderStatus
  pub total : ℕ
  pub items : List OrderItem
  pub created_at : ℕ
  pub updated_at : ℕ
  pub idempotency_key : ℕ
  pub idempotency_body_hash : ℕ
  pub user_email : ℕ

-- The journal's vocabulary.
pub data Step : Type 0 where
  create reserve charge commit mark_paid compensate refund cancel : Step

pub data StepStatus : Type 0 where
  started completed unknown failed refunded shortfall requested refused : StepStatus

pub record SagaLog : Type 0 where
  pub order_id : ℕ
  pub step : Step
  pub status : StepStatus
  pub created_at : ℕ
  pub updated_at : ℕ

-- `order_placed_outbox` of src/orders/application/outbox.py.
pub record OrderPlaced : Type 0 where
  pub order_id : ℕ
  pub user_id : ℕ
  pub total : ℕ
  pub items : List OrderItem
  pub user_email : ℕ

abbrev pub order_placed_outbox : Order → OrderPlaced
order_placed_outbox o = record {
  order_id = o.id;
  user_id = o.user_id;
  total = o.total;
  items = o.items;
  user_email = o.user_email;
}

pub record Db : Type 0 where
  pub orders : List Order
  pub saga_log : List SagaLog
  pub outbox : List OrderPlaced
  pub next_id : ℕ

pub data Error : Type 0 where
  state_conflict not_owner vanished query_fault holds_fault : Error

abbrev pub Action : Type 0 → Type 0
Action A = Exec Error Db A

abbrev pub same_status : OrderStatus → OrderStatus → Bool
same_status OrderStatus.pending OrderStatus.pending = true
same_status OrderStatus.paid OrderStatus.paid = true
same_status OrderStatus.shipped OrderStatus.shipped = true
same_status OrderStatus.cancelled OrderStatus.cancelled = true
same_status _ _ = false

abbrev pub same_step : Step → Step → Bool
same_step Step.create Step.create = true
same_step Step.reserve Step.reserve = true
same_step Step.charge Step.charge = true
same_step Step.commit Step.commit = true
same_step Step.mark_paid Step.mark_paid = true
same_step Step.compensate Step.compensate = true
same_step Step.refund Step.refund = true
same_step Step.cancel Step.cancel = true
same_step _ _ = false

abbrev pub is_open : StepStatus → Bool
is_open StepStatus.requested = true
is_open _ = false

abbrev pub is_closed : StepStatus → Bool
is_closed StepStatus.completed = true
is_closed StepStatus.refused = true
is_closed _ = false

-- Whether the order is there and cancelled.
abbrev pub is_cancelled : Option Order → Bool
is_cancelled none = false
is_cancelled (some o) = same_status o.status OrderStatus.cancelled
