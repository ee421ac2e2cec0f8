-- ===== src/Inventory/Model.antt =====
-- The domain types and tables of src/inventory/domain and src/inventory/adapters/db/models.py.
-- SKUs, order ids and reservation ids are compared only, so they are natural numbers; so are
-- points in time. The stock table is keyed by its primary key, the SKU; reservations are a list
-- of rows. `next_id` stands for the supply of fresh ids that `uuid.uuid4` is.
use scalable_ecommerce_backe.Prelude.{
  ℕ, ◌==◌, if◌then◌else◌, Bool, true, false, Option, some, List, Exec,
}

pub record Inventory : Type 0 where
  pub sku : ℕ
  pub on_hand : ℕ
  pub reserved : ℕ
  pub version : ℕ

pub data ReservationStatus : Type 0 where
  held released committed : ReservationStatus

pub record Reservation : Type 0 where
  pub id : ℕ
  pub sku : ℕ
  pub qty : ℕ
  pub order_id : ℕ
  pub status : ReservationStatus
  pub expires_at : ℕ

pub data EventType : Type 0 where
  stock_reserved stock_released : EventType

-- An outbox row of src/inventory/application/outbox.py: its type and its payload.
pub record OutboxMessage : Type 0 where
  pub event_type : EventType
  pub sku : ℕ
  pub order_id : ℕ
  pub qty : ℕ

pub record Db : Type 0 where
  pub stock : ℕ → Option Inventory
  pub reservations : List Reservation
  pub outbox : List OutboxMessage
  pub next_id : ℕ

-- The exceptions of src/shared/errors/exceptions.py that the inventory raises.
pub data Error : Type 0 where
  stock_mutation : Error
  insufficient_stock : ℕ → ℕ → Error
  invalid_reservation : ℕ → ℕ → Error
  duplicate_sku : ℕ → Error
  reservation_conflict : ℕ → ℕ → ℕ → Error
  reservation_contended : ℕ → Error

abbrev pub Action : Type 0 → Type 0
Action A = Exec Error Db A

-- The predicates that the WHERE clauses test on a row's status.
abbrev pub is_held : Reservation → Bool
is_held r = elim r.status [ held ↦ true | released ↦ false | committed ↦ false ]

abbrev pub is_committed : Reservation → Bool
is_committed r = elim r.status [ held ↦ false | released ↦ false | committed ↦ true ]

-- `_ACTIVE_STATUSES`: the statuses that still own stock.
abbrev pub is_active : Reservation → Bool
is_active r = elim r.status [ held ↦ true | released ↦ false | committed ↦ true ]

abbrev pub stock_released_outbox : ℕ → ℕ → ℕ → OutboxMessage
stock_released_outbox sku order_id qty = record {
  event_type = stock_released;
  sku = sku;
  order_id = order_id;
  qty = qty;
}

abbrev pub stock_reserved_outbox : ℕ → ℕ → ℕ → OutboxMessage
stock_reserved_outbox sku order_id qty = record {
  event_type = stock_reserved;
  sku = sku;
  order_id = order_id;
  qty = qty;
}

-- One row of the table is written.
abbrev pub put_stock : (ℕ → Option Inventory) → Inventory → ℕ → Option Inventory
put_stock stock row s = if s == row.sku then some row else stock s
