-- ===== src/Inventory/Statements.antt =====
-- The SQL statements of src/inventory/adapters/db/repository.py, each as a function on the tables.
-- An UPDATE returns the number of rows that it matched.
use scalable_ecommerce_backe.Prelude.{
  ℕ, ◌+◌, ◌-◌, ◌==◌, leb, if◌then◌else◌, Bool, true, ◌&&◌, not, Option, none, some, List, [], ◌∷◌,
  map, filter, any, take,
}
use scalable_ecommerce_backe.Inventory.Model.{
  Inventory, Reservation, ReservationStatus, Db, is_held, is_committed, put_stock,
}

-- `UPDATE inventory SET … WHERE sku = :sku AND guard`: at most the one row of the key.
abbrev pub update_stock : ℕ → (Inventory → Bool) → (Inventory → Inventory) → Db → ℕ × Db
update_stock sku guard set db = elim (db.stock sku) [
  | none ↦ (0, db)
  | some row ↦
      if guard row then (1, record db { stock = put_stock db.stock (set row) }) else (0, db)
]

-- `_DECREMENT_SQL`
unfoldable pub try_reserve_decrement : ℕ → ℕ → Db → ℕ × Db
try_reserve_decrement sku qty =
    update_stock sku (λ row. leb (row.reserved + qty) row.on_hand)
      (λ row. record {
        sku = sku;
        on_hand = row.on_hand;
        reserved = row.reserved + qty;
        version = row.version + 1;
      })

-- `_UNRESERVE_SQL`
unfoldable pub unreserve : ℕ → ℕ → Db → ℕ × Db
unreserve sku qty =
    update_stock sku (λ row. leb qty row.reserved)
      (λ row. record {
        sku = sku;
        on_hand = row.on_hand;
        reserved = row.reserved - qty;
        version = row.version + 1;
      })

-- `_CONSUME_SQL`
unfoldable pub consume : ℕ → ℕ → Db → ℕ × Db
consume sku qty =
    update_stock sku (λ row. leb qty row.reserved && leb qty row.on_hand)
      (λ row. record {
        sku = sku;
        on_hand = row.on_hand - qty;
        reserved = row.reserved - qty;
        version = row.version + 1;
      })

-- `_RESTOCK_SQL`
unfoldable pub restock : ℕ → ℕ → Db → ℕ × Db
restock sku qty =
    update_stock sku (λ row. true)
      (λ row. record {
        sku = sku;
        on_hand = row.on_hand + qty;
        reserved = row.reserved;
        version = row.version + 1;
      })

-- `_UPSERT_SQL`: the row that was written, or none where the guard refused.
unfoldable pub upsert_stock : ℕ → ℕ → Db → Option Inventory × Db
upsert_stock sku on_hand db = elim (db.stock sku) [
  | none ↦
      let row : Inventory = record { sku = sku; on_hand = on_hand; reserved = 0; version = 1 } in
      (some row, record db { stock = put_stock db.stock row })
  | some old ↦
      let row : Inventory = record {
        sku = sku;
        on_hand = on_hand;
        reserved = old.reserved;
        version = if old.on_hand == on_hand then old.version else old.version + 1;
      } in
      if leb old.reserved on_hand
      then (some row, record db { stock = put_stock db.stock row })
      else (none, db)
]

-- The rows of one order in one status: `_CLAIM_ORDER_SQL` and `_CLAIM_ORDER_COMMITTED_SQL`.
abbrev pub of_order : ℕ → (Reservation → Bool) → Reservation → Bool
of_order order_id status r = r.order_id == order_id && status r

unfoldable pub claim_order : ℕ → Db → List Reservation
claim_order order_id db = filter (of_order order_id is_held) db.reservations

unfoldable pub claim_order_committed : ℕ → Db → List Reservation
claim_order_committed order_id db = filter (of_order order_id is_committed) db.reservations

-- `ORDER BY expires_at`
unfoldable pub insert_by_expiry : Reservation → List Reservation → List Reservation
insert_by_expiry r [] = r ∷ []
insert_by_expiry r (x ∷ xs) =
    if leb r.expires_at x.expires_at then r ∷ x ∷ xs else x ∷ insert_by_expiry r xs

unfoldable pub order_by_expiry : List Reservation → List Reservation
order_by_expiry [] = []
order_by_expiry (x ∷ xs) = insert_by_expiry x (order_by_expiry xs)

-- `_CLAIM_EXPIRED_SQL`; `locked` tells the rows that another transaction holds (SKIP LOCKED).
unfoldable pub claim_expired : (Reservation → Bool) → ℕ → ℕ → Db → List Reservation
unfolding order_by_expiry insert_by_expiry
claim_expired locked now batch db = take batch (
    order_by_expiry
      (filter (λ r. is_held r && leb r.expires_at now && not (locked r)) db.reservations))

-- `id = ANY(:ids)`
unfoldable pub has_id : ℕ → List Reservation → Bool
has_id id rows = any (λ r. r.id == id) rows

unfoldable pub mark : ReservationStatus → List Reservation → Reservation → Reservation
mark status claimed r = if has_id r.id claimed then record r { status = status } else r

-- `_MARK_RELEASED_BATCH_SQL` and `_MARK_COMMITTED_BATCH_SQL`
unfoldable pub mark_batch : ReservationStatus → List Reservation → Db → Db
unfolding mark has_id
mark_batch status claimed db = record db {
  reservations = map (mark status claimed) db.reservations;
}

-- `WHERE id = :id AND status = :held`: the rows that `_MARK_RELEASED_SQL` and
-- `_MARK_COMMITTED_SQL` return, which are those that they write.
unfoldable pub claim_one : ℕ → Db → List Reservation
claim_one id db = filter (λ r. r.id == id && is_held r) db.reservations
