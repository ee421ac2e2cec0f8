-- ===== src/Inventory/Service.antt =====
-- `InventoryService` (src/inventory/application/service.py): each use-case is one unit of work over
-- the repository. The counters and log lines are left out.
use scalable_ecommerce_backe.Prelude.{
  ℕ, ◌+◌, ◌==◌, if◌then◌else◌, Bool, Option, none, some, List, [], ◌∷◌, any, ok, err, Result,
}
use scalable_ecommerce_backe.Inventory.Model.{
  Reservation, Db, Error, insufficient_stock, invalid_reservation, duplicate_sku, Action,
}
use scalable_ecommerce_backe.Inventory.Repository
use scalable_ecommerce_backe.Inventory.Reserve
use scalable_ecommerce_backe.Inventory.Reserve.{Line, Answer, rows, refused}
use scalable_ecommerce_backe.Shared.UnitOfWork.{transaction}

unfoldable pub release_for_order : ℕ → Action ℕ
release_for_order order_id = transaction (Repository.release_for_order order_id)

unfoldable pub restock_for_order : ℕ → Action ℕ
restock_for_order order_id = transaction (Repository.restock_for_order order_id)

unfoldable pub commit_for_order : ℕ → ℕ → Action ℕ
commit_for_order order_id expected = transaction (Repository.commit_for_order order_id expected)

unfoldable pub release_expired : (Reservation → Bool) → ℕ → ℕ → Action ℕ
release_expired locked now batch = transaction (Repository.release_expired locked now batch)

unfoldable pub release : ℕ → Action Bool
release reservation_id = transaction (Repository.release reservation_id)

unfoldable pub commit_reservation : ℕ → Action Bool
commit_reservation reservation_id = transaction (Repository.commit_reservation reservation_id)

-- The first line that the service itself turns away: a quantity that is not positive, or a SKU
-- that stands in an earlier line.
unfoldable pub bad_line : List ℕ → List Line → Option Error
bad_line seen [] = none
bad_line seen ((sku, qty) ∷ lines) =
    let rest = bad_line (sku ∷ seen) lines in
    if qty == 0
    then some (invalid_reservation sku qty)
    else if any (λ s. s == sku) seen
    then some (duplicate_sku sku)
    else rest

-- `isinstance(rows, StockRejection)`, after the unit of work has closed.
abbrev pub answer_rows : Result Error Answer × Db → Result Error (List Reservation) × Db
answer_rows (ok (rows rs), db) = (ok rs, db)
answer_rows (ok (refused sku qty), db) = (err (insufficient_stock sku qty), db)
answer_rows (err e, db) = (err e, db)

module _ (ttl now : ℕ) where
  unfoldable pub reserve_many : List Line → ℕ → Action (List Reservation)
  reserve_many lines order_id db = elim (bad_line [] lines) [
    | some e ↦ (err e, db)
    | none ↦ answer_rows (transaction (Reserve.reserve_many lines order_id (now + ttl)) db)
  ]

  unfoldable pub reserve : ℕ → ℕ → ℕ → Action Reservation
  reserve sku qty order_id db =
      if qty == 0
      then (err (invalid_reservation sku qty), db)
      else (let (answer, db') = transaction (Reserve.reserve sku qty order_id (now + ttl)) db in
          elim answer [
            | ok none ↦ (err (insufficient_stock sku qty), db')
            | ok (some row) ↦ (ok row, db')
            | err e ↦ (err e, db')
          ])
