-- ===== src/Inventory/Moves.antt =====
-- What the stock statements do to the counters of every SKU.
use scalable_ecommerce_backe.Prelude.{
  ℕ, ◌+◌, ◌≤◌, ◌<◌, ◌≡◌, ◌≢◌, ◌==◌, if◌then◌else◌, Bool, true, false, none, some, arith,
}
use scalable_ecommerce_backe.Inventory.Model.{Db}
use scalable_ecommerce_backe.Inventory.Statements.{
  try_reserve_decrement, unreserve, consume, restock,
}

abbrev pub reserved_of : Db → ℕ → ℕ
reserved_of db s = elim (db.stock s) [ none ↦ 0 | some row ↦ row.reserved ]

abbrev pub on_hand_of : Db → ℕ → ℕ
on_hand_of db s = elim (db.stock s) [ none ↦ 0 | some row ↦ row.on_hand ]

abbrev pub in_stock : Db → ℕ → Bool
in_stock db s = elim (db.stock s) [ none ↦ false | some row ↦ true ]

-- Only counters changed, for each SKU by the stated amounts.
pub record Moved (db db' : Db) (reserved_out reserved_in out into : ℕ → ℕ) : Type 0 where
  pub reserved : (s : ℕ) → reserved_of db' s + reserved_out s ≡ reserved_of db s + reserved_in s
  pub on_hand : (s : ℕ) → on_hand_of db' s + out s ≡ on_hand_of db s + into s
  pub same_skus : (s : ℕ) → in_stock db' s ≡ in_stock db s
  pub same_rows : db'.reservations ≡ db.reservations
  pub same_next : db'.next_id ≡ db.next_id

abbrev pub at : ℕ → ℕ → ℕ → ℕ
at sku qty s = if sku == s then qty else 0

abbrev pub zeros : ℕ → ℕ
zeros s = 0

pub unreserve-Moved :
    (sku qty : ℕ) (db : Db)
    → 0 < qty
    → qty ≤ reserved_of db sku
    → ((unreserve sku qty db).0 ≡ 1)
      × Moved db (unreserve sku qty db).1 (at sku qty) zeros zeros zeros
unfolding unreserve
unreserve-Moved sku qty db p h = (
  ground arith,
  record {
    reserved = λ s. ground arith;
    on_hand = λ s. ground arith;
    same_skus = λ s. ground arith;
    same_rows = ground arith;
    same_next = ground arith;
  },
)

pub consume-Moved :
    (sku qty : ℕ) (db : Db)
    → 0 < qty
    → qty ≤ reserved_of db sku
    → qty ≤ on_hand_of db sku
    → ((consume sku qty db).0 ≡ 1)
      × Moved db (consume sku qty db).1 (at sku qty) zeros (at sku qty) zeros
unfolding consume
consume-Moved sku qty db p h h' = (
  ground arith,
  record {
    reserved = λ s. ground arith;
    on_hand = λ s. ground arith;
    same_skus = λ s. ground arith;
    same_rows = ground arith;
    same_next = ground arith;
  },
)

pub restock-Moved :
    (sku qty : ℕ) (db : Db)
    → in_stock db sku ≡ true
    → ((restock sku qty db).0 ≡ 1) × Moved db (restock sku qty db).1 zeros zeros zeros (at sku qty)
unfolding restock
restock-Moved sku qty db h = (
  ground arith,
  record {
    reserved = λ s. ground arith;
    on_hand = λ s. ground arith;
    same_skus = λ s. ground arith;
    same_rows = ground arith;
    same_next = ground arith;
  },
)

pub decrement-Moved :
    (sku qty : ℕ) (db : Db)
    → (try_reserve_decrement sku qty db).0 ≢ 0
    → (reserved_of db sku + qty ≤ on_hand_of db sku)
      × Moved db (try_reserve_decrement sku qty db).1 zeros (at sku qty) zeros zeros
unfolding try_reserve_decrement
decrement-Moved sku qty db h = (
  ground arith,
  record {
    reserved = λ s. ground arith;
    on_hand = λ s. ground arith;
    same_skus = λ s. ground arith;
    same_rows = ground arith;
    same_next = ground arith;
  },
)
