-- ===== src/Inventory/Reserve/Line.antt =====
-- `place_line` case by case: how the INSERT and the decrement of one line end.
use scalable_ecommerce_backe.Prelude.{ℕ, ◌+◌, ◌≡◌, ◌==◌, true, false, some, [], ◌∷◌, ◌++◌, arith}
use scalable_ecommerce_backe.Inventory.Model.{Db, Reservation, stock_reserved_outbox}
use scalable_ecommerce_backe.Inventory.Statements.{try_reserve_decrement}
use scalable_ecommerce_backe.Inventory.Moves.{in_stock}
use scalable_ecommerce_backe.Inventory.Consistent.{has_active}
use scalable_ecommerce_backe.Inventory.Reserve.{
  insert_reservation, fresh_row, Attempt, place_line, place_next, prepend,
}

module _ (sku qty order_id expires_at : ℕ) (db : Db) where
  abbrev pub with_row : Db
  with_row = record db {
    reservations = fresh_row db.next_id sku qty order_id expires_at ∷ db.reservations;
    next_id = db.next_id + 1;
  }

  abbrev decremented : Db
  decremented = (try_reserve_decrement sku qty with_row).1

  pub place_line-invalid :
      (qty == 0) ≡ true → place_line sku qty order_id expires_at db ≡ (Attempt.invalid sku qty, db)
  unfolding place_line insert_reservation
  place_line-invalid z = ground arith

  module _ (q : (qty == 0) ≡ false) where
    pub place_line-raced :
        has_active order_id sku db.reservations ≡ true
        → place_line sku qty order_id expires_at db ≡ (Attempt.raced sku, db)
    unfolding place_line insert_reservation
    place_line-raced a = ground arith

    module _ (a : has_active order_id sku db.reservations ≡ false) where
      pub place_line-unstocked :
          in_stock db sku ≡ false
          → place_line sku qty order_id expires_at db ≡ (Attempt.stock_rejection sku qty, db)
      unfolding place_line insert_reservation
      place_line-unstocked i = ground arith

      module _ (i : in_stock db sku ≡ true) where
        pub place_line-refused :
            ((try_reserve_decrement sku qty with_row).0 == 0) ≡ true
            → place_line sku qty order_id expires_at db ≡ (Attempt.rejection sku qty, decremented)
        unfolding place_line insert_reservation
        place_line-refused d = ground arith

        pub place_line-placed :
            ((try_reserve_decrement sku qty with_row).0 == 0) ≡ false
            → place_line sku qty order_id expires_at db ≡ (
              Attempt.outcome (fresh_row db.next_id sku qty order_id expires_at ∷ []),
              record decremented {
                outbox = decremented.outbox ++ stock_reserved_outbox sku order_id qty ∷ [];
              },
            )
        unfolding place_line insert_reservation
        place_line-placed d = ground arith

module _ (current : Reservation) (sku qty order_id expires_at : ℕ) (next : Db → Attempt × Db)
    (db : Db) where
  pub place_next-same :
      (current.qty == qty) ≡ true
      → place_next (some current) sku qty order_id expires_at next db
        ≡ (prepend (current ∷ []) (next db).0, (next db).1)
  unfolding place_next
  place_next-same h = ground arith

  pub place_next-conflict :
      (current.qty == qty) ≡ false
      → place_next (some current) sku qty order_id expires_at next db
        ≡ (Attempt.conflict sku current.qty qty, db)
  unfolding place_next
  place_next-conflict h = ground arith
