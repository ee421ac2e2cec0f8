-- ===== src/Inventory/Repository.antt =====
-- The writes of `InventoryRepository` (src/inventory/adapters/db/repository.py) other than reserving.
-- Each runs inside a unit of work that the service owns.
use scalable_ecommerce_backe.Prelude.{
  ℕ, ◌+◌, ltb, ◌==◌, if◌then◌else◌, Bool, true, false, List, [], ◌∷◌, ◌++◌, length, ok, err, pure,
  ◌>>◌,
}
use scalable_ecommerce_backe.Inventory.Model.{
  Reservation, released, committed, OutboxMessage, Db, stock_mutation, Action,
  stock_released_outbox,
}
use scalable_ecommerce_backe.Inventory.Statements.{
  unreserve, consume, restock, claim_order, claim_order_committed, claim_expired, claim_one,
  mark_batch,
}

abbrev pub Unit₀ : Type 0
Unit₀ = Unit

-- `_require_one`: a mutation that must match exactly one row.
abbrev pub require_one : (Db → ℕ × Db) → Action Unit₀
require_one sql db =
    let (rowcount, db') = sql db in (if rowcount == 1 then ok tt else err stock_mutation, db')

-- `self._session.add(self._outbox_row(…))`
abbrev pub add_outbox : OutboxMessage → Action Unit₀
add_outbox m db = (ok tt, record db { outbox = db.outbox ++ m ∷ [] })

-- The loop over the claimed rows: give each row's stock back, and announce it.
unfoldable pub give_back : (ℕ → ℕ → Db → ℕ × Db) → List Reservation → Action Unit₀
give_back sql [] = pure tt
give_back sql (r ∷ rs) =
    require_one (sql r.sku r.qty)
    >> add_outbox (stock_released_outbox r.sku r.order_id r.qty)
    >> give_back sql rs

-- The loop of `commit_for_order`, which announces nothing.
unfoldable pub consume_all : List Reservation → Action Unit₀
consume_all [] = pure tt
consume_all (r ∷ rs) = require_one (consume r.sku r.qty) >> consume_all rs

abbrev pub write : (Db → Db) → Action Unit₀
write f db = (ok tt, f db)

-- Give back the claimed rows and mark them released: the body that `release_expired`,
-- `release_for_order` and `restock_for_order` share.
unfoldable pub release_rows : (ℕ → ℕ → Db → ℕ × Db) → List Reservation → Action ℕ
release_rows sql [] = pure 0
release_rows sql (r ∷ rs) =
    give_back sql (r ∷ rs) >> write (mark_batch released (r ∷ rs)) >> pure (length (r ∷ rs))

unfoldable pub release_for_order : ℕ → Action ℕ
release_for_order order_id db = release_rows unreserve (claim_order order_id db) db

unfoldable pub restock_for_order : ℕ → Action ℕ
restock_for_order order_id db = release_rows restock (claim_order_committed order_id db) db

unfoldable pub release_expired : (Reservation → Bool) → ℕ → ℕ → Action ℕ
release_expired locked now batch_size db =
    release_rows unreserve (claim_expired locked now batch_size db) db

-- `release`: the status transition first, then the stock, then the event.
unfoldable pub release_one : List Reservation → Action Bool
release_one [] = pure false
release_one (r ∷ rs) =
    write (mark_batch released (r ∷ []))
    >> require_one (unreserve r.sku r.qty)
    >> add_outbox (stock_released_outbox r.sku r.order_id r.qty)
    >> pure true

unfoldable pub release : ℕ → Action Bool
release reservation_id db = release_one (claim_one reservation_id db) db

unfoldable pub commit_one : List Reservation → Action Bool
commit_one [] = pure false
commit_one (r ∷ rs) =
    write (mark_batch committed (r ∷ [])) >> require_one (consume r.sku r.qty) >> pure true

unfoldable pub commit_reservation : ℕ → Action Bool
commit_reservation reservation_id db = commit_one (claim_one reservation_id db) db

unfoldable pub commit_rows : ℕ → ℕ → List Reservation → Action ℕ
commit_rows already expected [] = pure already
commit_rows already expected (r ∷ rs) =
    if ltb (already + length (r ∷ rs)) expected
    then pure already
    else (consume_all (r ∷ rs)
        >> write (mark_batch committed (r ∷ rs))
        >> pure (already + length (r ∷ rs)))

unfoldable pub commit_for_order : ℕ → ℕ → Action ℕ
commit_for_order order_id expected db =
    commit_rows (length (claim_order_committed order_id db)) expected (claim_order order_id db) db
