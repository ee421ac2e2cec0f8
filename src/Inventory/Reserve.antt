-- ===== src/Inventory/Reserve.antt =====
-- `reserve_many` and `reserve` of src/inventory/adapters/db/repository.py.
--
-- The transaction is taken alone: what other transactions commit between its two attempts is not
-- modelled. The attempt's savepoint is released where every line is placed. It is rolled back where
-- an exception leaves it, and also where a missing stock row makes the code return: SQLAlchemy's
-- `begin_nested` flushes the pending INSERT before it opens the inner savepoint, so the failed
-- flush has unwound the attempt's own by then.
pub mod Line
pub mod Invariant
pub mod Served
pub mod Replay
pub mod Atomic
use scalable_ecommerce_backe.Prelude.{
  ℕ, ◌+◌, ◌≡◌, ◌==◌, leb, if◌then◌else◌, Bool, true, false, ◌&&◌, Option, none, some, List, [], ◌∷◌,
  ◌++◌, any, ok, err, Result, Exec, pure,
}
use scalable_ecommerce_backe.Inventory.Model.{
  Inventory, Reservation, held, Db, Error, invalid_reservation, reservation_conflict,
  reservation_contended, Action, is_active, stock_reserved_outbox,
}
use scalable_ecommerce_backe.Inventory.Statements.{try_reserve_decrement}
use scalable_ecommerce_backe.Inventory.Consistent.{has_active}

-- A line of the request: a SKU and a quantity. A quantity that is not positive is 0 here.
abbrev pub Line : Type 0
Line = ℕ × ℕ

abbrev pub sku_of : Line → ℕ
sku_of l = l.0

-- `sorted(lines, key=lambda line: line[0])`, which is stable.
unfoldable pub insert_by_sku : Line → List Line → List Line
insert_by_sku x [] = x ∷ []
insert_by_sku x (y ∷ ys) = if leb x.0 y.0 then x ∷ y ∷ ys else y ∷ insert_by_sku x ys

unfoldable pub sort_by_sku : List Line → List Line
unfolding insert_by_sku
sort_by_sku [] = []
sort_by_sku (x ∷ xs) = insert_by_sku x (sort_by_sku xs)

-- The INSERT of a fresh held row, with the constraints of adapters/db/models.py in the order in
-- which the database decides them: the CHECK, the partial unique index, the foreign key.
pub data Inserted : Type 0 where
  placed : Reservation → Inserted
  check_violation unique_violation foreign_key_violation : Inserted

abbrev pub fresh_row : ℕ → ℕ → ℕ → ℕ → ℕ → Reservation
fresh_row id sku qty order_id expires_at = record {
  id = id;
  sku = sku;
  qty = qty;
  order_id = order_id;
  status = held;
  expires_at = expires_at;
}

unfoldable pub insert_reservation : ℕ → ℕ → ℕ → ℕ → Db → Inserted × Db
insert_reservation sku qty order_id expires_at db =
    if qty == 0
    then (check_violation, db)
    else if has_active order_id sku db.reservations
    then (unique_violation, db)
    else elim (db.stock sku) [
      | none ↦ (foreign_key_violation, db)
      | some _ ↦
          let row = fresh_row db.next_id sku qty order_id expires_at in
          (placed row, record db { reservations = row ∷ db.reservations; next_id = db.next_id + 1 })
    ]

-- `_active_map`: this order's active rows, looked up by SKU.
unfoldable pub active_row : ℕ → ℕ → List Reservation → Option Reservation
active_row order_id sku [] = none
active_row order_id sku (r ∷ rs) =
    if is_active r && (r.order_id == order_id && r.sku == sku)
    then some r
    else active_row order_id sku rs

-- How an attempt ends. `stock_rejection` is returned; the four below it are raised.
pub data Attempt : Type 0 where
  outcome : List Reservation → Attempt
  stock_rejection : ℕ → ℕ → Attempt
  rejection : ℕ → ℕ → Attempt
  conflict : ℕ → ℕ → ℕ → Attempt
  raced : ℕ → Attempt
  invalid : ℕ → ℕ → Attempt

-- The INSERT's answer, then the decrement and the outbox row of one line.
unfoldable pub place_line : ℕ → ℕ → ℕ → ℕ → Db → Attempt × Db
place_line sku qty order_id expires_at db =
    let (inserted, db₁) = insert_reservation sku qty order_id expires_at db in
    elim inserted [
      | foreign_key_violation ↦ (stock_rejection sku qty, db₁)
      | check_violation ↦ (invalid sku qty, db₁)
      | unique_violation ↦ (raced sku, db₁)
      | placed row ↦
          let (rowcount, db₂) = try_reserve_decrement sku qty db₁ in
          if rowcount == 0 then (rejection sku qty, db₂) else (
            outcome (row ∷ []),
            record db₂ { outbox = db₂.outbox ++ stock_reserved_outbox sku order_id qty ∷ [] },
          )
    ]

abbrev pub prepend : List Reservation → Attempt → Attempt
prepend rows (outcome rest) = outcome (rows ++ rest)
prepend rows a = a

-- The loop goes on only where the line was placed.
unfoldable pub after_line : (Db → Attempt × Db) → Attempt × Db → Attempt × Db
after_line next (outcome rows, db) = let (a, db') = next db in (prepend rows a, db')
after_line next (stock_rejection s q, db) = (stock_rejection s q, db)
after_line next (rejection s q, db) = (rejection s q, db)
after_line next (conflict s h q, db) = (conflict s h q, db)
after_line next (raced s, db) = (raced s, db)
after_line next (invalid s q, db) = (invalid s q, db)

-- One round of the loop; `found` is the line's active row, and `next` the rounds that follow.
unfoldable pub place_next :
    Option Reservation → ℕ → ℕ → ℕ → ℕ → (Db → Attempt × Db) → Db → Attempt × Db
unfolding after_line
place_next none sku qty order_id expires_at next db =
    after_line next (place_line sku qty order_id expires_at db)
place_next (some current) sku qty order_id expires_at next db =
    if current.qty == qty
    then (let (a, db') = next db in (prepend (current ∷ []) a, db'))
    else (conflict sku current.qty qty, db)

-- The loop over the sorted lines.
unfoldable pub place : (ℕ → Option Reservation) → ℕ → ℕ → List Line → Db → Attempt × Db
unfolding place_next
place existing order_id expires_at [] db = (outcome [], db)
place existing order_id expires_at ((sku, qty) ∷ lines) db =
    place_next (existing sku) sku qty order_id expires_at (place existing order_id expires_at lines)
      db

-- Leaving the attempt's savepoint.
abbrev pub leave_savepoint : Db → Attempt × Db → Attempt × Db
leave_savepoint start (outcome rows, db) = (outcome rows, db)
leave_savepoint start (a, db) = (a, start)

unfoldable pub reserve_attempt : (ℕ → Option Reservation) → ℕ → ℕ → List Line → Db → Attempt × Db
reserve_attempt existing order_id expires_at ordered db =
    leave_savepoint db (place existing order_id expires_at ordered db)

-- What `reserve_many` answers: the held rows, or the line that the stock refused.
pub data Answer : Type 0 where
  rows : List Reservation → Answer
  refused : ℕ → ℕ → Answer

-- The except arms of the loop, and its `return`; `again` is the next round.
unfoldable pub conclude : (ℕ → Action Answer) → Attempt × Db → Result Error Answer × Db
conclude again (outcome rs, db) = (ok (rows rs), db)
conclude again (stock_rejection s q, db) = (ok (refused s q), db)
conclude again (rejection s q, db) = (ok (refused s q), db)
conclude again (conflict s h q, db) = (err (reservation_conflict s h q), db)
conclude again (invalid s q, db) = (err (invalid_reservation s q), db)
conclude again (raced s, db) = again s db

abbrev pub contended : ℕ → Action Answer
contended s db = (err (reservation_contended s), db)

abbrev pub existing_of : ℕ → Db → ℕ → Option Reservation
existing_of order_id db sku = active_row order_id sku db.reservations

abbrev pub second_attempt : ℕ → ℕ → List Line → ℕ → Action Answer
second_attempt order_id expires_at ordered sku db =
    conclude contended (reserve_attempt (existing_of order_id db) order_id expires_at ordered db)

-- The two rounds over the sorted lines.
unfoldable pub reserve_ordered : List Line → ℕ → ℕ → Action Answer
reserve_ordered ordered order_id expires_at db =
    conclude (second_attempt order_id expires_at ordered)
      (reserve_attempt (λ _. none) order_id expires_at ordered db)

unfoldable pub reserve_many : List Line → ℕ → ℕ → Action Answer
reserve_many [] order_id expires_at db = (ok (rows []), db)
reserve_many (l ∷ lines) order_id expires_at db =
    reserve_ordered (sort_by_sku (l ∷ lines)) order_id expires_at db

-- `result[0]`, or None for a rejection.
abbrev pub first_row : Answer → Option Reservation
first_row (rows (r ∷ rs)) = some r
first_row (rows []) = none
first_row (refused s q) = none

-- `reserve` is the case of one line.
unfoldable pub reserve : ℕ → ℕ → ℕ → ℕ → Action (Option Reservation)
reserve sku qty order_id expires_at db =
    let (answer, db') = reserve_many ((sku, qty) ∷ []) order_id expires_at db in
    elim answer [ ok a ↦ (ok (first_row a), db') | err e ↦ (err e, db') ]
