-- ===== src/Inventory/Loops.antt =====
-- The loops over claimed rows finish, and move the stock by what the rows add up to.
use scalable_ecommerce_backe.Prelude.{
  ℕ, ◌≤◌, ◌<◌, ◌≡◌, refl, true, List, [], ◌∷◌, ◌++◌, All, arith, ok, ◌∙◌,
}
use scalable_ecommerce_backe.Inventory.Model.{Reservation, Db, stock_released_outbox}
use scalable_ecommerce_backe.Inventory.Statements.{unreserve, consume, restock}
use scalable_ecommerce_backe.Inventory.Totals.{total, every}
use scalable_ecommerce_backe.Inventory.Repository.{give_back, consume_all}
use scalable_ecommerce_backe.Inventory.Moves.{
  Moved, reserved_of, on_hand_of, in_stock, at, zeros, unreserve-Moved, consume-Moved,
  restock-Moved,
}

abbrev pub IsPositive : Reservation → Type 0
IsPositive r = 0 < r.qty

abbrev pub amount : List Reservation → ℕ → ℕ
amount rs s = total s every rs

abbrev announced : Reservation → Db → Db
announced r db = record db {
  outbox = db.outbox ++ stock_released_outbox r.sku r.order_id r.qty ∷ [];
}

give_back-cons :
    (sql : ℕ → ℕ → Db → ℕ × Db) (r : Reservation) (rs : List Reservation) (db : Db)
    → (sql r.sku r.qty db).0 ≡ 1
    → give_back sql (r ∷ rs) db ≡ give_back sql rs (announced r (sql r.sku r.qty db).1)
unfolding give_back
give_back-cons sql r rs db h = ground arith

consume_all-cons :
    (r : Reservation) (rs : List Reservation) (db : Db)
    → (consume r.sku r.qty db).0 ≡ 1
    → consume_all (r ∷ rs) db ≡ consume_all rs (consume r.sku r.qty db).1
unfolding consume_all
consume_all-cons r rs db h = ground arith

Moved-cons_unreserve :
    (r : Reservation) (rs : List Reservation) {a b c : Db}
    → Moved a b (at r.sku r.qty) zeros zeros zeros
    → Moved (announced r b) c (amount rs) zeros zeros zeros
    → Moved a c (amount (r ∷ rs)) zeros zeros zeros
Moved-cons_unreserve r rs m n = record {
  reserved = λ s. ground (arith, m.reserved s, n.reserved s);
  on_hand = λ s. ground (arith, m.on_hand s, n.on_hand s);
  same_skus = λ s. n.same_skus s ∙ m.same_skus s;
  same_rows = n.same_rows ∙ m.same_rows;
  same_next = n.same_next ∙ m.same_next;
}

Moved-cons_consume :
    (r : Reservation) (rs : List Reservation) {a b c : Db}
    → Moved a b (at r.sku r.qty) zeros (at r.sku r.qty) zeros
    → Moved b c (amount rs) zeros (amount rs) zeros
    → Moved a c (amount (r ∷ rs)) zeros (amount (r ∷ rs)) zeros
Moved-cons_consume r rs m n = record {
  reserved = λ s. ground (arith, m.reserved s, n.reserved s);
  on_hand = λ s. ground (arith, m.on_hand s, n.on_hand s);
  same_skus = λ s. n.same_skus s ∙ m.same_skus s;
  same_rows = n.same_rows ∙ m.same_rows;
  same_next = n.same_next ∙ m.same_next;
}

Moved-cons_restock :
    (r : Reservation) (rs : List Reservation) {a b c : Db}
    → Moved a b zeros zeros zeros (at r.sku r.qty)
    → Moved (announced r b) c zeros zeros zeros (amount rs)
    → Moved a c zeros zeros zeros (amount (r ∷ rs))
Moved-cons_restock r rs m n = record {
  reserved = λ s. ground (arith, m.reserved s, n.reserved s);
  on_hand = λ s. ground (arith, m.on_hand s, n.on_hand s);
  same_skus = λ s. n.same_skus s ∙ m.same_skus s;
  same_rows = n.same_rows ∙ m.same_rows;
  same_next = n.same_next ∙ m.same_next;
}

Moved-nil : (db : Db) → Moved db db zeros zeros zeros zeros
Moved-nil db = record {
  reserved = λ s. refl;
  on_hand = λ s. refl;
  same_skus = λ s. refl;
  same_rows = refl;
  same_next = refl;
}

-- Where the reserved counters cover the rows, every row's hold is given back.
pub give_back-unreserve :
    (rs : List Reservation) (db : Db)
    → All IsPositive rs
    → ((s : ℕ) → total s every rs ≤ reserved_of db s)
    → ((give_back unreserve rs db).0 ≡ ok tt)
      × Moved db (give_back unreserve rs db).1 (amount rs) zeros zeros zeros
give_back-unreserve [] db p h = unfold give_back in (refl, Moved-nil db)
give_back-unreserve (r ∷ rs) db p h =
    let one = unreserve-Moved r.sku r.qty db p.0 (ground (arith, h r.sku)) in
    let db' : Db = announced r (unreserve r.sku r.qty db).1 in
    let rest = give_back-unreserve rs db' p.1 (λ s. ground (arith, h s, one.1.reserved s)) in
    rw (give_back-cons unreserve r rs db one.0) (rest.0, Moved-cons_unreserve r rs one.1 rest.1)

pub consume_all-Moved :
    (rs : List Reservation) (db : Db)
    → All IsPositive rs
    → ((s : ℕ) → total s every rs ≤ reserved_of db s)
    → ((s : ℕ) → reserved_of db s ≤ on_hand_of db s)
    → ((consume_all rs db).0 ≡ ok tt)
      × Moved db (consume_all rs db).1 (amount rs) zeros (amount rs) zeros
consume_all-Moved [] db p h c = unfold consume_all in (refl, Moved-nil db)
consume_all-Moved (r ∷ rs) db p h c =
    let one =
      consume-Moved r.sku r.qty db p.0 (ground (arith, h r.sku))
        (ground (arith, h r.sku, c r.sku)) in
    let db' : Db = (consume r.sku r.qty db).1 in
    let rest =
      consume_all-Moved rs db' p.1 (λ s. ground (arith, h s, one.1.reserved s))
        (λ s. ground (arith, c s, one.1.reserved s, one.1.on_hand s)) in
    rw (consume_all-cons r rs db one.0) (rest.0, Moved-cons_consume r rs one.1 rest.1)

pub give_back-restock :
    (rs : List Reservation) (db : Db)
    → All (λ r. in_stock db r.sku ≡ true) rs
    → ((give_back restock rs db).0 ≡ ok tt)
      × Moved db (give_back restock rs db).1 zeros zeros zeros (amount rs)
give_back-restock [] db h = unfold give_back in (refl, Moved-nil db)
give_back-restock (r ∷ rs) db h =
    let one = restock-Moved r.sku r.qty db h.0 in
    let db' : Db = announced r (restock r.sku r.qty db).1 in
    let rest = give_back-restock rs db' (same rs h.1 one.1.same_skus) in
    rw (give_back-cons restock r rs db one.0) (rest.0, Moved-cons_restock r rs one.1 rest.1)
  where
    same :
        (xs : List Reservation)
        → All (λ x. in_stock db x.sku ≡ true) xs
        → ((s : ℕ) → in_stock (restock r.sku r.qty db).1 s ≡ in_stock db s)
        → All (λ x. in_stock (restock r.sku r.qty db).1 x.sku ≡ true) xs
    same [] a e = tt
    same (x ∷ xs) a e = (e x.sku ∙ a.0, same xs a.1 e)
