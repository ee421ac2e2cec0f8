-- ===== src/Inventory/Tests.antt =====
-- Runs of the inventory on a small shop, and its theorems there.
use scalable_ecommerce_backe.Prelude.{
  ◌+◌, ◌≤◌, ◌<◌, ◌≡◌, refl, ◌==◌, if◌then◌else◌, false, ◌⊎◌, List, [], ◌∷◌, All, arith, ok, err,
  some, none, length,
}
use scalable_ecommerce_backe.Inventory.Model.{Reservation, held, committed, Db, insufficient_stock}
use scalable_ecommerce_backe.Inventory.Statements.{
  try_reserve_decrement, has_id, claim_order, claim_order_committed, claim_expired,
}
use scalable_ecommerce_backe.Inventory.Repository.{
  release_for_order, restock_for_order, release_expired, commit_for_order,
}
use scalable_ecommerce_backe.Inventory.Consistent.{IsConsistent, has_active}
use scalable_ecommerce_backe.Inventory.Settle.{IsReleased, IsSold, IsRestocked}
use scalable_ecommerce_backe.Inventory.Lifecycle.{
  release_for_order-IsReleased, release_expired-IsReleased, restock_for_order-IsRestocked,
  commit_for_order_all_or_nothing, commit_for_order_twice, release_for_order_twice,
  restock_for_order_twice,
}
use scalable_ecommerce_backe.Inventory.Reserve.{
  sort_by_sku, place, place_line, place_next, after_line, reserve_attempt, reserve_ordered,
  conclude, insert_reservation, active_row,
}
use scalable_ecommerce_backe.Inventory.Reserve
use scalable_ecommerce_backe.Inventory.Reserve.{Line}
use scalable_ecommerce_backe.Inventory.Reserve.Invariant.{IsHeldMore}
use scalable_ecommerce_backe.Inventory.Reserve.Served.{HasLine}
use scalable_ecommerce_backe.Inventory.Service.{reserve_many, bad_line}
use scalable_ecommerce_backe.Inventory.Guarantees.{
  reserve_many-IsHeldMore, reserve_many_all_or_nothing, reserve_many_retry,
}

-- SKU 1 has ten units, three of them held by order 7; order 7 has bought two more; SKU 2 has one.
abbrev shop : Db
shop = record {
  stock = λ s.
      if s == 1
      then some (record { sku = 1; on_hand = 10; reserved = 3; version = 4 })
      else if s == 2
      then some (record { sku = 2; on_hand = 1; reserved = 0; version = 1 })
      else none;
  reservations =
      record { id = 0; sku = 1; qty = 3; order_id = 7; status = held; expires_at = 100 }
      ∷ record { id = 1; sku = 2; qty = 2; order_id = 7; status = committed; expires_at = 90 }
      ∷ [];
  outbox = [];
  next_id = 2;
}

shop-IsConsistent : IsConsistent shop
unfolding has_id has_active
shop-IsConsistent = record {
  balanced = λ s. ground arith;
  covered = λ s. ground arith;
  stocked = λ s h. ground arith;
  positive = ground arith;
  keyed = ground arith;
  fresh = ground arith;
  unique = ground arith;
}

abbrev two_lines : List Line
two_lines = (2, 1) ∷ (1, 4) ∷ []

abbrev too_many : List Line
too_many = (1, 4) ∷ (2, 2) ∷ []

too_many_refused : (reserve_many 900 50 too_many 8 shop).0 ≡ err (insufficient_stock 2 2)
unfolding reserve_many bad_line Reserve.reserve_many sort_by_sku reserve_ordered reserve_attempt
    place insert_reservation place_line conclude has_active try_reserve_decrement
too_many_refused = refl

abbrev held_lines : List Reservation
held_lines =
    record { id = 2; sku = 1; qty = 4; order_id = 8; status = held; expires_at = 950 }
    ∷ record { id = 3; sku = 2; qty = 1; order_id = 8; status = held; expires_at = 950 }
    ∷ []

two_lines_held : (reserve_many 900 50 two_lines 8 shop).0 ≡ ok held_lines
unfolding reserve_many bad_line Reserve.reserve_many sort_by_sku reserve_ordered reserve_attempt
    place insert_reservation place_line conclude has_active try_reserve_decrement
two_lines_held = refl

reserve_many-IsHeldMore_example : IsHeldMore shop (reserve_many 900 50 two_lines 8 shop).1
reserve_many-IsHeldMore_example = reserve_many-IsHeldMore 900 50 two_lines 8 shop shop-IsConsistent

reserve_many_all_or_nothing_example : (reserve_many 900 50 too_many 8 shop).1 ≡ shop
reserve_many_all_or_nothing_example =
    reserve_many_all_or_nothing 900 50 too_many 8 shop (insufficient_stock 2 2) too_many_refused

reserve_many_retry_example :
    let db' = (reserve_many 900 50 two_lines 8 shop).1 in
    All (HasLine 8 db') two_lines
    × ((rs' : List Reservation) × (reserve_many 900 60 two_lines 8 db' ≡ (ok rs', db')))
reserve_many_retry_example =
    reserve_many_retry 900 50 two_lines 8 shop held_lines 900 60 two_lines_held

release_for_order-IsReleased_example :
    ((release_for_order 7 shop).0 ≡ ok (length (claim_order 7 shop)))
    × IsReleased shop (release_for_order 7 shop).1 (claim_order 7 shop)
release_for_order-IsReleased_example = release_for_order-IsReleased shop shop-IsConsistent 7

release_expired-IsReleased_example :
    ((release_expired (λ r. false) 100 5 shop).0
      ≡ ok (length (claim_expired (λ r. false) 100 5 shop)))
    × IsReleased shop
        (release_expired (λ r. false) 100 5 shop).1
        (claim_expired (λ r. false) 100 5 shop)
release_expired-IsReleased_example =
    release_expired-IsReleased shop shop-IsConsistent (λ r. false) 100 5

restock_for_order-IsRestocked_example :
    ((restock_for_order 7 shop).0 ≡ ok (length (claim_order_committed 7 shop)))
    × IsRestocked shop (restock_for_order 7 shop).1 (claim_order_committed 7 shop)
restock_for_order-IsRestocked_example = restock_for_order-IsRestocked shop shop-IsConsistent 7

commit_for_order_all_or_nothing_example :
    let n = length (claim_order_committed 7 shop) in
    let m = length (claim_order 7 shop) in
    let (r, db') = commit_for_order 7 2 shop in
    (r ≡ ok (length (claim_order_committed 7 db')))
    × ((n + m < 2 × (db' ≡ shop)) ⊎ ((2 ≤ n + m) × IsSold shop db' (claim_order 7 shop)))
commit_for_order_all_or_nothing_example = commit_for_order_all_or_nothing shop shop-IsConsistent 7 2

commit_for_order_twice_example :
    commit_for_order 7 2 (commit_for_order 7 2 shop).1 ≡ commit_for_order 7 2 shop
commit_for_order_twice_example = commit_for_order_twice shop shop-IsConsistent 7 2

release_for_order_twice_example :
    release_for_order 7 (release_for_order 7 shop).1 ≡ (ok 0, (release_for_order 7 shop).1)
release_for_order_twice_example = release_for_order_twice shop shop-IsConsistent 7

restock_for_order_twice_example :
    restock_for_order 7 (restock_for_order 7 shop).1 ≡ (ok 0, (restock_for_order 7 shop).1)
restock_for_order_twice_example = restock_for_order_twice shop shop-IsConsistent 7
