-- ===== src/Inventory/Lifecycle.antt =====
-- What the repository's writes do from a consistent state: each finishes, and gives back, sells or
-- takes back exactly the rows that it claims.
use scalable_ecommerce_backe.Prelude.{
  ℕ, ◌+◌, ◌≤◌, ◌<◌, ◌≡◌, refl, ◌∙◌, ap, sym, ltb, Bool, true, false, List, [], ◌∷◌, map, arith, ok,
  Result, length, ◌⊎◌, inl, inr, Bool-cases,
}
use scalable_ecommerce_backe.Inventory.Model.{
  Reservation, ReservationStatus, released, committed, Db, Error, is_held, is_committed,
}
use scalable_ecommerce_backe.Inventory.Statements.{
  mark, mark_batch, unreserve, restock, has_id, claim_order, claim_order_committed, claim_expired,
}
use scalable_ecommerce_backe.Inventory.Repository.{
  give_back, release_rows, consume_all, release_for_order, restock_for_order, release_expired,
  commit_for_order, commit_rows,
}
use scalable_ecommerce_backe.Inventory.Totals.{IsClaim}
use scalable_ecommerce_backe.Inventory.Claimed.{
  claim_order-IsClaim, claim_order_committed-IsClaim, claim_expired-IsClaim,
}
use scalable_ecommerce_backe.Inventory.Loops.{
  give_back-unreserve, give_back-restock, consume_all-Moved,
}
use scalable_ecommerce_backe.Inventory.Consistent.{IsConsistent, claim-IsPositive, claim-in_stock}
use scalable_ecommerce_backe.Inventory.Flips.{
  claim_order-released, claim_order-committed, claim_order_committed-count,
  claim_order_committed-restocked,
}
use scalable_ecommerce_backe.Inventory.Settle.{
  IsReleased, IsSold, IsRestocked, claim-le-reserved, release-Moved, commit-Moved, restock-Moved',
}

map-mark-nil : (st : ReservationStatus) (rs : List Reservation) → map (mark st []) rs ≡ rs
unfolding mark has_id
map-mark-nil st [] = refl
map-mark-nil st (r ∷ rs) = ap (◌∷◌ r) (map-mark-nil st rs)

release_rows-ok :
    (sql : ℕ → ℕ → Db → ℕ × Db) (claimed : List Reservation) (db : Db)
    → (give_back sql claimed db).0 ≡ ok tt
    → release_rows sql claimed db
      ≡ (ok (length claimed), mark_batch released claimed (give_back sql claimed db).1)
unfolding release_rows mark_batch
release_rows-ok sql [] db h =
    unfold give_back in ground (arith, map-mark-nil released db.reservations)
release_rows-ok sql (r ∷ rs) db h = ground arith

release-replay :
    (order_id : ℕ) (db : Db)
    → claim_order order_id db ≡ []
    → release_for_order order_id db ≡ (ok 0, db)
unfolding release_for_order release_rows
release-replay order_id db e = rw e

restock-replay :
    (order_id : ℕ) (db : Db)
    → claim_order_committed order_id db ≡ []
    → restock_for_order order_id db ≡ (ok 0, db)
unfolding restock_for_order release_rows
restock-replay order_id db e = rw e

commit-replay :
    (order_id expected : ℕ) (db : Db)
    → claim_order order_id db ≡ []
    → commit_for_order order_id expected db ≡ (ok (length (claim_order_committed order_id db)), db)
unfolding commit_for_order commit_rows
commit-replay order_id expected db e = ground arith

commit-short :
    (order_id expected : ℕ) (db : Db)
    → ltb (length (claim_order_committed order_id db) + length (claim_order order_id db)) expected
      ≡ true
    → commit_for_order order_id expected db ≡ (ok (length (claim_order_committed order_id db)), db)
unfolding commit_for_order commit_rows
commit-short order_id expected db h = ground arith

commit_rows-full :
    (already expected : ℕ) (claimed : List Reservation) (db : Db)
    → ltb (already + length claimed) expected ≡ false
    → (consume_all claimed db).0 ≡ ok tt
    → commit_rows already expected claimed db
      ≡ (ok (already + length claimed), mark_batch committed claimed (consume_all claimed db).1)
unfolding commit_rows
commit_rows-full already expected [] db h c =
    unfold consume_all mark_batch in ground (arith, map-mark-nil committed db.reservations)
commit_rows-full already expected (r ∷ rs) db h c = ground arith

commit-full :
    (order_id expected : ℕ) (db : Db)
    → ltb (length (claim_order_committed order_id db) + length (claim_order order_id db)) expected
      ≡ false
    → (consume_all (claim_order order_id db) db).0 ≡ ok tt
    → commit_for_order order_id expected db ≡ (
      ok (length (claim_order_committed order_id db) + length (claim_order order_id db)),
      mark_batch committed (claim_order order_id db) (consume_all (claim_order order_id db) db).1,
    )
unfolding commit_for_order
commit-full order_id expected db =
    commit_rows-full (length (claim_order_committed order_id db)) expected (claim_order order_id db)
      db

module _ (db : Db) (v : IsConsistent db) where
  -- From a consistent state the rows of a claim are released, all of them.
  release_rows-IsReleased :
      (claimed : List Reservation)
      → IsClaim is_held db.reservations claimed
      → ((release_rows unreserve claimed db).0 ≡ ok (length claimed))
        × IsReleased db (release_rows unreserve claimed db).1 claimed
  release_rows-IsReleased claimed c =
      let pos = claim-IsPositive is_held db.reservations claimed v.positive c.rows in
      let moved = give_back-unreserve claimed db pos (claim-le-reserved db v claimed c) in
      rw (release_rows-ok unreserve claimed db moved.0)
        (refl, release-Moved db v claimed c (give_back unreserve claimed db).1 moved.1)

  -- From a consistent state, releasing an order gives back exactly its held rows and returns their
  -- number: their units leave `reserved`, nothing else moves, and the tables stay consistent.
  pub release_for_order-IsReleased :
      (order_id : ℕ)
      → ((release_for_order order_id db).0 ≡ ok (length (claim_order order_id db)))
        × IsReleased db (release_for_order order_id db).1 (claim_order order_id db)
  unfolding release_for_order
  release_for_order-IsReleased order_id =
      release_rows-IsReleased (claim_order order_id db) (claim_order-IsClaim db v.keyed order_id)

  -- From a consistent state, a run of the reaper gives back exactly the expired rows that it claims
  -- (those that no other session has locked, up to the batch) and returns their number: their units
  -- leave `reserved`, nothing else moves, and the tables stay consistent.
  pub release_expired-IsReleased :
      (locked : Reservation → Bool) (now batch : ℕ)
      → ((release_expired locked now batch db).0 ≡ ok (length (claim_expired locked now batch db)))
        × IsReleased db (release_expired locked now batch db).1 (claim_expired locked now batch db)
  unfolding release_expired
  release_expired-IsReleased locked now batch =
      release_rows-IsReleased (claim_expired locked now batch db)
        (claim_expired-IsClaim db v.keyed locked now batch)

  -- From a consistent state, restocking an order takes back exactly its committed rows and returns
  -- their number: their units are on hand again, nothing else moves, and the tables stay consistent.
  pub restock_for_order-IsRestocked :
      (order_id : ℕ)
      → ((restock_for_order order_id db).0 ≡ ok (length (claim_order_committed order_id db)))
        × IsRestocked db (restock_for_order order_id db).1 (claim_order_committed order_id db)
  unfolding restock_for_order
  restock_for_order-IsRestocked order_id =
      let claimed = claim_order_committed order_id db in
      let c = claim_order_committed-IsClaim db v.keyed order_id in
      let moved = give_back-restock claimed db (claim-in_stock db v is_committed claimed c.rows) in
      rw (release_rows-ok restock claimed db moved.0)
        (refl, restock-Moved' db v claimed c (give_back restock claimed db).1 moved.1)

  commit_for_order-IsSold :
      (order_id expected : ℕ)
      → ltb (length (claim_order_committed order_id db) + length (claim_order order_id db)) expected
        ≡ false
      → ((commit_for_order order_id expected db).0
          ≡ ok (length (claim_order_committed order_id db) + length (claim_order order_id db)))
        × IsSold db (commit_for_order order_id expected db).1 (claim_order order_id db)
  commit_for_order-IsSold order_id expected full =
      let claimed = claim_order order_id db in
      let c = claim_order-IsClaim db v.keyed order_id in
      let pos = claim-IsPositive is_held db.reservations claimed v.positive c.rows in
      let moved = consume_all-Moved claimed db pos (claim-le-reserved db v claimed c) v.covered in
      rw (commit-full order_id expected db full moved.0)
        (refl, commit-Moved db v claimed c (consume_all claimed db).1 moved.1)

  -- From a consistent state, a full set of holds (those already committed included) is sold whole,
  -- and a shortfall consumes nothing. Either way the answer counts the rows that are committed.
  pub commit_for_order_all_or_nothing :
      (order_id expected : ℕ)
      → let n = length (claim_order_committed order_id db) in
        let m = length (claim_order order_id db) in
        let (r, db') = commit_for_order order_id expected db in
        (r ≡ ok (length (claim_order_committed order_id db')))
        × ((n + m < expected × (db' ≡ db))
            ⊎ ((expected ≤ n + m) × IsSold db db' (claim_order order_id db)))
  commit_for_order_all_or_nothing order_id expected =
      elim (Bool-cases (
        ltb (length (claim_order_committed order_id db) + length (claim_order order_id db))
          expected)) [
            | inl short ↦
                rw (commit-short order_id expected db short) (refl, inl (ground arith, refl))
            | inr full ↦
                let sold = commit_for_order-IsSold order_id expected full in
                (
                  sold.0
                      ∙ ap ok (
                          sym (
                            claim_order_committed-count order_id db
                              (commit_for_order order_id expected db).1 v.keyed sold.1.rows)),
                  inr (ground arith, sold.1),
                )
          ]

  -- From a consistent state, committing an order again gives the same answer and changes nothing
  -- more.
  pub commit_for_order_twice :
      (order_id expected : ℕ)
      → commit_for_order order_id expected (commit_for_order order_id expected db).1
        ≡ commit_for_order order_id expected db
  commit_for_order_twice order_id expected =
      elim (Bool-cases (
        ltb (length (claim_order_committed order_id db) + length (claim_order order_id db))
          expected)) [
            | inl short ↦
                let e = commit-short order_id expected db short in
                ap (λ (p : Result Error ℕ × Db). commit_for_order order_id expected p.1) e
            | inr full ↦
                let sold = commit_for_order-IsSold order_id expected full in
                let db' : Db = (commit_for_order order_id expected db).1 in
                commit-replay order_id expected db'
                  (claim_order-committed order_id db db' v.keyed sold.1.rows)
                ∙ (λ i. (
                  (ap ok (claim_order_committed-count order_id db db' v.keyed sold.1.rows)
                        ∙ sym sold.0)
                      i,
                  db',
                ))
          ]

  -- From a consistent state, releasing an order's holds a second time finds nothing, changes nothing and announces nothing.
  pub release_for_order_twice :
      (order_id : ℕ)
      → release_for_order order_id (release_for_order order_id db).1
        ≡ (ok 0, (release_for_order order_id db).1)
  release_for_order_twice order_id =
      let db' : Db = (release_for_order order_id db).1 in
      release-replay order_id db' (
        claim_order-released order_id db db' v.keyed (release_for_order-IsReleased order_id).1.rows)

  -- From a consistent state, restocking an order a second time finds nothing, changes nothing and announces nothing.
  pub restock_for_order_twice :
      (order_id : ℕ)
      → restock_for_order order_id (restock_for_order order_id db).1
        ≡ (ok 0, (restock_for_order order_id db).1)
  restock_for_order_twice order_id =
      let db' : Db = (restock_for_order order_id db).1 in
      restock-replay order_id db' (
        claim_order_committed-restocked order_id db db' v.keyed
          (restock_for_order-IsRestocked order_id).1.rows)
