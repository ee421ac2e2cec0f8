-- ===== src/Inventory/Guarantees.antt =====
-- What `InventoryService` guarantees its callers, the checkout saga above all.
use scalable_ecommerce_backe.Prelude.{
  ℕ, ◌+◌, ◌≡◌, refl, ◌∙◌, ap, sym, subst, ◌==◌, false, List, [], ◌∷◌, All, arith, ok, err, Result,
  none, some, inl, inr, Option-cases,
}
use scalable_ecommerce_backe.Shared.UnitOfWork.{transaction}
use scalable_ecommerce_backe.Inventory.Model.{Reservation, Db, Error}
use scalable_ecommerce_backe.Inventory.Consistent.{IsConsistent}
use scalable_ecommerce_backe.Inventory.Reserve
use scalable_ecommerce_backe.Inventory.Reserve.{Line, Answer, rows, refused}
use scalable_ecommerce_backe.Inventory.Reserve.Invariant.{
  IsHeldMore, repository-IsHeldMore, IsHeldMore-refl,
}
use scalable_ecommerce_backe.Inventory.Reserve.Served.{HasLine}
use scalable_ecommerce_backe.Inventory.Reserve.Replay.{
  Answered, repository-Answered, repository-replay,
}
use scalable_ecommerce_backe.Inventory.Reserve.Atomic.{Unwound, repository-Unwound}
use scalable_ecommerce_backe.Inventory.Service.{reserve_many, bad_line, answer_rows}

bad_line-positive :
    (seen : List ℕ) (lines : List Line)
    → bad_line seen lines ≡ none
    → All (λ l. (l.1 == 0) ≡ false) lines
unfolding bad_line
bad_line-positive seen [] h = tt
bad_line-positive seen ((sku, qty) ∷ lines) h =
    (ground arith, bad_line-positive (sku ∷ seen) lines (ground arith))

replayed :
    (ttl now : ℕ) (lines : List Line) (order_id : ℕ) (db : Db) (rs : List Reservation)
    → bad_line [] lines ≡ none
    → Reserve.reserve_many lines order_id (now + ttl) db ≡ (ok (rows rs), db)
    → reserve_many ttl now lines order_id db ≡ (ok rs, db)
unfolding reserve_many
replayed ttl now lines order_id db rs good h = ground arith

module _ (ttl now : ℕ) (lines : List Line) (order_id : ℕ) (db : Db) where
  abbrev batch : Result Error Answer × Db
  batch = Reserve.reserve_many lines order_id (now + ttl) db

  settled : Result Error (List Reservation) × Db
  settled = answer_rows (transaction (λ _. batch) db)

  service-bad :
      (e : Error)
      → bad_line [] lines ≡ some e
      → reserve_many ttl now lines order_id db ≡ (err e, db)
  unfolding reserve_many
  service-bad e bad = ground arith

  service-good : bad_line [] lines ≡ none → reserve_many ttl now lines order_id db ≡ settled
  unfolding reserve_many settled
  service-good good = ground arith

  -- Whatever a batch asks for and however it ends, the tables stay consistent (each SKU's `reserved`
  -- is what its held rows add up to, and is covered by `on_hand`: no oversell), and neither the units
  -- on hand nor the units sold change.
  pub reserve_many-IsHeldMore :
      IsConsistent db → IsHeldMore db (reserve_many ttl now lines order_id db).1
  unfolding settled
  reserve_many-IsHeldMore v = elim (Option-cases (bad_line [] lines)) [
    | inr (e, bad) ↦
        subst (λ (p : Result Error (List Reservation) × Db). IsHeldMore db p.1)
          (sym (service-bad e bad)) (IsHeldMore-refl v)
    | inl good ↦
        subst (λ (p : Result Error (List Reservation) × Db). IsHeldMore db p.1)
          (sym (service-good good))
          (closed batch (repository-IsHeldMore lines order_id (now + ttl) db v))
  ]
    where
      closed :
          (r : Result Error Answer × Db)
          → IsHeldMore db r.1
          → IsHeldMore db (answer_rows (transaction (λ _. r) db)).1
      closed (ok (rows rs), db') m = m
      closed (ok (refused s q), db') m = m
      closed (err e, db') m = IsHeldMore-refl v

  -- A batch that raises, whatever it raises, leaves the tables exactly as they were, with no partial
  -- holds and no event.
  pub reserve_many_all_or_nothing :
      (e : Error)
      → (reserve_many ttl now lines order_id db).0 ≡ err e
      → (reserve_many ttl now lines order_id db).1 ≡ db
  unfolding settled
  reserve_many_all_or_nothing e failed = elim (Option-cases (bad_line [] lines)) [
    | inr (x, bad) ↦ ap (λ (p : Result Error (List Reservation) × Db). p.1) (service-bad x bad)
    | inl good ↦
        let eq = service-good good in
        ap (λ (p : Result Error (List Reservation) × Db). p.1) eq
        ∙ closed batch (repository-Unwound order_id (now + ttl) lines db)
            (sym (ap (λ (p : Result Error (List Reservation) × Db). p.0) eq) ∙ failed)
  ]
    where
      closed :
          (r : Result Error Answer × Db)
          → Unwound db r
          → (answer_rows (transaction (λ _. r) db)).0 ≡ err e
          → (answer_rows (transaction (λ _. r) db)).1 ≡ db
      closed (ok (rows rs), db') u h = cc
      closed (ok (refused s q), db') u h = u
      closed (err x, db') u h = refl

  -- After a batch that succeeded, each line of it is an active row of the order at its quantity, and
  -- asking again, at any time, succeeds too and writes nothing: no line is deducted twice.
  pub reserve_many_retry :
      (rs : List Reservation) (ttl' now' : ℕ)
      → (reserve_many ttl now lines order_id db).0 ≡ ok rs
      → let db' = (reserve_many ttl now lines order_id db).1 in
        All (HasLine order_id db') lines
        × ((rs' : List Reservation) × (reserve_many ttl' now' lines order_id db' ≡ (ok rs', db')))
  unfolding settled
  reserve_many_retry rs ttl' now' done = elim (Option-cases (bad_line [] lines)) [
    | inr (x, bad) ↦ absurd (cc (sym done, service-bad x bad))
    | inl good ↦
        let eq = service-good good in
        let r =
          closed batch (repository-Answered order_id (now + ttl) lines db)
            (sym (ap (λ (p : Result Error (List Reservation) × Db). p.0) eq) ∙ done) in
        subst
          (λ (p : Result Error (List Reservation) × Db).
            All (HasLine order_id p.1) lines
            × ((rs' : List Reservation) × (reserve_many ttl' now' lines order_id p.1
                  ≡ (ok rs', p.1))))
          (sym eq) (r, again good (answer_rows (transaction (λ _. batch) db)).1 r)
  ]
    where
      closed :
          (r : Result Error Answer × Db)
          → Answered order_id lines r
          → (answer_rows (transaction (λ _. r) db)).0 ≡ ok rs
          → All (HasLine order_id (answer_rows (transaction (λ _. r) db)).1) lines
      closed (ok (rows rs), db') u h = u
      closed (ok (refused s q), db') u h = cc
      closed (err x, db') u h = cc

      again :
          bad_line [] lines ≡ none
          → (db' : Db) → All (HasLine order_id db') lines
          → (rs' : List Reservation) × (reserve_many ttl' now' lines order_id db' ≡ (ok rs', db'))
      again good db' held =
          let r =
            repository-replay order_id (now' + ttl') db' lines (bad_line-positive [] lines good)
              held in
          (r.0, replayed ttl' now' lines order_id db' r.0 good r.1)
