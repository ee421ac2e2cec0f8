-- ===== src/Inventory/Settle.antt =====
-- Moving the stock of a claim and then marking its rows keeps the invariant.
use scalable_ecommerce_backe.Prelude.{
  ℕ, ◌+◌, ◌≤◌, ◌≡◌, ◌∙◌, ap, subst, sym, All, ◌<◌, true, List, map, arith,
}
use scalable_ecommerce_backe.Inventory.Model.{
  Reservation, ReservationStatus, released, committed, Db, is_held, is_committed, is_active,
}
use scalable_ecommerce_backe.Inventory.Statements.{mark, mark_batch}
use scalable_ecommerce_backe.Inventory.Totals.{
  total, every, IsKeyed, IsClaim, total-claim, total-release_held, total-commit_held,
}
use scalable_ecommerce_backe.Inventory.Claims.{
  IsExact, claim-IsExact, total-release_committed, total-commit_committed, total-restock_committed,
  total-restock_held, total-mark-every,
}
use scalable_ecommerce_backe.Inventory.Moves.{Moved, reserved_of, on_hand_of, in_stock, zeros}
use scalable_ecommerce_backe.Inventory.Loops.{IsPositive, amount}
use scalable_ecommerce_backe.Inventory.Consistent.{
  IsConsistent, IsUnique, mark-IsKeyed, mark-IsPositive, mark-fresh, mark-IsUnique, IsExact-active,
}

-- The held rows of a claim are released: reserved falls by their units, all else stays.
pub record IsReleased (db db' : Db) (claimed : List Reservation) : Type 0 where
  pub consistent : IsConsistent db'
  pub rows : db'.reservations ≡ map (mark released claimed) db.reservations
  pub reserved : (s : ℕ) → reserved_of db' s + total s every claimed ≡ reserved_of db s
  pub on_hand : (s : ℕ) → on_hand_of db' s ≡ on_hand_of db s
  pub sold : (s : ℕ) → total s is_committed db'.reservations ≡ total s is_committed db.reservations

-- The held rows of a claim are sold: both counters fall by their units, which are now committed.
pub record IsSold (db db' : Db) (claimed : List Reservation) : Type 0 where
  pub consistent : IsConsistent db'
  pub rows : db'.reservations ≡ map (mark committed claimed) db.reservations
  pub reserved : (s : ℕ) → reserved_of db' s + total s every claimed ≡ reserved_of db s
  pub on_hand : (s : ℕ) → on_hand_of db' s + total s every claimed ≡ on_hand_of db s
  pub sold :
      (s : ℕ)
      → total s is_committed db'.reservations
        ≡ total s is_committed db.reservations + total s every claimed

-- The committed rows of a claim are taken back: their units are on hand again.
pub record IsRestocked (db db' : Db) (claimed : List Reservation) : Type 0 where
  pub consistent : IsConsistent db'
  pub rows : db'.reservations ≡ map (mark released claimed) db.reservations
  pub reserved : (s : ℕ) → reserved_of db' s ≡ reserved_of db s
  pub on_hand : (s : ℕ) → on_hand_of db' s ≡ on_hand_of db s + total s every claimed
  pub sold :
      (s : ℕ)
      → total s is_committed db'.reservations + total s every claimed
        ≡ total s is_committed db.reservations

held-active : (x : Reservation) → is_held x ≡ true → is_active x ≡ true
held-active x h = ground arith

committed-active : (x : Reservation) → is_committed x ≡ true → is_active x ≡ true
committed-active x h = ground arith

module _ (db : Db) (v : IsConsistent db) (claimed : List Reservation) where
  abbrev rs : List Reservation
  rs = db.reservations

  -- What is left to show of the tables once the counters are known.
  mark-IsConsistent :
      (st : ReservationStatus) (db' : Db)
      → db'.reservations ≡ rs
      → db'.next_id ≡ db.next_id
      → ((s : ℕ) → in_stock db' s ≡ in_stock db s)
      → IsExact is_active claimed rs
      → ((s : ℕ) → reserved_of db' s ≡ total s is_held (map (mark st claimed) rs))
      → ((s : ℕ) → reserved_of db' s ≤ on_hand_of db' s)
      → IsConsistent (mark_batch st claimed db')
  unfolding mark_batch
  mark-IsConsistent st db' rows next skus exact balanced covered = record {
    balanced = λ s.
        subst (λ xs. reserved_of db' s ≡ total s is_held (map (mark st claimed) xs)) (sym rows)
          (balanced s);
    covered = covered;
    stocked = λ s h.
        subst (λ xs. total s every (map (mark st claimed) xs) ≡ 0) (sym rows)
          (total-mark-every s claimed st rs ∙ v.stocked s (sym (skus s) ∙ h));
    positive =
        subst (λ xs. All IsPositive (map (mark st claimed) xs)) (sym rows)
          (mark-IsPositive st claimed rs v.positive);
    keyed =
        subst (λ xs. IsKeyed (map (mark st claimed) xs)) (sym rows)
          (mark-IsKeyed st claimed rs v.keyed);
    fresh =
        subst (λ n. All (λ r. r.id < n) (map (mark st claimed) db'.reservations)) (sym next)
          (subst (λ xs. All (λ r. r.id < db.next_id) (map (mark st claimed) xs)) (sym rows)
            (mark-fresh st claimed db.next_id rs v.fresh));
    unique =
        subst (λ xs. IsUnique (map (mark st claimed) xs)) (sym rows)
          (mark-IsUnique st claimed rs exact v.unique);
  }

  module _ (c : IsClaim is_held rs claimed) where
    pub claim-le-reserved : (s : ℕ) → total s every claimed ≤ reserved_of db s
    claim-le-reserved s = omega (
      arith,
      v.balanced s,
      total-release_held s claimed rs,
      total-claim s is_held rs claimed v.keyed c,
    )

    held-IsExact : IsExact is_held claimed rs
    held-IsExact = claim-IsExact is_held claimed rs v.keyed c

    pub release-Moved :
        (db' : Db)
        → Moved db db' (amount claimed) zeros zeros zeros
        → IsReleased db (mark_batch released claimed db') claimed
    release-Moved db' m = record {
      consistent =
          mark-IsConsistent released db' m.same_rows m.same_next m.same_skus
            (IsExact-active is_held claimed rs held-active held-IsExact)
            (λ s. omega (
              arith,
              v.balanced s,
              m.reserved s,
              total-release_held s claimed rs,
              total-claim s is_held rs claimed v.keyed c,
            ))
            (λ s. omega (arith, v.covered s, m.reserved s, m.on_hand s));
      rows = unfold mark_batch in ap (map (mark released claimed)) m.same_rows;
      reserved = λ s. unfold mark_batch in omega (arith, m.reserved s);
      on_hand = λ s. unfold mark_batch in omega (arith, m.on_hand s);
      sold = λ s.
          unfold mark_batch in
          (ap (λ xs. total s is_committed (map (mark released claimed) xs)) m.same_rows
            ∙ total-release_committed s claimed rs held-IsExact);
    }

    pub commit-Moved :
        (db' : Db)
        → Moved db db' (amount claimed) zeros (amount claimed) zeros
        → IsSold db (mark_batch committed claimed db') claimed
    commit-Moved db' m = record {
      consistent =
          mark-IsConsistent committed db' m.same_rows m.same_next m.same_skus
            (IsExact-active is_held claimed rs held-active held-IsExact)
            (λ s. omega (
              arith,
              v.balanced s,
              m.reserved s,
              total-commit_held s claimed rs,
              total-claim s is_held rs claimed v.keyed c,
            ))
            (λ s. omega (arith, v.covered s, m.reserved s, m.on_hand s));
      rows = unfold mark_batch in ap (map (mark committed claimed)) m.same_rows;
      reserved = λ s. unfold mark_batch in omega (arith, m.reserved s);
      on_hand = λ s. unfold mark_batch in omega (arith, m.on_hand s);
      sold = λ s.
          unfold mark_batch in
          (ap (λ xs. total s is_committed (map (mark committed claimed) xs)) m.same_rows
            ∙ omega (
              arith,
              total-commit_committed s claimed rs held-IsExact,
              total-claim s is_held rs claimed v.keyed c,
            ));
    }

  module _ (c : IsClaim is_committed rs claimed) where
    pub restock-Moved' :
        (db' : Db)
        → Moved db db' zeros zeros zeros (amount claimed)
        → IsRestocked db (mark_batch released claimed db') claimed
    restock-Moved' db' m =
        let exact = claim-IsExact is_committed claimed rs v.keyed c in
        record {
          consistent =
              mark-IsConsistent released db' m.same_rows m.same_next m.same_skus
                (IsExact-active is_committed claimed rs committed-active exact)
                (λ s.
                  omega (arith, v.balanced s, m.reserved s, total-restock_held s claimed rs exact))
                (λ s. omega (arith, v.covered s, m.reserved s, m.on_hand s));
          rows = unfold mark_batch in ap (map (mark released claimed)) m.same_rows;
          reserved = λ s. unfold mark_batch in omega (arith, m.reserved s);
          on_hand = λ s. unfold mark_batch in omega (arith, m.on_hand s);
          sold = λ s.
              unfold mark_batch in
              omega (
                arith,
                ap (λ xs. total s is_committed (map (mark released claimed) xs)) m.same_rows,
                total-restock_committed s claimed rs,
                total-claim s is_committed rs claimed v.keyed c,
              );
        }
