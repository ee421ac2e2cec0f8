-- ===== src/Inventory/Reserve/Invariant.antt =====
-- Reserving keeps the tables consistent, sells nothing and touches no unit on hand.
use scalable_ecommerce_backe.Prelude.{
  ℕ, ◌+◌, ◌≤◌, ◌<◌, ◌≡◌, refl, ◌∙◌, sym, subst, ◌==◌, true, false, List, [], ◌∷◌, ◌++◌, All, arith,
  Option, none, some, inl, inr, Bool-cases, ne_of_==,
}
use scalable_ecommerce_backe.Inventory.Model.{
  Reservation, Db, is_held, is_committed, Action, stock_reserved_outbox,
}
use scalable_ecommerce_backe.Inventory.Statements.{has_id, try_reserve_decrement}
use scalable_ecommerce_backe.Inventory.Totals.{IsKeyed, total, every}
use scalable_ecommerce_backe.Inventory.Moves.{
  Moved, reserved_of, on_hand_of, in_stock, zeros, at, decrement-Moved,
}
use scalable_ecommerce_backe.Inventory.Loops.{IsPositive}
use scalable_ecommerce_backe.Inventory.Consistent.{IsConsistent, IsUnique, has_active}
use scalable_ecommerce_backe.Inventory.Reserve.Line.{
  with_row, place_line-invalid, place_line-raced, place_line-unstocked, place_line-refused,
  place_line-placed, place_next-same, place_next-conflict,
}
use scalable_ecommerce_backe.Inventory.Reserve.{
  Line, sort_by_sku, after_line, place_next, prepend, fresh_row, Attempt, place_line, place,
  leave_savepoint, reserve_attempt, conclude, contended, reserve_ordered, reserve_many,
  second_attempt, existing_of, Answer,
}

-- A step that may place holds.
pub record IsHeldMore (db db' : Db) : Type 0 where
  pub consistent : IsConsistent db'
  pub on_hand : (s : ℕ) → on_hand_of db' s ≡ on_hand_of db s
  pub sold : (s : ℕ) → total s is_committed db'.reservations ≡ total s is_committed db.reservations

pub IsHeldMore-refl : {db : Db} → IsConsistent db → IsHeldMore db db
IsHeldMore-refl v = record { consistent = v; on_hand = λ s. refl; sold = λ s. refl }

IsHeldMore-trans : {a b c : Db} → IsHeldMore a b → IsHeldMore b c → IsHeldMore a c
IsHeldMore-trans m n = record {
  consistent = n.consistent;
  on_hand = λ s. n.on_hand s ∙ m.on_hand s;
  sold = λ s. n.sold s ∙ m.sold s;
}

has_id-fresh : (n : ℕ) (rs : List Reservation) → All (λ r. r.id < n) rs → has_id n rs ≡ false
unfolding has_id
has_id-fresh n [] h = refl
has_id-fresh n (r ∷ rs) h = ground (arith, has_id-fresh n rs h.1, h.0)

fresh-next : (n : ℕ) (rs : List Reservation) → All (λ r. r.id < n) rs → All (λ r. r.id < n + 1) rs
fresh-next n [] h = tt
fresh-next n (r ∷ rs) h = (omega (arith, h.0), fresh-next n rs h.1)

module _ (db : Db) (v : IsConsistent db) (sku qty order_id expires_at : ℕ) where
  abbrev row : Reservation
  row = fresh_row db.next_id sku qty order_id expires_at

  abbrev inserted : Db
  inserted = record db { reservations = row ∷ db.reservations; next_id = db.next_id + 1 }

  -- A fresh row with its decrement: the invariant holds again.
  placed-IsHeldMore :
      (db' : Db)
      → (qty == 0) ≡ false
      → has_active order_id sku db.reservations ≡ false
      → in_stock db sku ≡ true
      → reserved_of db sku + qty ≤ on_hand_of db sku
      → Moved inserted db' zeros (at sku qty) zeros zeros
      → IsHeldMore db db'
  placed-IsHeldMore db' q a i fits m =
      let rows : db'.reservations ≡ row ∷ db.reservations = m.same_rows in
      record {
        consistent = record {
          balanced = λ s.
              subst (λ xs. reserved_of db' s ≡ total s is_held xs) (sym rows)
                (ground (arith, m.reserved s, v.balanced s));
          covered = λ s. ground (arith, m.reserved s, m.on_hand s, v.covered s, fits);
          stocked = λ s h.
              subst (λ xs. total s every xs ≡ 0) (sym rows)
                (ground (arith, m.same_skus s, v.stocked s));
          positive = subst (All IsPositive) (sym rows) (ground arith, v.positive);
          keyed =
              subst IsKeyed (sym rows) (has_id-fresh db.next_id db.reservations v.fresh, v.keyed);
          fresh =
              subst (λ n. All (λ r. r.id < n) db'.reservations) (sym m.same_next)
                (subst (All (λ r. r.id < db.next_id + 1)) (sym rows)
                  (omega arith, fresh-next db.next_id db.reservations v.fresh));
          unique = subst IsUnique (sym rows) ((λ _. a), v.unique);
        };
        on_hand = λ s. omega (arith, m.on_hand s);
        sold = λ s.
            subst (λ xs. total s is_committed xs ≡ total s is_committed db.reservations) (sym rows)
              (ground arith);
      }

-- What an attempt leaves behind where its savepoint is released.
abbrev Kept : Db → Attempt × Db → Type 0
Kept db (Attempt.outcome rs, db') = IsHeldMore db db'
Kept db (a, db') = Unit

Kept-trans : {a b : Db} → IsHeldMore a b → (r : Attempt × Db) → Kept b r → Kept a r
Kept-trans m (Attempt.outcome rs, db') k = IsHeldMore-trans m k
Kept-trans m (_, db') k = tt

Kept-prepend :
    (db : Db) (xs : List Reservation) (a : Attempt) (db' : Db)
    → Kept db (a, db')
    → Kept db (prepend xs a, db')
Kept-prepend db xs (Attempt.outcome rs) db' k = k
Kept-prepend db xs _ db' k = tt

place_line-Kept :
    (sku qty order_id expires_at : ℕ) (db : Db)
    → IsConsistent db
    → Kept db (place_line sku qty order_id expires_at db)
place_line-Kept sku qty o e db v = elim (Bool-cases (qty == 0)) [
  | inl z ↦ subst (Kept db) (sym (place_line-invalid sku qty o e db z)) tt
  | inr q ↦ elim (Bool-cases (has_active o sku db.reservations)) [
    | inl a ↦ subst (Kept db) (sym (place_line-raced sku qty o e db q a)) tt
    | inr a ↦ elim (Bool-cases (in_stock db sku)) [
      | inr n ↦ subst (Kept db) (sym (place_line-unstocked sku qty o e db q a n)) tt
      | inl i ↦
          elim (Bool-cases ((try_reserve_decrement sku qty (with_row sku qty o e db)).0 == 0)) [
            | inl no_stock ↦
                subst (Kept db) (sym (place_line-refused sku qty o e db q a i no_stock)) tt
            | inr fits ↦
                let d = decrement-Moved sku qty (with_row sku qty o e db) (ne_of_== _ 0 fits) in
                subst (Kept db) (sym (place_line-placed sku qty o e db q a i fits)) (
                  announce (
                    placed-IsHeldMore db v sku qty o e
                      (try_reserve_decrement sku qty (with_row sku qty o e db)).1 q a i d.0 d.1))
          ]
    ]
  ]
]
  where
    announce :
        {a b : Db}
        → IsHeldMore a b
        → IsHeldMore a (record b { outbox = b.outbox ++ stock_reserved_outbox sku o qty ∷ [] })
    announce m = record {
      consistent = record {
        balanced = m.consistent.balanced;
        covered = m.consistent.covered;
        stocked = m.consistent.stocked;
        positive = m.consistent.positive;
        keyed = m.consistent.keyed;
        fresh = m.consistent.fresh;
        unique = m.consistent.unique;
      };
      on_hand = m.on_hand;
      sold = m.sold;
    }

-- A line that stops the loop leaves what it and the lines before it did.
stop-Kept :
    (db : Db) (next : Db → Attempt × Db)
    → ((db' : Db) → IsConsistent db' → Kept db' (next db'))
    → (r : Attempt × Db) → Kept db r
    → Kept db (after_line next r)
unfolding after_line
stop-Kept db next ih (Attempt.outcome rs, db') k =
    let r = next db' in Kept-prepend db rs r.0 r.1 (Kept-trans k r (ih db' k.consistent))
stop-Kept db next ih (Attempt.stock_rejection s q, db') k = tt
stop-Kept db next ih (Attempt.rejection s q, db') k = tt
stop-Kept db next ih (Attempt.conflict s h q, db') k = tt
stop-Kept db next ih (Attempt.raced s, db') k = tt
stop-Kept db next ih (Attempt.invalid s q, db') k = tt

place-Kept :
    (existing : ℕ → Option Reservation) (o e : ℕ) (lines : List Line) (db : Db)
    → IsConsistent db
    → Kept db (place existing o e lines db)
unfolding place
place-Kept existing o e [] db v = IsHeldMore-refl v
place-Kept existing o e ((sku, qty) ∷ lines) db v =
    known (existing sku) (place existing o e lines) (place-Kept existing o e lines)
  where
    known :
        (found : Option Reservation) (next : Db → Attempt × Db)
        → ((db' : Db) → IsConsistent db' → Kept db' (next db'))
        → Kept db (place_next found sku qty o e next db)
    known none next ih =
        stop-Kept db next ih (place_line sku qty o e db) (place_line-Kept sku qty o e db v)
    known (some current) next ih = elim (Bool-cases (current.qty == qty)) [
      | inl same ↦
          subst (Kept db) (sym (place_next-same current sku qty o e next db same))
            (Kept-prepend db (current ∷ []) (next db).0 (next db).1 (ih db v))
      | inr differs ↦
          subst (Kept db) (sym (place_next-conflict current sku qty o e next db differs)) tt
    ]

-- The savepoint of an attempt that raised is rolled back, so every attempt keeps the invariant.
leave-IsHeldMore :
    (db : Db) (r : Attempt × Db)
    → IsConsistent db
    → Kept db r
    → IsHeldMore db (leave_savepoint db r).1
leave-IsHeldMore db (Attempt.outcome rs, db') v k = k
leave-IsHeldMore db (Attempt.stock_rejection s q, db') v k = IsHeldMore-refl v
leave-IsHeldMore db (Attempt.rejection s q, db') v k = IsHeldMore-refl v
leave-IsHeldMore db (Attempt.conflict s h q, db') v k = IsHeldMore-refl v
leave-IsHeldMore db (Attempt.raced s, db') v k = IsHeldMore-refl v
leave-IsHeldMore db (Attempt.invalid s q, db') v k = IsHeldMore-refl v

conclude-IsHeldMore :
    (db : Db) (again : ℕ → Action Answer)
    → ((s : ℕ) (db' : Db) → IsConsistent db' → IsHeldMore db' (again s db').1)
    → (r : Attempt × Db) → IsHeldMore db r.1
    → IsHeldMore db (conclude again r).1
unfolding conclude
conclude-IsHeldMore db again h (Attempt.raced s, db') m = IsHeldMore-trans m (h s db' m.consistent)
conclude-IsHeldMore db again h (Attempt.outcome rs, db') m = m
conclude-IsHeldMore db again h (_, db') m = m

attempt-IsHeldMore :
    (existing : ℕ → Option Reservation) (o e : ℕ) (ordered : List Line) (db : Db)
    → IsConsistent db
    → IsHeldMore db (reserve_attempt existing o e ordered db).1
unfolding reserve_attempt
attempt-IsHeldMore existing o e ordered db v =
    leave-IsHeldMore db (place existing o e ordered db) v (place-Kept existing o e ordered db v)

reserve_ordered-IsHeldMore :
    (ordered : List Line) (o e : ℕ) (db : Db)
    → IsConsistent db
    → IsHeldMore db (reserve_ordered ordered o e db).1
unfolding reserve_ordered
reserve_ordered-IsHeldMore ordered o e db v =
    conclude-IsHeldMore db (second_attempt o e ordered)
      (λ s db' v'.
        conclude-IsHeldMore db' contended (λ _ _ v''. IsHeldMore-refl v'')
          (reserve_attempt (existing_of o db') o e ordered db')
          (attempt-IsHeldMore (existing_of o db') o e ordered db' v'))
      (reserve_attempt (λ _. none) o e ordered db) (attempt-IsHeldMore (λ _. none) o e ordered db v)

pub repository-IsHeldMore :
    (lines : List Line) (o e : ℕ) (db : Db)
    → IsConsistent db
    → IsHeldMore db (reserve_many lines o e db).1
unfolding reserve_many
repository-IsHeldMore [] o e db v = IsHeldMore-refl v
repository-IsHeldMore (l ∷ lines) o e db v =
    reserve_ordered-IsHeldMore (sort_by_sku (l ∷ lines)) o e db v
