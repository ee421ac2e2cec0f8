-- ===== src/Inventory/Flips.antt =====
-- Marking the rows that a claim found, seen row by row, and what a later claim then finds.
use scalable_ecommerce_backe.Prelude.{
  ℕ, ◌+◌, ◌≡◌, refl, ap, ◌∙◌, if◌then◌else◌, Bool, false, List, [], ◌∷◌, map, filter, length, arith,
}
use scalable_ecommerce_backe.Inventory.Model.{
  Reservation, ReservationStatus, released, committed, is_held, is_committed, Db,
}
use scalable_ecommerce_backe.Inventory.Statements.{
  has_id, mark, of_order, claim_order, claim_order_committed,
}
use scalable_ecommerce_backe.Inventory.Totals.{IsKeyed}

abbrev pub flip_if : (Reservation → Bool) → ReservationStatus → Reservation → Reservation
flip_if p status r = if p r then record r { status = status } else r

has_id-filter_absent :
    (id : ℕ) (p : Reservation → Bool) (rs : List Reservation)
    → has_id id rs ≡ false
    → has_id id (filter p rs) ≡ false
unfolding has_id
has_id-filter_absent id p [] h = refl
has_id-filter_absent id p (r ∷ rs) h = ground (arith, has_id-filter_absent id p rs)

mark-skip :
    (status : ReservationStatus) (x : Reservation) (xs rs : List Reservation)
    → has_id x.id rs ≡ false
    → map (mark status (x ∷ xs)) rs ≡ map (mark status xs) rs
unfolding has_id mark
mark-skip status x xs [] h = refl
mark-skip status x xs (r ∷ rs) h = ground (arith, mark-skip status x xs rs)

-- Marking by the ids of the claimed rows changes the claimed rows and no other.
pub mark-filter :
    (status : ReservationStatus) (p : Reservation → Bool) (rs : List Reservation)
    → IsKeyed rs
    → map (mark status (filter p rs)) rs ≡ map (flip_if p status) rs
unfolding mark has_id
mark-filter status p [] h = refl
mark-filter status p (r ∷ rs) h = ground (
  arith,
  mark-filter status p rs h.1,
  mark-skip status r (filter p rs) rs h.0,
  has_id-filter_absent r.id p rs h.0,
)

module _ (o : ℕ) where
  pub held-after-release :
      (rs : List Reservation)
      → filter (of_order o is_held) (map (flip_if (of_order o is_held) released) rs) ≡ []
  held-after-release [] = refl
  held-after-release (r ∷ rs) = ground (arith, held-after-release rs)

  pub held-after-commit :
      (rs : List Reservation)
      → filter (of_order o is_held) (map (flip_if (of_order o is_held) committed) rs) ≡ []
  held-after-commit [] = refl
  held-after-commit (r ∷ rs) = ground (arith, held-after-commit rs)

  pub committed-after-restock :
      (rs : List Reservation)
      → filter (of_order o is_committed) (map (flip_if (of_order o is_committed) released) rs) ≡ []
  committed-after-restock [] = refl
  committed-after-restock (r ∷ rs) = ground (arith, committed-after-restock rs)

  pub committed-after-commit :
      (rs : List Reservation)
      → length (filter (of_order o is_committed) (map (flip_if (of_order o is_held) committed) rs))
        ≡ length (filter (of_order o is_committed) rs) + length (filter (of_order o is_held) rs)
  committed-after-commit [] = refl
  committed-after-commit (r ∷ rs) = ground (arith, committed-after-commit rs)

module _ (o : ℕ) (db db' : Db) (keyed : IsKeyed db.reservations) where
  -- Once an order's holds are released, a claim finds none.
  pub claim_order-released :
      db'.reservations ≡ map (mark released (claim_order o db)) db.reservations
      → claim_order o db' ≡ []
  unfolding claim_order
  claim_order-released rows =
      let p : Reservation → Bool = of_order o is_held in
      let e : db'.reservations ≡ map (flip_if p released) db.reservations =
        rows ∙ mark-filter released p db.reservations keyed in
      ap (filter p) e ∙ held-after-release o db.reservations

  pub claim_order-committed :
      db'.reservations ≡ map (mark committed (claim_order o db)) db.reservations
      → claim_order o db' ≡ []
  unfolding claim_order
  claim_order-committed rows =
      let p : Reservation → Bool = of_order o is_held in
      let e : db'.reservations ≡ map (flip_if p committed) db.reservations =
        rows ∙ mark-filter committed p db.reservations keyed in
      ap (filter p) e ∙ held-after-commit o db.reservations

  pub claim_order_committed-count :
      db'.reservations ≡ map (mark committed (claim_order o db)) db.reservations
      → length (claim_order_committed o db')
        ≡ length (claim_order_committed o db) + length (claim_order o db)
  unfolding claim_order claim_order_committed
  claim_order_committed-count rows =
      let p : Reservation → Bool = of_order o is_held in
      let e : db'.reservations ≡ map (flip_if p committed) db.reservations =
        rows ∙ mark-filter committed p db.reservations keyed in
      ap (λ xs. length (filter (of_order o is_committed) xs)) e
      ∙ committed-after-commit o db.reservations

  pub claim_order_committed-restocked :
      db'.reservations ≡ map (mark released (claim_order_committed o db)) db.reservations
      → claim_order_committed o db' ≡ []
  unfolding claim_order_committed
  claim_order_committed-restocked rows =
      let p : Reservation → Bool = of_order o is_committed in
      let e : db'.reservations ≡ map (flip_if p released) db.reservations =
        rows ∙ mark-filter released p db.reservations keyed in
      ap (filter p) e ∙ committed-after-restock o db.reservations
