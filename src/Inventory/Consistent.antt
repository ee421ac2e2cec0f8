-- ===== src/Inventory/Consistent.antt =====
-- The invariant of the stock and reservation tables, and its preservation by marking a claim once
-- the stock has moved.
use scalable_ecommerce_backe.Prelude.{
  ℕ, ◌+◌, ◌≤◌, ◌<◌, ◌≡◌, refl, subst, ◌==◌, Bool, true, false, ◌&&◌, List, [], ◌∷◌, map, any, All,
  arith, inl, inr, Bool-cases,
}
use scalable_ecommerce_backe.Inventory.Model.{
  Reservation, ReservationStatus, Db, is_held, is_committed, is_active,
}
use scalable_ecommerce_backe.Inventory.Statements.{has_id, mark}
use scalable_ecommerce_backe.Inventory.Totals.{total, every, IsKeyed, Has}
use scalable_ecommerce_backe.Inventory.Claims.{IsExact}
use scalable_ecommerce_backe.Inventory.Moves.{reserved_of, on_hand_of, in_stock}
use scalable_ecommerce_backe.Inventory.Loops.{IsPositive}

-- Some active row holds the line of this order and SKU.
unfoldable pub has_active : ℕ → ℕ → List Reservation → Bool
has_active order_id sku rs = any (λ r. is_active r && (r.order_id == order_id && r.sku == sku)) rs

-- `uq_reservations_active_order_sku`
abbrev pub IsUnique : List Reservation → Type 0
IsUnique [] = Unit
IsUnique (r ∷ rs) = (is_active r ≡ true → has_active r.order_id r.sku rs ≡ false) × IsUnique rs

-- The constraints of the two tables, and the counters: each SKU's `reserved` is what its held rows
-- add up to.
pub record IsConsistent (db : Db) : Type 0 where
  pub balanced : (s : ℕ) → reserved_of db s ≡ total s is_held db.reservations
  pub covered : (s : ℕ) → reserved_of db s ≤ on_hand_of db s
  pub stocked : (s : ℕ) → in_stock db s ≡ false → total s every db.reservations ≡ 0
  pub positive : All IsPositive db.reservations
  pub keyed : IsKeyed db.reservations
  pub fresh : All (λ r. r.id < db.next_id) db.reservations
  pub unique : IsUnique db.reservations

-- The units of a SKU that the shop still has or has sold to an order that keeps them.
abbrev pub units : Db → ℕ → ℕ
units db s = on_hand_of db s + total s is_committed db.reservations

Has-All :
    (P : Reservation → Type 0) (x : Reservation) (rs : List Reservation) → All P rs → Has x rs → P x
Has-All P x [] a h = absurd h
Has-All P x (r ∷ rs) a (inl e) = subst P e a.0
Has-All P x (r ∷ rs) a (inr h) = Has-All P x rs a.1 h

pub claim-IsPositive :
    (q : Reservation → Bool) (rs xs : List Reservation)
    → All IsPositive rs
    → All (λ x. Has x rs × (q x ≡ true)) xs
    → All IsPositive xs
claim-IsPositive q rs [] p c = tt
claim-IsPositive q rs (x ∷ xs) p c =
    (Has-All IsPositive x rs p c.0.0, claim-IsPositive q rs xs p c.1)

Has-le-total : (x : Reservation) (rs : List Reservation) → Has x rs → x.qty ≤ total x.sku every rs
Has-le-total x [] h = absurd h
Has-le-total x (r ∷ rs) (inl e) = subst (λ y. y.qty ≤ total y.sku every (r ∷ rs)) e (ground arith)
Has-le-total x (r ∷ rs) (inr h) = ground (arith, Has-le-total x rs h)

module _ (db : Db) (v : IsConsistent db) where
  row-in_stock : (x : Reservation) → Has x db.reservations → in_stock db x.sku ≡ true
  row-in_stock x h = elim (Bool-cases (in_stock db x.sku)) [
    | inl e ↦ e
    | inr e ↦ absurd (
        omega (
          arith,
          Has-le-total x db.reservations h,
          v.stocked x.sku e,
          Has-All IsPositive x db.reservations v.positive h,
        ))
  ]

  pub claim-in_stock :
      (q : Reservation → Bool) (xs : List Reservation)
      → All (λ x. Has x db.reservations × (q x ≡ true)) xs
      → All (λ x. in_stock db x.sku ≡ true) xs
  claim-in_stock q [] c = tt
  claim-in_stock q (x ∷ xs) c = (row-in_stock x c.0.0, claim-in_stock q xs c.1)

module _ (st : ReservationStatus) (claimed : List Reservation) where
  has_id-mark :
      (id : ℕ) (rs : List Reservation) → has_id id (map (mark st claimed) rs) ≡ has_id id rs
  unfolding has_id mark
  has_id-mark id [] = refl
  has_id-mark id (r ∷ rs) = ground (arith, has_id-mark id rs)

  pub mark-IsKeyed : (rs : List Reservation) → IsKeyed rs → IsKeyed (map (mark st claimed) rs)
  unfolding mark
  mark-IsKeyed [] k = tt
  mark-IsKeyed (r ∷ rs) k = (ground (arith, has_id-mark r.id rs, k.0), mark-IsKeyed rs k.1)

  pub mark-IsPositive :
      (rs : List Reservation) → All IsPositive rs → All IsPositive (map (mark st claimed) rs)
  unfolding mark
  mark-IsPositive [] k = tt
  mark-IsPositive (r ∷ rs) k = (ground (arith, k.0), mark-IsPositive rs k.1)

  pub mark-fresh :
      (n : ℕ) (rs : List Reservation)
      → All (λ r. r.id < n) rs
      → All (λ r. r.id < n) (map (mark st claimed) rs)
  unfolding mark
  mark-fresh n [] k = tt
  mark-fresh n (r ∷ rs) k = (ground (arith, k.0), mark-fresh n rs k.1)

  has_active-mark :
      (o s : ℕ) (rs : List Reservation)
      → IsExact is_active claimed rs
      → has_active o s rs ≡ false
      → has_active o s (map (mark st claimed) rs) ≡ false
  unfolding has_active mark
  has_active-mark o s [] e h = refl
  has_active-mark o s (r ∷ rs) e h = ground (arith, has_active-mark o s rs e.1, e.0)

  pub mark-IsUnique :
      (rs : List Reservation)
      → IsExact is_active claimed rs
      → IsUnique rs
      → IsUnique (map (mark st claimed) rs)
  unfolding mark
  mark-IsUnique [] e u = tt
  mark-IsUnique (r ∷ rs) e u = (
    (λ a. ground (arith, has_active-mark r.order_id r.sku rs e.1, e.0, u.0)),
    mark-IsUnique rs e.1 u.1,
  )

pub IsExact-active :
    (q : Reservation → Bool) (claimed rs : List Reservation)
    → ((x : Reservation) → q x ≡ true → is_active x ≡ true)
    → IsExact q claimed rs
    → IsExact is_active claimed rs
IsExact-active q claimed [] i e = tt
IsExact-active q claimed (r ∷ rs) i e = ((λ h. i r (e.0 h)), IsExact-active q claimed rs i e.1)
