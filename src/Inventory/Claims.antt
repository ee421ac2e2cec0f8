-- ===== src/Inventory/Claims.antt =====
-- What the claims of the repository return, and what marking a claim does to the table.
use scalable_ecommerce_backe.Prelude.{
  ℕ, ◌+◌, ◌≡◌, refl, ◌==◌, Bool, true, false, List, [], ◌∷◌, map, arith, All, inl, inr, subst, sym,
  eq_of_==,
}
use scalable_ecommerce_backe.Inventory.Model.{
  Reservation, ReservationStatus, released, committed, is_held, is_committed,
}
use scalable_ecommerce_backe.Inventory.Statements.{has_id, mark}
use scalable_ecommerce_backe.Inventory.Totals.{
  total, every, IsKeyed, Has, IsClaim, claimed_by, Has-has_id,
}

-- Every row with a claimed id passes the claim's test.
abbrev pub IsExact : (Reservation → Bool) → List Reservation → List Reservation → Type 0
IsExact q claimed rs = All (λ r. has_id r.id claimed ≡ true → q r ≡ true) rs

exact_absent :
    (q : Reservation → Bool) (x : Reservation) (rs : List Reservation)
    → has_id x.id rs ≡ false
    → All (λ r. (x.id == r.id) ≡ true → q r ≡ true) rs
unfolding has_id
exact_absent q x [] h = tt
exact_absent q x (r ∷ rs) h = ((λ e. ground arith), exact_absent q x rs (ground arith))

exact_one :
    (q : Reservation → Bool) (x : Reservation) (rs : List Reservation)
    → IsKeyed rs
    → Has x rs
    → q x ≡ true
    → All (λ r. (x.id == r.id) ≡ true → q r ≡ true) rs
exact_one q x [] k h qx = tt
exact_one q x (r ∷ rs) k (inl e) qx = (
  (λ _. subst (λ y. q y ≡ true) (sym e) qx),
  subst (λ y. All (λ r'. (y.id == r'.id) ≡ true → q r' ≡ true) rs) e (exact_absent q r rs k.0),
)
exact_one q x (r ∷ rs) k (inr h) qx =
    ((λ e. ground (arith, Has-has_id x rs h, eq_of_== x.id r.id e, k.0)), exact_one q x rs k.1 h qx)

IsExact-cons :
    (q : Reservation → Bool) (x : Reservation) (xs rs : List Reservation)
    → All (λ r. (x.id == r.id) ≡ true → q r ≡ true) rs
    → IsExact q xs rs
    → IsExact q (x ∷ xs) rs
unfolding has_id
IsExact-cons q x xs [] a b = tt
IsExact-cons q x xs (r ∷ rs) a b = ((λ e. ground (arith, a.0, b.0)), IsExact-cons q x xs rs a.1 b.1)

IsExact-nil : (q : Reservation → Bool) (rs : List Reservation) → IsExact q [] rs
unfolding has_id
IsExact-nil q [] = tt
IsExact-nil q (r ∷ rs) = ((λ e. cc), IsExact-nil q rs)

pub claim-IsExact :
    (q : Reservation → Bool) (claimed rs : List Reservation)
    → IsKeyed rs
    → IsClaim q rs claimed
    → IsExact q claimed rs
claim-IsExact q [] rs k c = IsExact-nil q rs
claim-IsExact q (x ∷ xs) rs k c =
    IsExact-cons q x xs rs (exact_one q x rs k c.rows.0.0 c.rows.0.1)
      (claim-IsExact q xs rs k (record { keyed = c.keyed.1; rows = c.rows.1 }))

module _ (s : ℕ) (claimed : List Reservation) where
  pub total-release_committed :
      (rs : List Reservation)
      → IsExact is_held claimed rs
      → total s is_committed (map (mark released claimed) rs) ≡ total s is_committed rs
  unfolding mark
  total-release_committed [] e = refl
  total-release_committed (r ∷ rs) e = ground (arith, total-release_committed rs e.1, e.0)

  pub total-commit_committed :
      (rs : List Reservation)
      → IsExact is_held claimed rs
      → total s is_committed (map (mark committed claimed) rs)
        ≡ total s is_committed rs + total s (claimed_by is_held claimed) rs
  unfolding mark
  total-commit_committed [] e = omega arith
  total-commit_committed (r ∷ rs) e = ground (arith, total-commit_committed rs e.1, e.0)

  pub total-restock_committed :
      (rs : List Reservation)
      → total s is_committed (map (mark released claimed) rs)
          + total s (claimed_by is_committed claimed) rs
        ≡ total s is_committed rs
  unfolding mark
  total-restock_committed [] = omega arith
  total-restock_committed (r ∷ rs) = ground (arith, total-restock_committed rs)

  pub total-restock_held :
      (rs : List Reservation)
      → IsExact is_committed claimed rs
      → total s is_held (map (mark released claimed) rs) ≡ total s is_held rs
  unfolding mark
  total-restock_held [] e = refl
  total-restock_held (r ∷ rs) e = ground (arith, total-restock_held rs e.1, e.0)

  pub total-mark-every :
      (st : ReservationStatus) (rs : List Reservation)
      → total s every (map (mark st claimed) rs) ≡ total s every rs
  unfolding mark
  total-mark-every st [] = refl
  total-mark-every st (r ∷ rs) = ground (arith, total-mark-every st rs)
