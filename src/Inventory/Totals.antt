-- ===== src/Inventory/Totals.antt =====
-- Sums of quantities over reservation rows, and what marking rows does to them.
use scalable_ecommerce_backe.Prelude.{
  ℕ, ◌+◌, ◌≡◌, refl, ◌==◌, if◌then◌else◌, Bool, true, false, ◌&&◌, List, [], ◌∷◌, ◌++◌, map, arith,
  All, ◌∙◌, ◌⊎◌, inl, inr, subst,
}
use scalable_ecommerce_backe.Inventory.Model.{Reservation, released, committed, is_held}
use scalable_ecommerce_backe.Inventory.Statements.{has_id, mark}

-- The units of `sku` in the rows that pass the test.
abbrev pub total : ℕ → (Reservation → Bool) → List Reservation → ℕ
total sku p [] = 0
total sku p (r ∷ rs) = (if r.sku == sku && p r then r.qty else 0) + total sku p rs

abbrev pub every : Reservation → Bool
every r = true

-- No id stands in two rows.
abbrev pub IsKeyed : List Reservation → Type 0
IsKeyed [] = Unit
IsKeyed (r ∷ rs) = (has_id r.id rs ≡ false) × IsKeyed rs

pub total-append :
    (sku : ℕ) (p : Reservation → Bool) (xs ys : List Reservation)
    → total sku p (xs ++ ys) ≡ total sku p xs + total sku p ys
total-append sku p [] ys = omega arith
total-append sku p (x ∷ xs) ys = omega (arith, total-append sku p xs ys)

-- The row stands in the table.
abbrev pub Has : Reservation → List Reservation → Type 0
Has x [] = ⊥
Has x (r ∷ rs) = (r ≡ x) ⊎ Has x rs

-- Rows that a statement locked and returned: rows of the table that pass the test, each once.
pub record IsClaim (q : Reservation → Bool) (rs claimed : List Reservation) : Type 0 where
  pub keyed : IsKeyed claimed
  pub rows : All (λ x. Has x rs × (q x ≡ true)) claimed

abbrev pub claimed_by : (Reservation → Bool) → List Reservation → Reservation → Bool
claimed_by q claimed r = q r && has_id r.id claimed

total-none :
    (s : ℕ) (q : Reservation → Bool) (rs : List Reservation) → total s (claimed_by q []) rs ≡ 0
unfolding has_id
total-none s q [] = refl
total-none s q (r ∷ rs) = ground (arith, total-none s q rs)

-- A row whose id is not in the table adds nothing to a claim.
total-absent :
    (s : ℕ) (q : Reservation → Bool) (x : Reservation) (xs rs : List Reservation)
    → has_id x.id rs ≡ false
    → total s (claimed_by q (x ∷ xs)) rs ≡ total s (claimed_by q xs) rs
unfolding has_id
total-absent s q x xs [] h = refl
total-absent s q x xs (r ∷ rs) h = ground (arith, total-absent s q x xs rs)

pub Has-has_id : (x : Reservation) (rs : List Reservation) → Has x rs → has_id x.id rs ≡ true
unfolding has_id
Has-has_id x [] h = absurd h
Has-has_id x (r ∷ rs) (inl e) = rw e (ground arith)
Has-has_id x (r ∷ rs) (inr h) = ground (arith, Has-has_id x rs h)

total-extract_here :
    (s : ℕ) (q : Reservation → Bool) (r : Reservation) (xs rs : List Reservation)
    → has_id r.id rs ≡ false
    → q r ≡ true
    → has_id r.id xs ≡ false
    → total s (claimed_by q (r ∷ xs)) (r ∷ rs)
      ≡ (if r.sku == s then r.qty else 0) + total s (claimed_by q xs) (r ∷ rs)
unfolding has_id
total-extract_here s q r xs rs a qr n = ground (arith, total-absent s q r xs rs)

total-extract :
    (s : ℕ) (q : Reservation → Bool) (x : Reservation) (xs rs : List Reservation)
    → IsKeyed rs
    → Has x rs
    → q x ≡ true
    → has_id x.id xs ≡ false
    → total s (claimed_by q (x ∷ xs)) rs
      ≡ (if x.sku == s then x.qty else 0) + total s (claimed_by q xs) rs
unfolding has_id
total-extract s q x xs [] k h qx n = absurd h
total-extract s q x xs (r ∷ rs) k (inl e) qx n =
    subst
      (λ y.
        q y ≡ true
        → has_id y.id xs ≡ false
        → total s (claimed_by q (y ∷ xs)) (r ∷ rs)
          ≡ (if y.sku == s then y.qty else 0) + total s (claimed_by q xs) (r ∷ rs))
      e (total-extract_here s q r xs rs k.0) qx n
total-extract s q x xs (r ∷ rs) k (inr h) qx n =
    ground (arith, total-extract s q x xs rs k.1 h qx n, Has-has_id x rs h)

-- The claimed rows of a table hold what the claim's rows add up to.
pub total-claim :
    (s : ℕ) (q : Reservation → Bool) (rs claimed : List Reservation)
    → IsKeyed rs
    → IsClaim q rs claimed
    → total s (claimed_by q claimed) rs ≡ total s every claimed
total-claim s q rs [] k c = total-none s q rs
total-claim s q rs (x ∷ xs) k c =
    total-extract s q x xs rs k c.rows.0.0 c.rows.0.1 c.keyed.0
    ∙ ground (arith, total-claim s q rs xs k (record { keyed = c.keyed.1; rows = c.rows.1 }))

-- Marking held rows released takes their units out of the held total …
pub total-release_held :
    (s : ℕ) (claimed rs : List Reservation)
    → total s is_held (map (mark released claimed) rs) + total s (claimed_by is_held claimed) rs
      ≡ total s is_held rs
unfolding mark
total-release_held s claimed [] = omega arith
total-release_held s claimed (r ∷ rs) = ground (arith, total-release_held s claimed rs)

-- … and marking them committed moves these units to the committed total.
pub total-commit_held :
    (s : ℕ) (claimed rs : List Reservation)
    → total s is_held (map (mark committed claimed) rs) + total s (claimed_by is_held claimed) rs
      ≡ total s is_held rs
unfolding mark
total-commit_held s claimed [] = omega arith
total-commit_held s claimed (r ∷ rs) = ground (arith, total-commit_held s claimed rs)
