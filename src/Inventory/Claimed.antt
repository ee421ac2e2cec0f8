-- ===== src/Inventory/Claimed.antt =====
-- The claims of the repository return rows of the table that pass their test, each once.
use scalable_ecommerce_backe.Prelude.{
  ℕ, zero, suc, ◌≡◌, refl, ◌==◌, leb, Bool, true, false, not, ◌&&◌, List, [], ◌∷◌, filter, take,
  arith, All, inl, inr, Bool-cases, ◌∙◌,
}
use scalable_ecommerce_backe.Inventory.Model.{Reservation, is_held, is_committed, Db}
use scalable_ecommerce_backe.Inventory.Statements.{
  has_id, of_order, claim_order, claim_order_committed, claim_one, claim_expired, insert_by_expiry,
  order_by_expiry,
}
use scalable_ecommerce_backe.Inventory.Totals.{IsKeyed, Has, IsClaim}

All-weaken :
    (q : Reservation → Bool) (r : Reservation) (rs xs : List Reservation)
    → All (λ x. Has x rs × (q x ≡ true)) xs
    → All (λ x. Has x (r ∷ rs) × (q x ≡ true)) xs
All-weaken q r rs [] h = tt
All-weaken q r rs (x ∷ xs) h = ((inr h.0.0, h.0.1), All-weaken q r rs xs h.1)

pub All-imply :
    (p q : Reservation → Bool) (rs xs : List Reservation)
    → ((x : Reservation) → p x ≡ true → q x ≡ true)
    → All (λ x. Has x rs × (p x ≡ true)) xs
    → All (λ x. Has x rs × (q x ≡ true)) xs
All-imply p q rs [] i h = tt
All-imply p q rs (x ∷ xs) i h = ((h.0.0, i x h.0.1), All-imply p q rs xs i h.1)

filter-rows :
    (p : Reservation → Bool) (rs : List Reservation)
    → All (λ x. Has x rs × (p x ≡ true)) (filter p rs)
filter-rows p [] = tt
filter-rows p (r ∷ rs) = elim (Bool-cases (p r)) [
  | inl e ↦ rw e ((inl refl, e), All-weaken p r rs (filter p rs) (filter-rows p rs))
  | inr e ↦ rw e (All-weaken p r rs (filter p rs) (filter-rows p rs))
]

has_id-filter :
    (id : ℕ) (p : Reservation → Bool) (rs : List Reservation)
    → has_id id rs ≡ false
    → has_id id (filter p rs) ≡ false
unfolding has_id
has_id-filter id p [] h = refl
has_id-filter id p (r ∷ rs) h = ground (arith, has_id-filter id p rs)

filter-IsKeyed :
    (p : Reservation → Bool) (rs : List Reservation) → IsKeyed rs → IsKeyed (filter p rs)
filter-IsKeyed p [] k = tt
filter-IsKeyed p (r ∷ rs) k = elim (Bool-cases (p r)) [
  | inl e ↦ rw e (has_id-filter r.id p rs k.0, filter-IsKeyed p rs k.1)
  | inr e ↦ rw e (filter-IsKeyed p rs k.1)
]

pub filter-IsClaim :
    (p : Reservation → Bool) (rs : List Reservation) → IsKeyed rs → IsClaim p rs (filter p rs)
filter-IsClaim p rs k = record { keyed = filter-IsKeyed p rs k; rows = filter-rows p rs }

has_id-insert :
    (id : ℕ) (x : Reservation) (xs : List Reservation)
    → has_id id (insert_by_expiry x xs) ≡ has_id id (x ∷ xs)
unfolding insert_by_expiry has_id
has_id-insert id x [] = refl
has_id-insert id x (y ∷ ys) = ground (arith, has_id-insert id x ys)

insert-IsKeyed :
    (x : Reservation) (xs : List Reservation)
    → has_id x.id xs ≡ false
    → IsKeyed xs
    → IsKeyed (insert_by_expiry x xs)
unfolding insert_by_expiry
insert-IsKeyed x [] n k = (n, k)
insert-IsKeyed x (y ∷ ys) n k = elim (Bool-cases (leb x.expires_at y.expires_at)) [
  | inl e ↦ rw e (n, k)
  | inr e ↦ rw e (
    unfold has_id in ground (arith, has_id-insert y.id x ys, k.0, n),
    insert-IsKeyed x ys (unfold has_id in ground arith) k.1,
  )
]

module _ (P : Reservation → Type 0) where
  insert-All :
      (x : Reservation) (xs : List Reservation) → P x → All P xs → All P (insert_by_expiry x xs)
  unfolding insert_by_expiry
  insert-All x [] p h = (p, tt)
  insert-All x (y ∷ ys) p h = elim (Bool-cases (leb x.expires_at y.expires_at)) [
    | inl e ↦ rw e (p, h)
    | inr e ↦ rw e (h.0, insert-All x ys p h.1)
  ]

  order-All : (xs : List Reservation) → All P xs → All P (order_by_expiry xs)
  unfolding order_by_expiry
  order-All [] h = tt
  order-All (x ∷ xs) h = insert-All x (order_by_expiry xs) h.0 (order-All xs h.1)

  take-All : (n : ℕ) (xs : List Reservation) → All P xs → All P (take n xs)
  take-All zero xs h = tt
  take-All (suc n) [] h = tt
  take-All (suc n) (x ∷ xs) h = (h.0, take-All n xs h.1)

has_id-cons :
    (id : ℕ) (x : Reservation) (xs ys : List Reservation)
    → has_id id xs ≡ has_id id ys
    → has_id id (x ∷ xs) ≡ has_id id (x ∷ ys)
unfolding has_id
has_id-cons id x xs ys h = ground arith

has_id-order : (id : ℕ) (xs : List Reservation) → has_id id (order_by_expiry xs) ≡ has_id id xs
unfolding order_by_expiry
has_id-order id [] = refl
has_id-order id (x ∷ xs) =
    has_id-insert id x (order_by_expiry xs)
    ∙ has_id-cons id x (order_by_expiry xs) xs (has_id-order id xs)

order-IsKeyed : (xs : List Reservation) → IsKeyed xs → IsKeyed (order_by_expiry xs)
unfolding order_by_expiry
order-IsKeyed [] k = tt
order-IsKeyed (x ∷ xs) k =
    insert-IsKeyed x (order_by_expiry xs) (has_id-order x.id xs ∙ k.0) (order-IsKeyed xs k.1)

has_id-take :
    (id n : ℕ) (xs : List Reservation) → has_id id xs ≡ false → has_id id (take n xs) ≡ false
unfolding has_id
has_id-take id zero xs h = refl
has_id-take id (suc n) [] h = refl
has_id-take id (suc n) (x ∷ xs) h = ground (arith, has_id-take id n xs)

take-IsKeyed : (n : ℕ) (xs : List Reservation) → IsKeyed xs → IsKeyed (take n xs)
take-IsKeyed zero xs k = tt
take-IsKeyed (suc n) [] k = tt
take-IsKeyed (suc n) (x ∷ xs) k = (has_id-take x.id n xs k.0, take-IsKeyed n xs k.1)

weaken :
    (p q : Reservation → Bool) {rs claimed : List Reservation}
    → ((x : Reservation) → p x ≡ true → q x ≡ true)
    → IsClaim p rs claimed
    → IsClaim q rs claimed
weaken p q {rs} {claimed} i c = record { keyed = c.keyed; rows = All-imply p q rs claimed i c.rows }

module _ (db : Db) (k : IsKeyed db.reservations) where
  pub claim_order-IsClaim : (o : ℕ) → IsClaim is_held db.reservations (claim_order o db)
  unfolding claim_order
  claim_order-IsClaim o =
      weaken (of_order o is_held) is_held (λ x h. ground arith)
        (filter-IsClaim (of_order o is_held) db.reservations k)

  pub claim_order_committed-IsClaim :
      (o : ℕ) → IsClaim is_committed db.reservations (claim_order_committed o db)
  unfolding claim_order_committed
  claim_order_committed-IsClaim o =
      weaken (of_order o is_committed) is_committed (λ x h. ground arith)
        (filter-IsClaim (of_order o is_committed) db.reservations k)

  pub claim_one-IsClaim : (id : ℕ) → IsClaim is_held db.reservations (claim_one id db)
  unfolding claim_one
  claim_one-IsClaim id =
      let p : Reservation → Bool = λ r. r.id == id && is_held r in
      weaken p is_held (λ x h. ground arith) (filter-IsClaim p db.reservations k)

  pub claim_expired-IsClaim :
      (locked : Reservation → Bool) (now batch : ℕ)
      → IsClaim is_held db.reservations (claim_expired locked now batch db)
  unfolding claim_expired
  claim_expired-IsClaim locked now batch =
      let p : Reservation → Bool = λ r. is_held r && leb r.expires_at now && not (locked r) in
      let c = filter-IsClaim p db.reservations k in
      let sorted = order_by_expiry (filter p db.reservations) in
      weaken p is_held (λ x h. ground arith)
        (record {
          keyed = take-IsKeyed batch sorted (order-IsKeyed (filter p db.reservations) c.keyed);
          rows =
              take-All (λ x. Has x db.reservations × (p x ≡ true)) batch sorted
                (order-All (λ x. Has x db.reservations × (p x ≡ true)) (filter p db.reservations)
                  c.rows);
        })
