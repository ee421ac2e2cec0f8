-- ===== src/Payments/Captured.antt =====
-- Which writes of src/payments/adapters/db/repository.py make an order have a succeeded payment.
use Prim.Native.String.{String}
use scalable_ecommerce_backe.Prelude.{
  ℕ, ◌≡◌, refl, ◌==◌, Bool, true, Option, none, some, List, [], ◌∷◌, ok, err, Result, arith, ap,
  ◌∙◌, sym, subst, ◌⊎◌, inl, inr, Bool-cases,
}
use scalable_ecommerce_backe.Payments.Model.{
  PaymentStatus, Payment, EventType, Db, Error, is_status,
}
use scalable_ecommerce_backe.Payments.Repository.{
  get, get_by_key, update, set_outcome, transition, insert_pending, create_pending,
  has_succeeded_for_order,
}
use scalable_ecommerce_backe.Payments.Rows.{get-update_same}
use scalable_ecommerce_backe.Payments.Published.{IsSettled, transition-IsSettled}

abbrev pub captured : ℕ → Db → Bool
captured order_id db = has_succeeded_for_order order_id db.payments

-- A row that is made is pending.
insert-captured :
    (now order_id key amount j : ℕ) (there : Option Payment) (db : Db)
    → captured j (insert_pending now order_id key amount there db).1 ≡ captured j db
unfolding insert_pending has_succeeded_for_order
insert-captured now order_id key amount j (some p) db = refl
insert-captured now order_id key amount j none db = ground arith

pub create_pending-captured :
    (now order_id key amount j : ℕ) (db : Db)
    → captured j (create_pending now order_id key amount db).1 ≡ captured j db
unfolding create_pending
create_pending-captured now order_id key amount j db =
    insert-captured now order_id key amount j (get_by_key key db.payments) db

some_eq : {p q : Payment} → some p ≡ some q → p ≡ q
some_eq {p} {q} h = ap (λ o. elim o as (λ _. Payment) [ none ↦ p | some r ↦ r ]) h

-- A row that an update flips: it is the one of the id and had the expected status.
abbrev Flips : ℕ → ℕ → PaymentStatus → List Payment → Type 0
Flips id j expect ps =
    (p : Payment) × ((get id ps ≡ some p)
      × ((is_status p.status expect ≡ true) × ((p.order_id == j) ≡ true)))

update-captured :
    (id j : ℕ) (expect to_status : PaymentStatus) (ref : Option ℕ) (reason : Option String)
    (ps : List Payment)
    → has_succeeded_for_order j (update id expect (set_outcome to_status ref reason) ps) ≡ true
    → (has_succeeded_for_order j ps ≡ true)
      ⊎ ((is_status to_status PaymentStatus.succeeded ≡ true) × Flips id j expect ps)
unfolding get update has_succeeded_for_order
update-captured id j expect to_status ref reason [] h = inl h
update-captured id j expect to_status ref reason (p ∷ ps) h =
    let rest = update-captured id j expect to_status ref reason ps in
    elim (Bool-cases (has_succeeded_for_order j (p ∷ ps))) [
      | inl before ↦ inl before
      | inr new ↦ elim (Bool-cases (p.id == id)) [
        | inl same ↦ inr (ground arith, (p, (ground arith, (ground arith, ground arith))))
        | inr other ↦ elim (rest (ground arith)) [
          | inl old ↦ inl (ground arith)
          | inr (to, (q, (there, (was, mine)))) ↦ inr (to, (q, (ground arith, (was, mine))))
        ]
      ]
    ]

-- Where a transition leaves an order with a succeeded payment that it had not before, the
-- transition was to `succeeded` and returns a row of that order.
pub transition-captured :
    (hook : Option (ℕ → Bool)) (event : EventType) (id j : ℕ) (expect to_status : PaymentStatus)
    (ref : Option ℕ) (reason : Option String) (db : Db)
    → let done = transition hook event id expect to_status ref reason db in
      captured j done.1 ≡ true
      → (captured j db ≡ true)
        ⊎ ((is_status to_status PaymentStatus.succeeded ≡ true)
            × ((row : Payment) × ((done.0 ≡ ok (some row)) × ((row.order_id == j) ≡ true))))
transition-captured hook event id j expect to_status ref reason db h =
    settled (transition hook event id expect to_status ref reason db)
      (transition-IsSettled event id expect to_status ref reason db hook) h
  where
    set : Payment → Payment
    set = set_outcome to_status ref reason

    -- The flipped row's order is that of the row before.
    settled :
        (r : Result Error (Option Payment) × Db)
        → IsSettled event id expect to_status set db r
        → captured j r.1 ≡ true
        → (captured j db ≡ true)
          ⊎ ((is_status to_status PaymentStatus.succeeded ≡ true)
              × ((row : Payment) × ((r.0 ≡ ok (some row)) × ((row.order_id == j) ≡ true))))
    settled (err e, db') w k = inl (subst (λ d. captured j d ≡ true) w k)
    settled (ok none, db') w k = inl (subst (λ d. captured j d ≡ true) w k)
    settled (ok (some row), db') w k =
        elim (update-captured id j expect to_status ref reason db.payments
          (subst (λ ps. has_succeeded_for_order j ps ≡ true) w.1.1.0 k)) [
            | inl old ↦ inl old
            | inr (to, (p, (there, (was, mine)))) ↦
                let after =
                  get-update_same id expect to_status ref reason db.payments p there was in
                let same = some_eq (sym w.1.1.1 ∙ ap (get id) w.1.1.0 ∙ after) in
                inr (to, (row, (refl, ap (λ q. q.order_id == j) same ∙ mine)))
          ]
