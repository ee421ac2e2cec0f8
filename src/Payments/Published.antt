-- ===== src/Payments/Published.antt =====
-- What the outbox is told of a payment (`transition` of src/payments/adapters/db/repository.py).
use scalable_ecommerce_backe.Prelude.{
  ℕ, ◌≡◌, refl, ap, ◌∙◌, sym, subst, if◌then◌else◌, Bool, true, false, Option, none, some, [], ◌∷◌,
  ◌++◌, ok, err, Result, Exec, ◌>>◌,
}
use Prim.Native.String.{String}
use scalable_ecommerce_backe.Shared.UnitOfWork.{transaction}
use scalable_ecommerce_backe.Payments.Model.{
  PaymentStatus, Payment, EventType, Db, Error, hook_fault, is_status,
}
use scalable_ecommerce_backe.Payments.Repository.{
  get, update, returning, message, flip, write, set_outcome, transition_body, transition,
}
use scalable_ecommerce_backe.Payments.Rows.{get-update_same}

-- The row returned is the one of the id after the update.
abbrev pub IsSettled :
    EventType
    → ℕ
    → PaymentStatus
    → PaymentStatus
    → (Payment → Payment)
    → Db
    → Result Error (Option Payment) × Db
    → Type 0
IsSettled event id expect to_status set db (err e, db') = db' ≡ db
IsSettled event id expect to_status set db (ok none, db') = db' ≡ db
IsSettled event id expect to_status set db (ok (some p), db') =
    (db'.outbox ≡ db.outbox ++ message event p ∷ [])
    × ((p.status ≡ to_status)
        × ((db'.payments ≡ update id expect set db.payments) × (get id db'.payments ≡ some p)))

module _ (event : EventType) (id : ℕ) (expect to_status : PaymentStatus) (ref : Option ℕ)
    (reason : Option String) (db : Db) where
  abbrev pub set : Payment → Payment
  set = set_outcome to_status ref reason

  -- The row that the UPDATE returns is the one that is there afterwards.
  Read : Option Payment → Type 0
  Read none = Unit
  Read (some row) =
      (get id (update id expect set db.payments) ≡ some row) × (row.status ≡ to_status)

  returning-Read : Read (returning id expect set db.payments)
  unfolding Read returning
  returning-Read = found (get id db.payments) refl
    where
      matched :
          (b : Bool) (p : Payment)
          → get id db.payments ≡ some p
          → is_status p.status expect ≡ b
          → Read (if b then some (set p) else none)
      matched true p h e = (get-update_same id expect to_status ref reason db.payments p h e, refl)
      matched false p h e = tt

      found :
          (o : Option Payment)
          → get id db.payments ≡ o
          → Read (elim o as (λ _. Option Payment) [
            | none ↦ none
            | some p ↦ if is_status p.status expect then some (set p) else none
          ])
      found none h = tt
      found (some p) h = matched (is_status p.status expect) p h refl

  settled :
      (row : Payment) (db' : Db)
      → Read (some row)
      → db'.outbox ≡ db.outbox ++ message event row ∷ []
      → db'.payments ≡ update id expect set db.payments
      → IsSettled event id expect to_status set db (ok (get id db'.payments), db')
  unfolding Read
  settled row db' r out paid =
      let there = ap (get id) paid ∙ r.0 in
      subst (λ o. IsSettled event id expect to_status set db (ok o, db')) (sym there)
        (out, (r.1, (paid, there)))

  transition_body-Published :
      (hook : Option (ℕ → Bool)) (row : Option Payment)
      → Read row
      → IsSettled event id expect to_status set db
          (transaction (transition_body hook event id set expect row) db)
  unfolding Read transition_body
  transition_body-Published hook none r = refl
  transition_body-Published none (some row) r =
      settled row (flip event id set expect row db) r refl refl
  transition_body-Published (some hook) (some row) r = hooked (hook row.order_id)
    where
      flipped : Db
      flipped = record (flip event id set expect row db) { hooked = row.order_id ∷ db.hooked }

      run : Bool → Exec Error Db (Unit {0})
      run b d =
          ((if b then ok tt else err hook_fault), record d { hooked = row.order_id ∷ d.hooked })

      hooked :
          (b : Bool)
          → IsSettled event id expect to_status set db (
              transaction
                (write (flip event id set expect row)
                  >> run b
                  >> (λ db'. (ok (get id db'.payments), db')))
                db)
      hooked true = settled row flipped r refl refl
      hooked false = refl

  pub transition-IsSettled :
      (hook : Option (ℕ → Bool))
      → IsSettled event id expect to_status set db
          (transition hook event id expect to_status ref reason db)
  unfolding transition
  transition-IsSettled hook =
      transition_body-Published hook (returning id expect set db.payments) returning-Read
