-- ===== src/Payments/Flipped.antt =====
-- What a transition flips and publishes, and when (`transition` of
-- src/payments/adapters/db/repository.py).
use Prim.Native.String.{String}
use scalable_ecommerce_backe.Prelude.{
  ℕ, ◌≡◌, refl, ap, ◌∙◌, sym, subst, ◌==◌, if◌then◌else◌, Bool, true, false, not, Option, none,
  some, List, [], ◌∷◌, ◌++◌, ok, err, Result, Exec, ◌>>◌, arith,
}
use scalable_ecommerce_backe.Shared.UnitOfWork.{transaction}
use scalable_ecommerce_backe.Payments.Model.{
  PaymentStatus, Payment, EventType, Db, Error, hook_fault, is_status,
}
use scalable_ecommerce_backe.Payments.Repository.{
  get, update, returning, message, flip, write, set_outcome, transition_body, transition,
}

-- Whether the row is there and in the status.
abbrev pub is_in : PaymentStatus → Option Payment → Bool
is_in expect none = false
is_in expect (some p) = is_status p.status expect

abbrev pub hook_raises : Option (ℕ → Bool) → ℕ → Bool
hook_raises none order_id = false
hook_raises (some hook) order_id = not (hook order_id)

module _ (hook : Option (ℕ → Bool)) (event : EventType) (id : ℕ) (expect to_status : PaymentStatus)
    (ref : Option ℕ) (reason : Option String) (db : Db) where
  abbrev set : Payment → Payment
  set = set_outcome to_status ref reason

  -- The row was there in the expected status, and whether its order's hook raises.
  abbrev pub Was : Payment → Bool → Type 0
  Was old raises =
      (get id db.payments ≡ some old)
      × ((is_status old.status expect ≡ true) × (hook_raises hook old.order_id ≡ raises))

  -- A raise is the hook's, and writes nothing; no row is returned where none is in the expected
  -- status, and nothing is written; else the row has the outcome, no other row changes, and one
  -- event is added, which carries the row.
  abbrev pub IsPublished : Result Error (Option Payment) × Db → Type 0
  IsPublished (err e, db') = (db' ≡ db) × ((old : Payment) × Was old true)
  IsPublished (ok none, db') = (db' ≡ db) × (is_in expect (get id db.payments) ≡ false)
  IsPublished (ok (some p), db') =
      (old : Payment) × (Was old false
        × ((p ≡ set old)
            × (((j : ℕ) → get j db'.payments ≡ (if id == j then some p else get j db.payments))
                × (db'.outbox ≡ db.outbox ++ message event p ∷ []))))

  get-update :
      (ps : List Payment) (p : Payment) (j : ℕ)
      → get id ps ≡ some p
      → is_status p.status expect ≡ true
      → get j (update id expect set ps) ≡ (if id == j then some (set p) else get j ps)
  unfolding get update
  get-update [] p j h e = ground arith
  get-update (q ∷ qs) p j h e = let rest = get-update qs p j in ground arith

  module _ (old : Payment) (there : get id db.payments ≡ some old)
      (was : is_status old.status expect ≡ true) where
    landed :
        (db' : Db)
        → hook_raises hook old.order_id ≡ false
        → db'.payments ≡ update id expect set db.payments
        → db'.outbox ≡ db.outbox ++ message event (set old) ∷ []
        → IsPublished (ok (get id db'.payments), db')
    landed db' quiet paid out =
        subst (λ o. IsPublished (ok o, db')) (sym (read id ∙ self))
          (old, ((there, (was, quiet)), (refl, (read, out))))
      where
        read :
            (j : ℕ) → get j db'.payments ≡ (if id == j then some (set old) else get j db.payments)
        read j = ap (get j) paid ∙ get-update db.payments old j there was

        self : (if id == id then some (set old) else get id db.payments) ≡ some (set old)
        self = ground arith

  matched :
      (k : Option (ℕ → Bool)) (old : Payment)
      → hook ≡ k
      → get id db.payments ≡ some old
      → is_status old.status expect ≡ true
      → IsPublished (transaction (transition_body k event id set expect (some (set old))) db)
  unfolding transition_body
  matched none old e there was =
      landed old there was (flip event id set expect (set old) db)
        (ap (λ k. hook_raises k old.order_id) e) refl refl
  matched (some f) old e there was = asked (f old.order_id) refl
    where
      raises : (b : Bool) → f old.order_id ≡ b → hook_raises hook old.order_id ≡ not b
      raises b h = ap (λ k. hook_raises k old.order_id) e ∙ ap not h

      run : Bool → Exec Error Db (Unit {0})
      run b d =
          ((if b then ok tt else err hook_fault), record d { hooked = old.order_id ∷ d.hooked })

      flipped : Db
      flipped = record (flip event id set expect (set old) db) { hooked = old.order_id ∷ db.hooked }

      asked :
          (b : Bool)
          → f old.order_id ≡ b
          → IsPublished (
              transaction
                (write (flip event id set expect (set old))
                  >> run b
                  >> (λ db'. (ok (get id db'.payments), db')))
                db)
      asked true h = landed old there was flipped (raises true h) refl refl
      asked false h = (refl, (old, (there, (was, raises false h))))

  -- A transition that raises had its row in the expected status and its hook raised, and it wrote
  -- nothing; one that returns no row had no row of its id in the expected status, and wrote nothing;
  -- one that returns a row had it there in that status, set its outcome, changed no other row, and
  -- added exactly one event, which carries the row that is returned.
  pub transition-IsPublished : IsPublished (transition hook event id expect to_status ref reason db)
  unfolding transition returning transition_body
  transition-IsPublished = found (get id db.payments) refl
    where
      body : Option Payment → Result Error (Option Payment) × Db
      body row = transaction (transition_body hook event id set expect row) db

      in_status :
          (b : Bool) (p : Payment)
          → get id db.payments ≡ some p
          → is_status p.status expect ≡ b
          → IsPublished (body (if b then some (set p) else none))
      in_status true p there was = matched hook p refl there was
      in_status false p there was = (refl, ap (is_in expect) there ∙ was)

      found :
          (o : Option Payment)
          → get id db.payments ≡ o
          → IsPublished (
              body (elim o as (λ _. Option Payment) [
                | none ↦ none
                | some p ↦ if is_status p.status expect then some (set p) else none
              ]))
      found none h = (refl, ap (is_in expect) h)
      found (some p) h = in_status (is_status p.status expect) p h refl
