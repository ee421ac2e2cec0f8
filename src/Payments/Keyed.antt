-- ===== src/Payments/Keyed.antt =====
-- The row of a key, after a charge under it (`charge` of src/payments/application/service.py).
use Prim.Native.String.{String}
use scalable_ecommerce_backe.Prelude.{
  ℕ, ◌+◌, ◌≡◌, refl, ap, ◌∙◌, sym, subst, ◌==◌, if◌then◌else◌, Bool, true, false, not, ◌||◌, Option,
  none, some, List, ◌∷◌, ok, err, Result, raise, ◌>>=◌, arith, eq_of_==,
}
use scalable_ecommerce_backe.Shared.Outcomes.{
  err_ne_ok, ok_inj, Leaves, Leaves-raise, Leaves-bind, Leaves-pure,
}
use scalable_ecommerce_backe.Payments.Model.{
  PaymentStatus, Payment, EventType, payment_succeeded, payment_failed, Outcome, GatewayCharge,
  Gateway, Db, Error, idempotency_conflict, invalid_payment_method, Action, is_status,
}
use scalable_ecommerce_backe.Payments.Repository.{
  get, get_by_key, update, set_outcome, transition, create_pending, insert_pending,
}
use scalable_ecommerce_backe.Payments.Service.{
  looks_like_pan, charge, decided, ask, charged, apply_charge, apply_outcome, or_unknown, read_back,
  row_or_gone,
}
use scalable_ecommerce_backe.Payments.Published.{IsSettled, transition-IsSettled}
use scalable_ecommerce_backe.Payments.Flipped.{IsPublished, transition-IsPublished}
use scalable_ecommerce_backe.Payments.Ordered.{
  Distinct, IsOrdered, get_by_key-get, get_by_key-update, some_inj,
}

module _ (order_id key amount : ℕ) where
  -- The row of the key, which is of this order and amount.
  abbrev pub Holds : Payment → Db → Type 0
  Holds row db =
      (get_by_key key db.payments ≡ some row) × ((row.order_id ≡ order_id) × (row.amount ≡ amount))

  module _ (row : Payment) (db : Db) (there : Holds row db) (ordered : Distinct db.payments) where
    -- What a flip leaves: nothing new, or the row of the key that it returns.
    abbrev Flipped : Option Payment → Db → Type 0
    Flipped none db' = db' ≡ db
    Flipped (some p) db' = Holds p db'

    here : get row.id db.payments ≡ some row
    here = get_by_key-get key db.payments row ordered there.0

    transition-Flipped :
        (hook : Option (ℕ → Bool)) (event : EventType) (expect to_status : PaymentStatus)
        (ref : Option ℕ) (reason : Option String)
        → Leaves Flipped (transition hook event row.id expect to_status ref reason) db
    transition-Flipped hook event expect to_status ref reason =
        after (transition hook event row.id expect to_status ref reason db)
          (transition-IsSettled event row.id expect to_status ref reason db hook)
          (transition-IsPublished hook event row.id expect to_status ref reason db)
      where
        set : Payment → Payment
        set = set_outcome to_status ref reason

        keyed :
            (p : Payment) (ps : List Payment)
            → ps ≡ update row.id expect set db.payments
            → get row.id ps ≡ some p
            → get_by_key key ps ≡ some p
        keyed p ps e h =
            ap (get_by_key key) e
            ∙ get_by_key-update key expect to_status ref reason db.payments row ordered there.0
            ∙ ap (get row.id) (sym e)
            ∙ h

        after :
            (r : Result Error (Option Payment) × Db)
            → IsSettled event row.id expect to_status set db r
            → IsPublished hook event row.id expect to_status ref reason db r
            → (x : Option Payment) → r.0 ≡ ok x
            → Flipped x r.1
        after (err e, db') s p x h = absurd (err_ne_ok e x h)
        after (ok none, db') s p x h = subst (λ y. Flipped y db') (ok_inj none x h) s
        after (ok (some q), db') s p x h =
            let (old, (was, (same, rest))) = p in
            let old_row = some_inj (sym was.0 ∙ here) in
            subst (λ y. Flipped y db') (ok_inj (some q) x h)
              (
                keyed q db'.payments s.1.1.0 s.1.1.1,
                (
                  ap (λ z. z.order_id) (same ∙ ap set old_row) ∙ there.1.0,
                  ap (λ z. z.amount) (same ∙ ap set old_row) ∙ there.1.1,
                ),
              )

    apply_outcome-Flipped :
        (hook : Option (ℕ → Bool)) (outcome : Outcome) (ref : Option ℕ) (reason : Option String)
        → Leaves Flipped (apply_outcome hook row.id outcome ref reason) db
    unfolding apply_outcome
    apply_outcome-Flipped hook Outcome.pending ref reason = Leaves-pure Flipped none db refl
    apply_outcome-Flipped hook Outcome.succeeded ref reason =
        transition-Flipped hook payment_succeeded PaymentStatus.pending PaymentStatus.succeeded ref
          none
    apply_outcome-Flipped hook Outcome.failed ref reason =
        transition-Flipped none payment_failed PaymentStatus.pending PaymentStatus.failed ref
          (or_unknown reason)

    read_back-Holds :
        (x : Option Payment) (db' : Db) → Flipped x db' → Leaves Holds (read_back row.id x) db'
    unfolding read_back row_or_gone
    read_back-Holds (some p) db' f = Leaves-pure Holds p db' f
    read_back-Holds none db' f =
        subst (λ d. Leaves Holds (read_back row.id none) d) (sym f)
          (found (get row.id db.payments) here)
      where
        found : (o : Option Payment) → o ≡ some row → Leaves Holds (row_or_gone o) db
        found none e = ground arith
        found (some q) e = Leaves-pure Holds q db (subst (λ z. Holds z db) (sym (some_inj e)) there)

    charged-Holds :
        (hook : Option (ℕ → Bool)) (answer : Result Error GatewayCharge)
        → Leaves Holds (charged hook row.id answer) db
    unfolding charged apply_charge
    charged-Holds hook (err e) = Leaves-raise Holds e db
    charged-Holds hook (ok result) =
        Leaves-bind Flipped Holds
          (apply_outcome hook row.id result.outcome (some result.ref) result.reason)
          (read_back row.id) db
          (apply_outcome-Flipped hook result.outcome (some result.ref) result.reason)
          read_back-Holds

  -- What an insert leaves: the row of the key, which is of this order and amount if it is new.
  abbrev Made : Payment × Bool → Db → Type 0
  Made (row, true) db = Holds row db × Distinct db.payments
  Made (row, false) db = (get_by_key key db.payments ≡ some row) × Distinct db.payments

  create_pending-Made :
      (now : ℕ) (db : Db) → IsOrdered db → Leaves Made (create_pending now order_id key amount) db
  unfolding create_pending insert_pending get_by_key
  create_pending-Made now db o = after (get_by_key key db.payments) refl
    where
      row : Payment
      row = record {
        id = db.next_id;
        order_id = order_id;
        status = PaymentStatus.pending;
        amount = amount;
        gateway_ref = none;
        created_at = now;
        failure_reason = none;
        idempotency_key = key;
      }

      same : get_by_key key (row ∷ db.payments) ≡ some row
      same = ground arith

      after :
          (there : Option Payment)
          → get_by_key key db.payments ≡ there
          → Leaves Made (insert_pending now order_id key amount there) db
      after (some found) h = Leaves-pure Made (found, false) db (h, o.1)
      after none h = λ x e.
          subst (λ y. Made y (record db { payments = row ∷ db.payments; next_id = db.next_id + 1 }))
            (ok_inj (row, true) x e) ((same, (refl, refl)), o)

  -- What is answered without the gateway is the row that is there.
  known-Holds :
      (hook : Option (ℕ → Bool)) (gateway : Gateway) (token : List ℕ) (row : Payment) (db : Db)
      → get_by_key key db.payments ≡ some row
      → Distinct db.payments
      → Leaves Holds
          (ask hook gateway key amount token row.id (decided order_id amount (row, false)))
          db
  unfolding ask decided
  known-Holds hook gateway token row db there ordered =
      after (not (row.order_id == order_id) || not (row.amount == amount))
        (is_status row.status PaymentStatus.pending) refl
    where
      same : (not (row.order_id == order_id) || not (row.amount == amount)) ≡ false → Holds row db
      same h = (
        there,
        (eq_of_== row.order_id order_id (ground arith), eq_of_== row.amount amount (ground arith)),
      )

      after :
          (differ open_ : Bool)
          → (not (row.order_id == order_id) || not (row.amount == amount)) ≡ differ
          → Leaves Holds
              (ask hook gateway key amount token row.id (
                if differ
                then some (err idempotency_conflict)
                else if open_
                then none
                else some (ok row)))
              db
      after true k h = Leaves-raise Holds idempotency_conflict db
      after false true h =
          charged-Holds row db (same h) ordered hook (gateway.charge amount key token)
      after false false h = Leaves-pure Holds row db (same h)

  ask-Holds :
      (hook : Option (ℕ → Bool)) (gateway : Gateway) (token : List ℕ) (made : Payment × Bool)
      (db : Db)
      → Made made db
      → Leaves Holds (ask hook gateway key amount token made.0.id (decided order_id amount made)) db
  unfolding ask decided
  ask-Holds hook gateway token (row, true) db m =
      charged-Holds row db m.0 m.1 hook (gateway.charge amount key token)
  ask-Holds hook gateway token (row, false) db m = known-Holds hook gateway token row db m.0 m.1

  pub charge-Holds :
      (is_digit : ℕ → Bool) (hook : Option (ℕ → Bool)) (gateway : Gateway) (now : ℕ)
      (token : List ℕ) (db : Db)
      → IsOrdered db
      → Leaves Holds (charge is_digit hook gateway now order_id key amount token) db
  unfolding charge
  charge-Holds is_digit hook gateway now token db o = after (looks_like_pan is_digit token)
    where
      next : Payment × Bool → Action Payment
      next made = ask hook gateway key amount token made.0.id (decided order_id amount made)

      after :
          (b : Bool)
          → Leaves Holds
              (if b
                then raise invalid_payment_method
                else create_pending now order_id key amount >>= next)
              db
      after true = Leaves-raise Holds invalid_payment_method db
      after false =
          Leaves-bind Made Holds (create_pending now order_id key amount) next db
            (create_pending-Made now db o) (ask-Holds hook gateway token)
