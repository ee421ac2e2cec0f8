-- ===== src/Payments/Repository.antt =====
-- `PaymentsRepository` (src/payments/adapters/db/repository.py).
use Prim.Native.String.{String}
use scalable_ecommerce_backe.Prelude.{
  ℕ, ◌+◌, ◌==◌, leb, ltb, if◌then◌else◌, Bool, true, false, ◌&&◌, Option, none, some, List, [], ◌∷◌,
  ◌++◌, filter, take, sort_by, ok, err, ◌>>◌,
}
use scalable_ecommerce_backe.Shared.UnitOfWork.{transaction}
use scalable_ecommerce_backe.Payments.Model.{
  PaymentStatus, Payment, EventType, payment_succeeded, payment_failed, payment_refunded,
  OutboxMessage, payment_succeeded_outbox, payment_failed_outbox, payment_refunded_outbox, Db,
  hook_fault, Action, is_status,
}

-- The rows by primary key, and by the unique idempotency key.
unfoldable pub get : ℕ → List Payment → Option Payment
get id [] = none
get id (p ∷ ps) = if p.id == id then some p else get id ps

unfoldable pub get_by_key : ℕ → List Payment → Option Payment
get_by_key key [] = none
get_by_key key (p ∷ ps) = if p.idempotency_key == key then some p else get_by_key key ps

-- `UPDATE … WHERE id = :id AND status = :expect`: at most the one row of the primary key.
unfoldable pub update : ℕ → PaymentStatus → (Payment → Payment) → List Payment → List Payment
update id expect set [] = []
update id expect set (p ∷ ps) =
    if p.id == id
    then (if is_status p.status expect then set p ∷ ps else p ∷ ps)
    else p ∷ update id expect set ps

-- Its RETURNING clause.
unfoldable pub returning : ℕ → PaymentStatus → (Payment → Payment) → List Payment → Option Payment
unfolding get
returning id expect set ps = elim (get id ps) [
  | none ↦ none
  | some p ↦ if is_status p.status expect then some (set p) else none
]

-- The outbox factory that a transition is given, on the row that the UPDATE returned.
abbrev pub message : EventType → Payment → OutboxMessage
message payment_succeeded p = payment_succeeded_outbox p
message payment_failed p = payment_failed_outbox p
message payment_refunded p = payment_refunded_outbox p

-- The hook of a succeeded charge: it may raise, which unwinds the flip.
abbrev pub run_hook : Option (ℕ → Bool) → ℕ → Action (Unit {0})
run_hook none order_id db = (ok tt, db)
run_hook (some hook) order_id db =
    (if hook order_id then ok tt else err hook_fault, record db { hooked = order_id ∷ db.hooked })

abbrev pub set_outcome : PaymentStatus → Option ℕ → Option String → Payment → Payment
set_outcome to_status ref reason p = record p {
  status = to_status;
  gateway_ref = ref;
  failure_reason = reason;
}

abbrev pub flip : EventType → ℕ → (Payment → Payment) → PaymentStatus → Payment → Db → Db
flip event id set expect row db = record db {
  payments = update id expect set db.payments;
  outbox = db.outbox ++ message event row ∷ [];
}

abbrev pub write : (Db → Db) → Action (Unit {0})
write f db = (ok tt, f db)

unfoldable pub transition_body :
    Option (ℕ → Bool)
    → EventType
    → ℕ
    → (Payment → Payment)
    → PaymentStatus
    → Option Payment
    → Action (Option Payment)
transition_body hook event id set expect none db = (ok none, db)
transition_body hook event id set expect (some row) db =
    (write (flip event id set expect row)
        >> run_hook hook row.order_id
        >> (λ db'. (ok (get id db'.payments), db')))
      db

-- `transition`
unfoldable pub transition :
    Option (ℕ → Bool)
    → EventType
    → ℕ
    → PaymentStatus
    → PaymentStatus
    → Option ℕ
    → Option String
    → Action (Option Payment)
transition hook event id expect to_status ref reason db =
    let set = set_outcome to_status ref reason in
    transaction (transition_body hook event id set expect (returning id expect set db.payments)) db

-- `INSERT … ON CONFLICT (idempotency_key) DO NOTHING`, then the row that is there.
unfoldable pub insert_pending : ℕ → ℕ → ℕ → ℕ → Option Payment → Action (Payment × Bool)
insert_pending now order_id key amount (some existing) db = (ok (existing, false), db)
insert_pending now order_id key amount none db =
    let row : Payment = record {
      id = db.next_id;
      order_id = order_id;
      status = PaymentStatus.pending;
      amount = amount;
      gateway_ref = none;
      created_at = now;
      failure_reason = none;
      idempotency_key = key;
    } in
    (ok (row, true), record db { payments = row ∷ db.payments; next_id = db.next_id + 1 })

-- `create_pending`: the row and whether this call made it.
unfoldable pub create_pending : ℕ → ℕ → ℕ → ℕ → Action (Payment × Bool)
create_pending now order_id key amount db =
    insert_pending now order_id key amount (get_by_key key db.payments) db

-- `created_at <= now - seconds`, and its negation; a cutoff before the epoch lets no row through.
abbrev pub at_most_ago : ℕ → ℕ → Payment → Bool
at_most_ago now seconds p = leb (p.created_at + seconds) now

abbrev pub is_pending : Payment → Bool
is_pending p = is_status p.status PaymentStatus.pending

unfoldable pub due_for_reconciliation : ℕ → ℕ → ℕ → ℕ → Db → List Payment
due_for_reconciliation now grace max_age batch db = take batch (
    sort_by (λ p. p.created_at)
      (filter (λ p. is_pending p && (at_most_ago now grace p && ltb now (p.created_at + max_age)))
        db.payments))

unfoldable pub abandonable : ℕ → ℕ → ℕ → Db → List Payment
abandonable now max_age batch db = take batch (
    sort_by (λ p. p.created_at)
      (filter (λ p. is_pending p && at_most_ago now max_age p) db.payments))

-- `has_succeeded_for_order`
unfoldable pub has_succeeded_for_order : ℕ → List Payment → Bool
has_succeeded_for_order order_id [] = false
has_succeeded_for_order order_id (p ∷ ps) =
    if p.order_id == order_id && is_status p.status PaymentStatus.succeeded
    then true
    else has_succeeded_for_order order_id ps
