-- ===== src/Orders/Repository.antt =====
-- `OrdersRepository` (src/orders/adapters/db/repository.py). `now` is the transaction's time.
use scalable_ecommerce_backe.Prelude.{
  ℕ, ◌+◌, ◌==◌, ltb, leb, if◌then◌else◌, Bool, true, false, not, ◌&&◌, Option, none, some, List, [],
  ◌∷◌, ◌++◌, map, filter, any, take, sort_by, ok, err, Result, ◌>>=◌,
}
use scalable_ecommerce_backe.Shared.UnitOfWork.{transaction}
use scalable_ecommerce_backe.Orders.Model.{
  OrderStatus, OrderItem, Order, Step, StepStatus, SagaLog, OrderPlaced, Db, Error, Action,
  same_status, same_step, is_open, is_closed,
}

-- The row by its primary key, and by the unique pair of user and key.
unfoldable pub find : ℕ → List Order → Option Order
find id [] = none
find id (o ∷ os) = if o.id == id then some o else find id os

unfoldable pub find_by_key : ℕ → ℕ → List Order → Option Order
find_by_key user_id key [] = none
find_by_key user_id key (o ∷ os) =
    if o.user_id == user_id && o.idempotency_key == key then some o else find_by_key user_id key os

unfoldable pub get_order : ℕ → Action (Option Order)
get_order id db = (ok (find id db.orders), db)

abbrev status_of : Option Order → Option OrderStatus
status_of none = none
status_of (some o) = some o.status

unfoldable pub get_order_status : ℕ → Action (Option OrderStatus)
get_order_status id db = (ok (status_of (find id db.orders)), db)

unfoldable pub get_by_idempotency : ℕ → ℕ → Action (Option Order)
get_by_idempotency user_id key db = (ok (find_by_key user_id key db.orders), db)

abbrev pub journal : ℕ → ℕ → Step → StepStatus → Db → Db
journal now order_id step status db = record db {
  saga_log =
      record {
        order_id = order_id;
        step = step;
        status = status;
        created_at = now;
        updated_at = now;
      }
      ∷ db.saga_log;
}

-- `log_saga_step`
unfoldable pub log_saga_step : ℕ → ℕ → Step → StepStatus → Action (Unit {0})
log_saga_step now order_id step status db = (ok tt, journal now order_id step status db)

-- `create_pending_order`: a taken pair of user and key answers the row that has it.
unfoldable pub insert_order :
    ℕ → ℕ → ℕ → ℕ → ℕ → List OrderItem → ℕ → Option Order → Action (Order × Bool)
insert_order now user_id key body_hash total items user_email (some winner) db =
    (ok (winner, false), db)
insert_order now user_id key body_hash total items user_email none db =
    let row : Order = record {
      id = db.next_id;
      user_id = user_id;
      status = OrderStatus.pending;
      total = total;
      items = items;
      created_at = now;
      updated_at = now;
      idempotency_key = key;
      idempotency_body_hash = body_hash;
      user_email = user_email;
    } in
    (
      ok (row, true),
      journal now db.next_id Step.create StepStatus.completed
          (record db { orders = row ∷ db.orders; next_id = db.next_id + 1 }),
    )

unfoldable pub create_pending_order : ℕ → ℕ → ℕ → ℕ → ℕ → List OrderItem → ℕ → Action (Order × Bool)
create_pending_order now user_id key body_hash total items user_email db =
    insert_order now user_id key body_hash total items user_email
      (find_by_key user_id key db.orders) db

-- `_request_refund_once`
abbrev pub is_refund_of : ℕ → SagaLog → Bool
is_refund_of order_id l = l.order_id == order_id && same_step l.step Step.refund

unfoldable pub request_refund_once : ℕ → ℕ → Db → Db
request_refund_once now order_id db =
    if any (is_refund_of order_id) db.saga_log
    then db
    else journal now order_id Step.refund StepStatus.requested db

-- `journal_refund_if_cancelled`
abbrev pub refund_if : ℕ → ℕ → Option Order → Db → Db
refund_if now order_id none db = db
refund_if now order_id (some o) db =
    if same_status o.status OrderStatus.cancelled then request_refund_once now order_id db else db

unfoldable pub journal_refund_if_cancelled : ℕ → ℕ → Db → Db
journal_refund_if_cancelled now order_id db = refund_if now order_id (find order_id db.orders) db

-- `UPDATE orders SET status WHERE id AND status IN expect`; the ORM's `onupdate` stamps the row.
abbrev pub is_expected : List OrderStatus → Order → Bool
is_expected expect o = any (same_status o.status) expect

abbrev pub set_status : ℕ → OrderStatus → Order → Order
set_status now to_status o = record o { status = to_status; updated_at = now }

unfoldable pub update : ℕ → List OrderStatus → (Order → Order) → List Order → List Order
update id expect set [] = []
update id expect set (o ∷ os) =
    if o.id == id
    then (if is_expected expect o then set o ∷ os else o ∷ os)
    else o ∷ update id expect set os

-- Whether it matched the row.
unfoldable pub matches : ℕ → List OrderStatus → Option Order → Bool
matches id expect none = false
matches id expect (some o) = is_expected expect o

-- What the payments know of an order when it is cancelled.
abbrev pub PaymentGuard : Type 0
PaymentGuard = Option (ℕ → Result Error Bool)

abbrev pub intend : ℕ → ℕ → Result Error Bool → Action (Unit {0})
intend now order_id (err e) db = (err e, db)
intend now order_id (ok true) db = (ok tt, request_refund_once now order_id db)
intend now order_id (ok false) db = (ok tt, db)

abbrev pub guard_refund : ℕ → PaymentGuard → ℕ → OrderStatus → Action (Unit {0})
guard_refund now none order_id to_status db = (ok tt, db)
guard_refund now (some has_succeeded) order_id to_status db =
    if same_status to_status OrderStatus.cancelled
    then intend now order_id (has_succeeded order_id) db
    else (ok tt, db)

abbrev publish : Option OrderPlaced → List OrderPlaced → List OrderPlaced
publish none outbox = outbox
publish (some m) outbox = outbox ++ m ∷ []

abbrev pub flip : ℕ → ℕ → List OrderStatus → OrderStatus → Option OrderPlaced → Db → Db
flip now order_id expect to_status message db = record db {
  orders = update order_id expect (set_status now to_status) db.orders;
  outbox = publish message db.outbox;
}

-- `transition_status`
unfoldable pub transition_body :
    ℕ
    → PaymentGuard
    → ℕ
    → List OrderStatus
    → OrderStatus
    → Option OrderPlaced
    → Bool
    → Action (Option Order)
transition_body now has_succeeded order_id expect to_status message false db = (ok none, db)
transition_body now has_succeeded order_id expect to_status message true db =
    (guard_refund now has_succeeded order_id to_status >>= λ _ db'.
    (ok (find order_id db'.orders), db'))
      (flip now order_id expect to_status message db)

unfoldable pub transition_status :
    ℕ
    → PaymentGuard
    → ℕ
    → List OrderStatus
    → OrderStatus
    → Option OrderPlaced
    → Action (Option Order)
transition_status now has_succeeded order_id expect to_status message db =
    transaction
      (transition_body now has_succeeded order_id expect to_status message
        (matches order_id expect (find order_id db.orders)))
      db

-- `latest_saga_step`: the newest row of the step.
abbrev later : SagaLog → Option SagaLog → Option SagaLog
later l none = some l
later l (some m) = if ltb l.created_at m.created_at then some m else some l

unfoldable pub newest : ℕ → Step → List SagaLog → Option SagaLog
newest order_id step [] = none
newest order_id step (l ∷ ls) =
    let rest = newest order_id step ls in
    if l.order_id == order_id && same_step l.step step then later l rest else rest

abbrev pub step_status_of : Option SagaLog → Option StepStatus
step_status_of none = none
step_status_of (some l) = some l.status

unfoldable pub latest_saga_step : ℕ → Step → Action (Option StepStatus)
unfolding newest
latest_saga_step order_id step db = (ok (step_status_of (newest order_id step db.saga_log)), db)

-- `has_recent_saga_activity`
unfoldable pub has_recent_saga_activity : ℕ → ℕ → Action Bool
has_recent_saga_activity order_id since db =
    (ok (any (λ l. l.order_id == order_id && leb since l.updated_at) db.saga_log), db)

-- `list_saga_steps`, oldest first.
unfoldable pub list_saga_steps : ℕ → Action (List SagaLog)
list_saga_steps order_id db =
    (ok (sort_by (λ l. l.created_at) (filter (λ l. l.order_id == order_id) db.saga_log)), db)

-- The two claims. `locked` are the rows that another session holds; the touch is the lease.
abbrev is_stuck : ℕ → Db → Order → Bool
is_stuck cutoff db o =
    same_status o.status OrderStatus.pending
    && (ltb o.updated_at cutoff
        && not (any (λ l. l.order_id == o.id && leb cutoff l.updated_at) db.saga_log))

abbrev awaits_refund : ℕ → Db → Order → Bool
awaits_refund cutoff db o =
    same_status o.status OrderStatus.cancelled
    && (ltb o.updated_at cutoff
        && (any (λ l. is_refund_of o.id l && (is_open l.status && ltb l.created_at cutoff))
              db.saga_log
            && not (any (λ l. is_refund_of o.id l && is_closed l.status) db.saga_log)))

abbrev pub lease : ℕ → List Order → List Order → List Order
lease now claimed os =
    map (λ o. if any (λ c. c.id == o.id) claimed then record o { updated_at = now } else o) os

unfoldable pub claim : ℕ → (Order → Bool) → (Order → Bool) → ℕ → Action (List ℕ)
claim now locked wanted batch db =
    let claimed =
      take batch
        (sort_by (λ o. o.updated_at) (filter (λ o. wanted o && not (locked o)) db.orders)) in
    (ok (map (λ o. o.id) claimed), record db { orders = lease now claimed db.orders })

unfoldable pub claim_stuck_pending : ℕ → (Order → Bool) → ℕ → ℕ → Action (List ℕ)
claim_stuck_pending now locked cutoff batch db = claim now locked (is_stuck cutoff db) batch db

unfoldable pub claim_cancelled_with_pending_refund : ℕ → (Order → Bool) → ℕ → ℕ → Action (List ℕ)
claim_cancelled_with_pending_refund now locked cutoff batch db =
    claim now locked (awaits_refund cutoff db) batch db
