-- ===== src/Lib.antt =====
-- A verification library for the e-commerce backend: a modular FastAPI service whose modules
-- (inventory, payments, cart, orders, catalog, identity, notifications) each own a PostgreSQL
-- schema or a Valkey keyspace, and whose checkout saga composes them.
--
-- How the code is modelled. Code that reads and writes tables is a function from the tables to a
-- result, which may be an error, and the tables after it (`Exec`, in Prelude/Effects). What a raise
-- leaves written is in the state beside the error; `transaction` (Shared/UnitOfWork, for
-- src/shared/db/unit_of_work.py) is what unwinds it. A guarded UPDATE, with its WHERE, RETURNING and
-- row count, is one function, as is a SELECT. Ids, SKUs and keys are compared only and are natural
-- numbers; so are amounts and points in time, and the current time is an argument. Integers of the
-- database are not bounded here: a value out of range is an error of the driver. Operations of one
-- session run one after the other; a lock that another session holds shows as rows skipped.
--
-- The parts:
--   Prelude (with Tests, Lists, Effects): the shared names, Boolean tests, lists and effects.
--   Shared/UnitOfWork: transactions and savepoints; Shared/Outcomes: rules for what an answer leaves.
--   Shared/Resilience (src/shared/resilience.py): Breaker is `CircuitBreaker`, with its properties
--     in Probes; Budget is `ValkeyConcurrencyBudget` with its Lua script; Retry is
--     `retry_transient`, by recursion on the number of tries. The breaker's probe counter is an
--     integer. Metrics, logs and sleeps are left out.
--   Shared/RateLimit (src/shared/ratelimit/token_bucket.py): the Lua script and `allow`. The script
--     computes on doubles, the model exactly: a token is `unit` parts, so that a microsecond
--     restores `refill` of them; the script's wait for a token, a rounded quotient of doubles, is an
--     argument. Bounds is about any window of calls.
--   Inventory (src/inventory): Model has the domain types and tables; Statements has the SQL
--     statements of adapters/db/repository.py; Repository has `release`, `release_for_order`,
--     `release_expired`, `restock_for_order`, `commit_reservation`, `commit_for_order` and their
--     loops; Reserve has `reserve_many`, `reserve` and `_reserve_attempt` with its savepoints;
--     Service is application/service.py. Totals, Claims, Claimed, Moves, Loops, Consistent, Settle
--     and Flips carry the invariant over units of stock; Lifecycle and Guarantees state what the
--     repository and the service promise. The unconstrained reads for the API are left out, and so
--     is what other transactions write between the two attempts of a reservation.
--   Payments (src/payments): Model has the domain types, the tables and the gateway port;
--     Repository and Service follow adapters/db/repository.py and application/service.py. The
--     gateway, the HMAC, the JSON parser, the test for a digit and the hook of a succeeded charge
--     are arguments. Progress says how a payment may change; Rule is what a relation must offer to
--     be carried through a charge and a refund (Decided) and through a webhook and a reconciliation
--     (Settled), and Progressing and Bootstrap/Runs are its two uses; Published and Flipped say what
--     a transition leaves in the rows and the outbox, Ordered, Keyed and Again what a second charge
--     under a key does, Captured which orders have a succeeded payment; Guarantees states what the
--     service promises. The builders of application/outbox.py are in Model.
--   Cart (src/cart): Hash is a user's hash in Valkey; Scripts has the Lua scripts of
--     adapters/valkey/repository.py (`add_item` is `_ADD_LUA`, `set_quantity` `_SET_LUA`, and so
--     on); Projection has `_PROJECT_LUA`, `_TOMBSTONE_LUA` and the round trips of
--     `get_cart`; Service is application/service.py (`add_to_cart`, `change_quantity`). Each script
--     is one function, since the server runs it as one step; `get_cart` is a list of them, and other
--     requests may come between. Sized, Within and Reading carry the caps, Consumption what a
--     checkout takes out. The catalog's answer is an argument; expiry by the server is not modelled.
--   Orders (src/orders): Model has the domain types, the saga journal and the outbox; Repository
--     follows adapters/db/repository.py; Service is application/service.py, where other sessions may
--     commit after each read of a cancellation and before its transaction; Cancelled and Decided say
--     what a cancellation leaves. Under Saga is application/checkout_saga.py, over any state of the
--     world: Ports has the ports of ports/checkout.py as calls that may change the world in any way,
--     so what other sessions do meanwhile is a part of them; Settling and Drive are `_drive` after
--     and before the charge, whose local flags stand beside the world in a `Frame` so that its
--     except arms see them; Undo has `compensate_with` and the journaled refund, Basket the best-effort writes, Checkout the entry
--     point, Recovery `recover_stuck` and what it settles. `timeout` is the TimeoutError of a step,
--     `deadline` the cancellation by the overall timeout, which `except Exception` does not catch.
--     Preserves, Confirms, Calm and Steady carry a property of the world through the calls (Steady
--     through those of the successful path only); AfterCharge and BeforeCharge split the drive at
--     the charge; Unwinding, Refused, Marked, Unanswered, Confirmed, Answered, Recovering, Passing and
--     Accounted say what drives, checkouts and recovery passes guarantee.
--   Bootstrap (src/bootstrap/payment_refund.py): Transactions joins orders and payments on one
--     session, where a charge that succeeds journals the refund of a cancelled order and a
--     cancellation asks the payments for a succeeded charge; each committed transaction is a step.
--     Marked has what the steps do to cancelled orders and refund markers, Covered is about every
--     interleaving of the steps, Runs shows that the payment service runs
--     in such steps.
--
-- All loops are structural recursion over the rows, the ids or the tries that they walk, so no fuel is used.
-- Not modelled: the listings for the API, the event bus, the
-- catalog, identity, notifications, and the HTTP and configuration layers.
pub mod Prelude
pub mod Shared
pub mod Inventory
pub mod Payments
pub mod Cart
pub mod Orders
pub mod Bootstrap
