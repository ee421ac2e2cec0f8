-- ===== src/Bootstrap/Transactions.antt =====
-- Orders and payments on one session, as src/bootstrap/payment_refund.py wires them: a charge that
-- succeeds journals the refund of a cancelled order in its own transaction, and a cancellation asks
-- the payments for a succeeded charge in its own. Each transaction that the code commits is one
-- step; sessions that run at the same time are an interleaving of their steps.
use Prim.Native.String.{String}
use scalable_ecommerce_backe.Prelude.{
  ℕ, if◌then◌else◌, Bool, Option, none, some, List, [], ◌∷◌, ok, err, Result,
}
use scalable_ecommerce_backe.Payments.Model.{
  Db as PaymentsDb, Error as PaymentsError, PaymentStatus, Payment, payment_succeeded,
  payment_failed, payment_refunded,
}
use scalable_ecommerce_backe.Payments.Repository.{
  transition, create_pending, has_succeeded_for_order,
}
use scalable_ecommerce_backe.Orders.Model.{
  Db as OrdersDb, OrderStatus, OrderItem, Order, Step, StepStatus, OrderPlaced, query_fault,
}
use scalable_ecommerce_backe.Orders.Repository.{
  PaymentGuard, create_pending_order, log_saga_step, transition_status, journal_refund_if_cancelled,
  claim,
}

pub record Shop : Type 0 where
  pub orders : OrdersDb
  pub payments : PaymentsDb

abbrev pub empty_shop : Shop
empty_shop = record {
  orders = record { orders = []; saga_log = []; outbox = []; next_id = 0 };
  payments = record { payments = []; outbox = []; hooked = []; next_id = 0 };
}

-- `orders_repository_with_payment_guard`; `answers` tells for which orders the query comes back.
abbrev pub payment_guard : (ℕ → Bool) → PaymentsDb → PaymentGuard
payment_guard answers payments = some (λ order_id.
    if answers order_id
    then ok (has_succeeded_for_order order_id payments.payments)
    else err query_fault)

-- `cancelled_order_refund_hook`, once the transition that it stands in has committed.
abbrev pub after_success : ℕ → Result PaymentsError (Option Payment) → OrdersDb → OrdersDb
after_success now (err e) orders = orders
after_success now (ok none) orders = orders
after_success now (ok (some row)) orders = journal_refund_if_cancelled now row.order_id orders

-- The transactions of the two modules.
pub data Transaction : Type 0 where
  create_payment : ℕ → ℕ → ℕ → ℕ → Transaction
  payment_succeeds : ℕ → (ℕ → Bool) → ℕ → Option ℕ → Transaction
  payment_fails : ℕ → Option ℕ → Option String → Transaction
  payment_returns : ℕ → Option ℕ → Transaction
  create_order : ℕ → ℕ → ℕ → ℕ → ℕ → List OrderItem → ℕ → Transaction
  settle_order :
      ℕ → (ℕ → Bool) → ℕ → List OrderStatus → OrderStatus → Option OrderPlaced → Transaction
  journal_step : ℕ → ℕ → Step → StepStatus → Transaction
  lease_orders : ℕ → (Order → Bool) → (Order → Bool) → ℕ → Transaction

unfoldable pub run : Transaction → Shop → Shop
run (create_payment now order_id key amount) s = record s {
  payments = (create_pending now order_id key amount s.payments).1;
}
run (payment_succeeds now hook id ref) s =
    let done =
      transition (some hook) payment_succeeded id PaymentStatus.pending PaymentStatus.succeeded ref
        none s.payments in
    record { payments = done.1; orders = after_success now done.0 s.orders }
run (payment_fails id ref reason) s = record s {
  payments =
      (transition none payment_failed id PaymentStatus.pending PaymentStatus.failed ref reason
        s.payments).1;
}
run (payment_returns id ref) s = record s {
  payments =
      (transition none payment_refunded id PaymentStatus.succeeded PaymentStatus.refunded ref none
        s.payments).1;
}
run (create_order now user_id key body_hash total items user_email) s = record s {
  orders = (create_pending_order now user_id key body_hash total items user_email s.orders).1;
}
run (settle_order now answers order_id expect to_status message) s = record s {
  orders =
      (transition_status now (payment_guard answers s.payments) order_id expect to_status message
        s.orders).1;
}
run (journal_step now order_id step status) s = record s {
  orders = (log_saga_step now order_id step status s.orders).1;
}
run (lease_orders now locked wanted batch) s = record s {
  orders = (claim now locked wanted batch s.orders).1;
}

unfoldable pub run_all : List Transaction → Shop → Shop
run_all [] s = s
run_all (t ∷ ts) s = run_all ts (run t s)
