-- ===== src/Payments/Model.antt =====
-- The payment rows of src/payments/domain/payment.py, the gateway's answers of
-- src/payments/ports/gateway.py, and the tables that the repository writes. Ids, keys, order ids
-- and references are compared only; amounts are in the smallest unit. `next_id` is the supply of
-- fresh ids; `hooked` lists the orders for which the `on_succeeded` hook has run.
use Prim.Native.String.{String}
use text.Mathlib.Text.{◌==◌ as str_eq}
use scalable_ecommerce_backe.Prelude.{
  ℕ, if◌then◌else◌, Bool, true, false, Option, none, some, List, Exec, Result,
}

pub data PaymentStatus : Type 0 where
  pending succeeded failed refunded : PaymentStatus

pub record Payment : Type 0 where
  pub id : ℕ
  pub order_id : ℕ
  pub status : PaymentStatus
  pub amount : ℕ
  pub gateway_ref : Option ℕ
  pub created_at : ℕ
  pub failure_reason : Option String
  pub idempotency_key : ℕ

pub data EventType : Type 0 where
  payment_succeeded payment_failed payment_refunded : EventType

-- The messages of the three events, each with the fields of its own data (application/outbox.py).
pub data OutboxMessage : Type 0 where
  succeeded_message refunded_message : ℕ → ℕ → ℕ → Option ℕ → OutboxMessage
  failed_message : ℕ → ℕ → ℕ → String → OutboxMessage

-- `reason or "unknown"`
abbrev pub reason_or_unknown : Option String → String
reason_or_unknown none = "unknown"
reason_or_unknown (some s) = if str_eq s "" then "unknown" else s

abbrev pub payment_succeeded_outbox : Payment → OutboxMessage
payment_succeeded_outbox p = succeeded_message p.id p.order_id p.amount p.gateway_ref

abbrev pub payment_failed_outbox : Payment → OutboxMessage
payment_failed_outbox p =
    failed_message p.id p.order_id p.amount (reason_or_unknown p.failure_reason)

abbrev pub payment_refunded_outbox : Payment → OutboxMessage
payment_refunded_outbox p = refunded_message p.id p.order_id p.amount p.gateway_ref

pub record Db : Type 0 where
  pub payments : List Payment
  pub outbox : List OutboxMessage
  pub hooked : List ℕ
  pub next_id : ℕ

-- `GatewayOutcome`
pub data Outcome : Type 0 where
  succeeded failed pending : Outcome

pub record GatewayCharge : Type 0 where
  pub ref : ℕ
  pub outcome : Outcome
  pub reason : Option String

pub record GatewayRefund : Type 0 where
  pub ref : ℕ
  pub outcome : Outcome
  pub reason : Option String

pub data Error : Type 0 where
  idempotency_conflict invalid_payment_method unknown_ref bad_signature no_secret : Error
  gateway_fault hook_fault vanished : Error

-- `PaymentGatewayPort`: what the provider answers, which may be a fault. A key that is charged,
-- looked up or refunded again gets the answer that it had, as the port documents.
pub record Gateway : Type 0 where
  pub charge : ℕ → ℕ → List ℕ → Result Error GatewayCharge
  pub lookup : ℕ → Result Error (Option GatewayCharge)
  pub refund : ℕ → ℕ → Option ℕ → Result Error GatewayRefund

abbrev pub Action : Type 0 → Type 0
Action A = Exec Error Db A

abbrev pub is_status : PaymentStatus → PaymentStatus → Bool
is_status PaymentStatus.pending PaymentStatus.pending = true
is_status PaymentStatus.succeeded PaymentStatus.succeeded = true
is_status PaymentStatus.failed PaymentStatus.failed = true
is_status PaymentStatus.refunded PaymentStatus.refunded = true
is_status _ _ = false
