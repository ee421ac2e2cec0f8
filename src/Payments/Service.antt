-- ===== src/Payments/Service.antt =====
-- `PaymentsService` (src/payments/application/service.py). The gateway, the hook and the digit test
-- of the card pattern come from outside; the signature's HMAC does too (`digest`).
use Prim.Native.String.{String}
use scalable_ecommerce_backe.Prelude.{
  ℕ, ◌+◌, ◌-◌, ◌==◌, leb, ltb, if◌then◌else◌, Bool, true, false, not, ◌&&◌, ◌||◌, Option, none,
  some, List, [], ◌∷◌, filter, length, any, ok, err, Result, pure, raise, ◌>>=◌,
}
use scalable_ecommerce_backe.Shared.UnitOfWork.{transaction}
use scalable_ecommerce_backe.Payments.Model.{
  PaymentStatus, Payment, payment_succeeded, payment_failed, payment_refunded, Outcome,
  GatewayCharge, GatewayRefund, Gateway, Error, idempotency_conflict, invalid_payment_method,
  unknown_ref, bad_signature, no_secret, vanished, Action, is_status, reason_or_unknown,
}
use scalable_ecommerce_backe.Payments.Repository.{
  get, get_by_key, transition, create_pending, due_for_reconciliation, abandonable,
}

-- `_reject_raw_pan`: without spaces and dashes, twelve to twenty-one digits.
unfoldable pub looks_like_pan : (ℕ → Bool) → List ℕ → Bool
looks_like_pan is_digit token =
    let normalized = filter (λ c. not (c == b' ' || c == b'-')) token in
    not (any (λ c. not (is_digit c)) normalized)
    && (leb 12 (length normalized) && leb (length normalized) 21)

-- `failure_reason or "unknown"`
abbrev pub or_unknown : Option String → Option String
or_unknown reason = some (reason_or_unknown reason)

-- `_apply_outcome`
unfoldable pub apply_outcome :
    Option (ℕ → Bool) → ℕ → Outcome → Option ℕ → Option String → Action (Option Payment)
apply_outcome hook id Outcome.pending ref reason db = (ok none, db)
apply_outcome hook id Outcome.succeeded ref reason db =
    transition hook payment_succeeded id PaymentStatus.pending PaymentStatus.succeeded ref none db
apply_outcome hook id Outcome.failed ref reason db =
    transition none payment_failed id PaymentStatus.pending PaymentStatus.failed ref
      (or_unknown reason) db

abbrev pub is_some : Option Payment → Bool
is_some none = false
is_some (some p) = true

-- `_apply`: a webhook that came first wins.
unfoldable pub row_or_gone : Option Payment → Action Payment
row_or_gone (some row) db = (ok row, db)
row_or_gone none db = (err vanished, db)

unfoldable pub read_back : ℕ → Option Payment → Action Payment
unfolding row_or_gone
read_back id (some updated) db = (ok updated, db)
read_back id none db = row_or_gone (get id db.payments) db

unfoldable pub apply_charge : Option (ℕ → Bool) → ℕ → GatewayCharge → Action Payment
unfolding read_back
apply_charge hook id result =
    apply_outcome hook id result.outcome (some result.ref) result.reason >>= read_back id

-- The gateway is asked only for a row that this call made or that is still pending.
unfoldable pub decided : ℕ → ℕ → Payment × Bool → Option (Result Error Payment)
decided order_id amount (row, true) = none
decided order_id amount (row, false) =
    if not (row.order_id == order_id) || not (row.amount == amount)
    then some (err idempotency_conflict)
    else if is_status row.status PaymentStatus.pending
    then none
    else some (ok row)

unfoldable pub charged : Option (ℕ → Bool) → ℕ → Result Error GatewayCharge → Action Payment
charged hook id (err e) = raise e
charged hook id (ok result) = apply_charge hook id result

unfoldable pub ask :
    Option (ℕ → Bool)
    → Gateway
    → ℕ
    → ℕ
    → List ℕ
    → ℕ
    → Option (Result Error Payment)
    → Action Payment
unfolding charged
ask hook gateway key amount token id (some answer) = λ db. (answer, db)
ask hook gateway key amount token id none = charged hook id (gateway.charge amount key token)

unfoldable pub charge :
    (ℕ → Bool) → Option (ℕ → Bool) → Gateway → ℕ → ℕ → ℕ → ℕ → List ℕ → Action Payment
unfolding decided ask
charge is_digit hook gateway now order_id key amount token =
    if looks_like_pan is_digit token
    then raise invalid_payment_method
    else (create_pending now order_id key amount >>= λ made.
        ask hook gateway key amount token made.0.id (decided order_id amount made))

-- `refund`: nothing flipped is success only where another refund did the flip.
unfoldable pub is_refunded : Option Payment → Bool
is_refunded none = false
is_refunded (some p) = is_status p.status PaymentStatus.refunded

unfoldable pub flipped : ℕ → Option Payment → Action Bool
unfolding is_refunded
flipped id (some updated) db = (ok true, db)
flipped id none db = (ok (is_refunded (get id db.payments)), db)

unfoldable pub flip_refunded : Payment → Outcome → Action Bool
unfolding flipped
flip_refunded row Outcome.succeeded =
    transition none payment_refunded row.id PaymentStatus.succeeded PaymentStatus.refunded
      row.gateway_ref none
    >>= flipped row.id
flip_refunded row Outcome.failed = pure false
flip_refunded row Outcome.pending = pure false

unfoldable pub refunded : Payment → Result Error GatewayRefund → Action Bool
unfolding flip_refunded
refunded row (err e) = raise e
refunded row (ok result) = flip_refunded row result.outcome

unfoldable pub refund_row : Gateway → ℕ → Option Payment → Action Bool
unfolding refunded
refund_row gateway key none = pure false
refund_row gateway key (some row) =
    if is_status row.status PaymentStatus.succeeded
    then refunded row (gateway.refund row.amount key row.gateway_ref)
    else pure (is_status row.status PaymentStatus.refunded)

unfoldable pub refund : Gateway → ℕ → Action Bool
unfolding refund_row
refund gateway key db = refund_row gateway key (get_by_key key db.payments) db

-- What a lookup of one stuck row leads to; `absent` is for an affirmative "never saw it".
unfoldable pub count_if : Option Payment → ℕ
count_if none = 0
count_if (some p) = 1

unfoldable pub looked_up :
    Option (ℕ → Bool) → Action ℕ → ℕ → Result Error (Option GatewayCharge) → Action ℕ
unfolding count_if
looked_up hook absent id (err e) = pure 0
looked_up hook absent id (ok none) = absent
looked_up hook absent id (ok (some result)) =
    apply_outcome hook id result.outcome (some result.ref) result.reason >>= λ updated.
    pure (count_if updated)

unfoldable pub look_up : Option (ℕ → Bool) → Gateway → Action ℕ → Payment → Action ℕ
look_up hook gateway absent row = looked_up hook absent row.id (gateway.lookup row.idempotency_key)

-- A row past its maximal age that the gateway never saw is abandoned.
unfoldable pub abandon : Payment → Action ℕ
unfolding count_if
abandon row =
    apply_outcome none row.id Outcome.failed none (some "abandoned_by_reconciler") >>= λ updated.
    pure (count_if updated)

unfoldable pub sweep : (Payment → Action ℕ) → List Payment → Action ℕ
sweep visit [] = pure 0
sweep visit (row ∷ rows) =
    let rest = sweep visit rows in visit row >>= λ n. rest >>= λ m. pure (n + m)

-- `reconcile`: the rows inside the window, then those past it.
unfoldable pub reconcile : Option (ℕ → Bool) → Gateway → ℕ → ℕ → ℕ → ℕ → Action ℕ
reconcile hook gateway now grace max_age batch =
    (λ db.
      sweep (look_up hook gateway (pure 0)) (due_for_reconciliation now grace max_age batch db) db)
    >>= λ n.
        (λ db.
          sweep (λ row. look_up hook gateway (abandon row) row) (abandonable now max_age batch db)
            db)
        >>= λ m. pure (n + m)

-- The fields of a webhook's JSON object that the service reads, each absent where its type is not
-- the expected one; `outcome` is absent too where the event's type is not known.
pub record Payload : Type 0 where
  pub outcome : Option Outcome
  pub idempotency_key : Option ℕ
  pub gateway_ref : Option ℕ
  pub reason : Option String

abbrev same_codes : List ℕ → List ℕ → Bool
same_codes [] [] = true
same_codes [] (c ∷ cs) = false
same_codes (c ∷ cs) [] = false
same_codes (c ∷ cs) (d ∷ ds) = c == d && same_codes cs ds

-- `removeprefix("sha256=")`
unfoldable pub strip_prefix : List ℕ → List ℕ → List ℕ → List ℕ
strip_prefix whole [] rest = rest
strip_prefix whole (c ∷ cs) [] = whole
strip_prefix whole (c ∷ cs) (d ∷ ds) = if c == d then strip_prefix whole cs ds else whole

abbrev sha256_prefix : List ℕ
sha256_prefix = b's' ∷ b'h' ∷ b'a' ∷ b'2' ∷ b'5' ∷ b'6' ∷ b'=' ∷ []

-- A webhook delivery: the body, the two headers, the timestamp as `int` reads it.
pub record Delivery : Type 0 where
  pub body : List ℕ
  pub signature : Option (List ℕ)
  pub timestamp : Option ℕ

-- `_verify_signature`; `digest` is the HMAC in hexadecimal.
unfoldable pub verify_signature :
    (List ℕ → ℕ → List ℕ → List ℕ) → Option (List ℕ) → ℕ → ℕ → Delivery → Option Error
unfolding strip_prefix
verify_signature digest none tolerance now d = some no_secret
verify_signature digest (some []) tolerance now d = some no_secret
verify_signature digest (some (k ∷ ks)) tolerance now d =
    let secret = k ∷ ks in
    elim d.timestamp [
      | none ↦ some bad_signature
      | some ts ↦
          if ltb tolerance ((now - ts) + (ts - now)) then some bad_signature else elim d.signature [
            | none ↦ some bad_signature
            | some header ↦
                let received = strip_prefix header sha256_prefix header in
                if leb (length received) 0 || not (same_codes (digest secret ts d.body) received)
                then some bad_signature
                else none
          ]
    ]

unfoldable pub settle_event : Option (ℕ → Bool) → Payload → Outcome → Option Payment → Action Bool
settle_event hook p outcome none = raise unknown_ref
settle_event hook p outcome (some row) =
    transaction (apply_outcome hook row.id outcome p.gateway_ref p.reason) >>= λ updated.
    pure (is_some updated)

-- The outcome and the key that an event must have.
unfoldable pub addressed : Option (ℕ → Bool) → Payload → Option Outcome → Option ℕ → Action Bool
addressed hook p none key db = (err unknown_ref, db)
addressed hook p (some outcome) none db = (err unknown_ref, db)
addressed hook p (some outcome) (some key) db =
    settle_event hook p outcome (get_by_key key db.payments) db

unfoldable pub deliver : Option (ℕ → Bool) → Option Payload → Action Bool
deliver hook none db = (err unknown_ref, db)
deliver hook (some p) db = addressed hook p p.outcome p.idempotency_key db

unfoldable pub verified : Option (ℕ → Bool) → Option Payload → Option Error → Action Bool
unfolding deliver
verified hook p (some e) = raise e
verified hook p none = deliver hook p

-- `handle_webhook`; `parse` reads the body as a JSON object.
unfoldable pub handle_webhook :
    (List ℕ → ℕ → List ℕ → List ℕ)
    → (List ℕ → Option Payload)
    → Option (ℕ → Bool)
    → Option (List ℕ)
    → ℕ
    → ℕ
    → Delivery
    → Action Bool
unfolding verified
handle_webhook digest parse hook secret tolerance now d =
    verified hook (parse d.body) (verify_signature digest secret tolerance now d)
