-- ===== src/Orders/Saga/BeforeCharge.antt =====
-- The part of `_drive` before the charge is confirmed takes no charge
-- (src/orders/application/checkout_saga.py).
use scalable_ecommerce_backe.Prelude.{
  ◌≡◌, true, false, Option, none, some, ok, err, Result, Exec, pure, raise, ◌>>=◌, ◌>>◌, arith,
}
use scalable_ecommerce_backe.Orders.Model.{Order, Step, StepStatus}
use scalable_ecommerce_backe.Orders.Saga.Ports.{
  ChargeResult, Reason, Error, order_state_conflict, idempotency_conflict, cart_changed,
  insufficient_stock, circuit_open, budget_exhausted, dependency_unavailable, timeout, deadline,
  vanished, other, outcome_unknown, payment_failed, reservation_timed_out, Call, Ports,
  payment_key_for, is_timeout, catch, or_else,
}
use scalable_ecommerce_backe.Orders.Saga.Undo.{compensate, compensate_after_cancel}
use scalable_ecommerce_backe.Orders.Saga.Basket.{remember, clear_basket_if_replay_mop_up}
use scalable_ecommerce_backe.Orders.Saga.Settling.{
  Frame, Answer, Checkout, conflict, call, assign, log,
}
use scalable_ecommerce_backe.Orders.Saga.Drive.{
  set_uncertain, give_up, looked_up, uncertain, no_answer, settled_meanwhile, reserve_late,
  sku_lines,
}
use scalable_ecommerce_backe.Orders.Saga.Preserves.{
  Preserves, Preserves-pure, Preserves-raise, Preserves-then, Preserves-catch, Preserves-if,
}

pub true_ne_false : true ≡ false → ⊥
true_ne_false h = ground arith

-- An action that only raises, and keeps K: whatever would follow it keeps K too.
abbrev pub Refuses : {S A : Type 0} (K : S → Type 0) → Exec Error S A → Type 1
Refuses {S} {A} K m = (B : Type 0) (next : A → Exec Error S B) → Preserves K (m >>= next)

Refuses-bind :
    {S : Type 0} (K : S → Type 0) {A B : Type 0} (m : Exec Error S A) (next : A → Exec Error S B)
    → Preserves K m
    → ((a : A) → Refuses K (next a))
    → Refuses K (m >>= next)
Refuses-bind {S} K {A} {B} m next pm rn C last s k = after (m s) (pm s k)
  where
    after : (r : Result Error A × S) → K r.1 → K (◌>>=◌ (◌>>=◌ (λ (_ : S). r) next) last s).1
    after (ok a, t) h = rn a C last t h
    after (err e, t) h = h

module _ {W : Type 0} (ports : Ports W) (c : Checkout) where
  abbrev pub Uncharged : Frame W → Type 0
  Uncharged f = f.charged ≡ false

  pub call-Uncharged : {A : Type 0} (m : Call W A) → Preserves Uncharged (call m)
  call-Uncharged m f u = u

  pub log-Uncharged :
      (step : Step) (status : StepStatus) → Preserves Uncharged (log ports c step status)
  log-Uncharged step status f u = u

  -- A step that reports and refuses.
  pub give_up-Uncharged :
      (A : Type 0) (status : StepStatus) (reason : Reason)
      → Preserves Uncharged (give_up ports c {A = A} status reason)
  give_up-Uncharged A status reason =
      Preserves-then Uncharged undo (conflict reason)
        (Preserves-then Uncharged (log ports c Step.charge status)
          (call (compensate ports c.order_id)) (log-Uncharged Step.charge status)
          (call-Uncharged (compensate ports c.order_id)))
        (Preserves-raise Uncharged A (order_state_conflict reason))
    where
      undo : Exec Error (Frame W) (Unit {0})
      undo = log ports c Step.charge status >> call (compensate ports c.order_id)

  pub undo-Uncharged :
      (A : Type 0) (m : Call W (Unit {0})) (e : Error)
      → Preserves Uncharged (call m >> raise {A = A} e)
  undo-Uncharged A m e =
      Preserves-then Uncharged (call m) (raise e) (call-Uncharged m) (Preserves-raise Uncharged A e)

  Refuses-raise : (A : Type 0) (e : Error) → Refuses Uncharged (raise {A = A} e)
  Refuses-raise A e B next f u = u

  unknown-Refuses :
      Refuses Uncharged
        (log ports c Step.charge StepStatus.unknown >> conflict {A = ChargeResult} outcome_unknown)
  unknown-Refuses =
      Refuses-bind Uncharged (log ports c Step.charge StepStatus.unknown)
        (λ _. conflict outcome_unknown) (log-Uncharged Step.charge StepStatus.unknown)
        (λ _. Refuses-raise ChargeResult (order_state_conflict outcome_unknown))

  looked_up-Refuses : (charge : Option ChargeResult) → Refuses Uncharged (looked_up ports c charge)
  looked_up-Refuses none = unknown-Refuses
  looked_up-Refuses (some ChargeResult.succeeded) = unknown-Refuses
  looked_up-Refuses (some ChargeResult.pending) = unknown-Refuses
  looked_up-Refuses (some ChargeResult.refunded) = unknown-Refuses
  looked_up-Refuses (some ChargeResult.failed) =
      Refuses-bind Uncharged undo (λ _. conflict payment_failed) keeps
        (λ _. Refuses-raise ChargeResult (order_state_conflict payment_failed))
    where
      undo : Exec Error (Frame W) (Unit {0})
      undo =
          log ports c Step.charge StepStatus.failed
          >> assign (set_uncertain ports c false)
          >> call (compensate ports c.order_id)

      keeps : Preserves Uncharged undo
      keeps =
          Preserves-then Uncharged
            (log ports c Step.charge StepStatus.failed >> assign (set_uncertain ports c false))
            (call (compensate ports c.order_id))
            (Preserves-then Uncharged (log ports c Step.charge StepStatus.failed)
              (assign (set_uncertain ports c false)) (log-Uncharged Step.charge StepStatus.failed)
              (λ f u. u))
            (call-Uncharged (compensate ports c.order_id))

  uncertain-Refuses : Refuses Uncharged (uncertain ports c)
  unfolding uncertain
  uncertain-Refuses =
      Refuses-bind Uncharged look (looked_up ports c)
        (Preserves-then Uncharged (assign (set_uncertain ports c true))
          (call (or_else none (ports.find_by_idempotency_key (payment_key_for c.user_id c.key))))
          (λ f u. u) (λ f u. u))
        looked_up-Refuses
    where
      look : Exec Error (Frame W) (Option ChargeResult)
      look =
          assign (set_uncertain ports c true)
          >> call (or_else none (ports.find_by_idempotency_key (payment_key_for c.user_id c.key)))

  pub no_answer-Refuses : (e : Error) → Refuses Uncharged (no_answer ports c e)
  no_answer-Refuses timeout = uncertain-Refuses
  no_answer-Refuses dependency_unavailable = uncertain-Refuses
  no_answer-Refuses (order_state_conflict r) = Refuses-raise ChargeResult (order_state_conflict r)
  no_answer-Refuses idempotency_conflict = Refuses-raise ChargeResult idempotency_conflict
  no_answer-Refuses cart_changed = Refuses-raise ChargeResult cart_changed
  no_answer-Refuses insufficient_stock = Refuses-raise ChargeResult insufficient_stock
  no_answer-Refuses circuit_open = Refuses-raise ChargeResult circuit_open
  no_answer-Refuses budget_exhausted = Refuses-raise ChargeResult budget_exhausted
  no_answer-Refuses deadline = Refuses-raise ChargeResult deadline
  no_answer-Refuses vanished = Refuses-raise ChargeResult vanished
  no_answer-Refuses other = Refuses-raise ChargeResult other

  pub settled_meanwhile-Uncharged :
      (live : Order) → Preserves Uncharged (settled_meanwhile ports c live)
  unfolding settled_meanwhile
  settled_meanwhile-Uncharged live =
      Preserves-then Uncharged (note_paid >> call mop) (pure (live, false))
        (Preserves-then Uncharged note_paid (call mop)
          (Preserves-then Uncharged (assign settle) (call keep) (λ f u. u) (λ f u. u)) (λ f u. u))
        (Preserves-pure Uncharged {A = Answer} (live, false))
    where
      settle : Frame W → Frame W
      settle f = record f { settled_paid = true }

      keep : Call W (Unit {0})
      keep = remember ports c.user_id c.key c.body_hash live

      mop : Call W (Unit {0})
      mop = clear_basket_if_replay_mop_up ports c.user_id live.items

      note_paid : Exec Error (Frame W) (Unit {0})
      note_paid = assign settle >> call keep

  reserve_late-Uncharged : (e : Error) → Preserves Uncharged (reserve_late ports c e)
  unfolding reserve_late
  reserve_late-Uncharged e =
      Preserves-if Uncharged (is_timeout e) (undo >> conflict reservation_timed_out) (raise e)
        (Preserves-then Uncharged undo (conflict reservation_timed_out)
          (Preserves-then Uncharged (assign mark) (call settle) (λ f u. u) (λ f u. u))
          (Preserves-raise Uncharged (Unit {0}) (order_state_conflict reservation_timed_out)))
        (Preserves-raise Uncharged (Unit {0}) e)
    where
      mark : Frame W → Frame W
      mark f = record f { compensated = true }

      settle : Call W (Unit {0})
      settle = or_else tt (compensate_after_cancel ports c.order_id)

      undo : Exec Error (Frame W) (Unit {0})
      undo = assign mark >> call settle

  -- The drive up to the last look at the order.
  abbrev pub before_charge : Exec Error (Frame W) (Option Order)
  unfolding reserve_late
  before_charge =
      log ports c Step.reserve StepStatus.started
      >> catch (call (ports.reserve_many (sku_lines ports c) c.order_id)) (reserve_late ports c)
      >> log ports c Step.reserve StepStatus.completed
      >> log ports c Step.charge StepStatus.started
      >> call (ports.get_order c.order_id)

  pub before_charge-Uncharged : Preserves Uncharged before_charge
  unfolding reserve_late
  before_charge-Uncharged =
      Preserves-then Uncharged to_charge (call (ports.get_order c.order_id))
        (Preserves-then Uncharged reserved (log ports c Step.charge StepStatus.started)
          (Preserves-then Uncharged reserve (log ports c Step.reserve StepStatus.completed)
            (Preserves-then Uncharged (log ports c Step.reserve StepStatus.started) held
              (log-Uncharged Step.reserve StepStatus.started)
              (Preserves-catch Uncharged hold (reserve_late ports c) (λ f u. u)
                reserve_late-Uncharged))
            (log-Uncharged Step.reserve StepStatus.completed))
          (log-Uncharged Step.charge StepStatus.started))
        (call-Uncharged (ports.get_order c.order_id))
    where
      hold : Exec Error (Frame W) (Unit {0})
      hold = call (ports.reserve_many (sku_lines ports c) c.order_id)

      held : Exec Error (Frame W) (Unit {0})
      held = catch hold (reserve_late ports c)

      reserve : Exec Error (Frame W) (Unit {0})
      reserve = log ports c Step.reserve StepStatus.started >> held

      reserved : Exec Error (Frame W) (Unit {0})
      reserved = reserve >> log ports c Step.reserve StepStatus.completed

      to_charge : Exec Error (Frame W) (Unit {0})
      to_charge = reserved >> log ports c Step.charge StepStatus.started
