-- ===== src/Orders/Saga/Confirmed.antt =====
-- What a drive that answers a fresh paid checkout has done: `_drive` on its one successful path
-- (src/orders/application/checkout_saga.py).
use scalable_ecommerce_backe.Prelude.{
  ℕ, ◌≡◌, refl, subst, leb, if◌then◌else◌, Bool, true, false, Option, none, some, length, ok, err,
  Result, Exec, pure, ◌>>=◌, ◌>>◌,
}
use scalable_ecommerce_backe.Orders.Model.{OrderStatus, Order, Step, StepStatus}
use scalable_ecommerce_backe.Orders.Saga.Ports.{
  ChargeResult, Error, order_state_conflict, outcome_unknown, payment_refunded, declined,
  cancelled_meanwhile, Ports, catch,
}
use scalable_ecommerce_backe.Orders.Saga.Undo.{commit_holds}
use scalable_ecommerce_backe.Orders.Saga.Settling.{
  Frame, Answer, Checkout, conflict, call, assign, log, mark_paid, shortfall, try_commit, commit,
}
use scalable_ecommerce_backe.Orders.Saga.Drive.{
  take_charge, judge, no_answer, charge_of, pay, settled_meanwhile, by_status, charge_live, steps,
  on_error, drive_frame,
}
use scalable_ecommerce_backe.Orders.Saga.Steady.{
  Steady, log-Preserves, commit_holds-Preserves, try_commit-Preserves,
}
use scalable_ecommerce_backe.Orders.Saga.BeforeCharge.{before_charge}
use scalable_ecommerce_backe.Orders.Saga.Confirms.{
  Confirms, Confirms-raise, Confirms-bind, Confirms-after, Confirms-catch, Leaves-catch,
}
use scalable_ecommerce_backe.Shared.Outcomes.{err_ne_ok, ok_inj}
use scalable_ecommerce_backe.Orders.Saga.Marked.{mark_paid-Confirms}
use scalable_ecommerce_backe.Orders.Saga.Unanswered.{Taken, no_answer-Taken}
use scalable_ecommerce_backe.Orders.Saga.Refused.{
  give_up-Confirms, shortfall-Confirms, settled_meanwhile-Confirms, on_error-Confirms,
}

module _ {W : Type 0} (ports : Ports W) (Paid Committed : W → Type 0) (paid : Steady ports Paid)
    (held : Steady ports Committed) (c : Checkout) where
  abbrev Settled : Frame W → Type 0
  Settled f = Paid f.world × Committed f.world

  -- The world has Paid.
  abbrev Charged : Frame W → Type 0
  Charged f = Paid f.world

  module _
      (taken : (w : W)
        → (charge_of ports c w).0 ≡ ok ChargeResult.succeeded
        → Paid (charge_of ports c w).1)
      (committed : (w : W) (n : ℕ)
        → (ports.commit_for_order c.order_id (length c.lines) w).0 ≡ ok n
        → leb (length c.lines) n ≡ true
        → Committed (ports.commit_for_order c.order_id (length c.lines) w).1) where
    commit_holds-Settled :
        (w : W)
        → (commit_holds ports c.order_id (length c.lines) w).0 ≡ ok true
        → Committed (commit_holds ports c.order_id (length c.lines) w).1
    unfolding commit_holds
    commit_holds-Settled w =
        after (ports.commit_for_order c.order_id (length c.lines) w) (committed w)
      where
        after :
            (r : Result Error ℕ × W)
            → ((n : ℕ) → r.0 ≡ ok n → leb (length c.lines) n ≡ true → Committed r.1)
            → (◌>>=◌ (λ (_ : W). r) (λ n. pure (leb (length c.lines) n)) w).0 ≡ ok true
            → Committed (◌>>=◌ (λ (_ : W). r) (λ n. pure (leb (length c.lines) n)) w).1
        after (ok n, t) p h = p n refl (ok_inj (leb (length c.lines) n) true h)
        after (err e, t) p h = absurd (err_ne_ok e true h)

    commit-Confirms : (f : Frame W) → Charged f → Confirms Settled (commit ports c) f
    unfolding commit
    commit-Confirms f h =
        Confirms-bind Settled Enough (try_commit ports c >> count) last f enough last-Confirms
      where
        count : Exec Error (Frame W) Bool
        count = call (commit_holds ports c.order_id (length c.lines))

        last : Bool → Exec Error (Frame W) Answer
        last b = if b then mark_paid ports c else shortfall ports c

        Enough : Bool → Frame W → Type 0
        Enough b g = Charged g × (b ≡ true → Committed g.world)

        after :
            (r : Result Error ℕ × Frame W)
            → Charged r.1
            → (b : Bool) → (◌>>=◌ (λ (_ : Frame W). r) (λ _. count) f).0 ≡ ok b
            → Enough b (◌>>=◌ (λ (_ : Frame W). r) (λ _. count) f).1
        after (ok n, g) t b e = (
          commit_holds-Preserves ports Paid paid c.order_id (length c.lines) g.world t,
          λ q. commit_holds-Settled g.world (subst (λ x. (count g).0 ≡ ok x) q e),
        )
        after (err x, g) t b e = absurd (err_ne_ok x b e)

        enough :
            (b : Bool)
            → ((try_commit ports c >> count) f).0 ≡ ok b
            → Enough b ((try_commit ports c >> count) f).1
        enough =
            after (try_commit ports c f)
              (try_commit-Preserves ports Paid paid Charged (λ f w p. p) c f h)

        last-Confirms : (b : Bool) (g : Frame W) → Enough b g → Confirms Settled (last b) g
        last-Confirms true g (t, q) =
            mark_paid-Confirms ports Paid Committed paid held c g (t, q refl)
        last-Confirms false g e = (shortfall-Confirms ports Settled c) g

    judge-Confirms :
        (charge : ChargeResult) (f : Frame W)
        → (Taken ports Paid c) charge f
        → Confirms Settled (judge ports c charge) f
    unfolding judge
    judge-Confirms ChargeResult.refunded f t =
        (give_up-Confirms ports Settled c) StepStatus.refunded payment_refunded f
    judge-Confirms ChargeResult.failed f t =
        (give_up-Confirms ports Settled c) StepStatus.failed declined f
    judge-Confirms ChargeResult.pending f t =
        Confirms-after Settled (log ports c Step.charge StepStatus.unknown)
          (λ _. conflict outcome_unknown)
          (λ _ g. Confirms-raise Settled (order_state_conflict outcome_unknown) g) f
    judge-Confirms ChargeResult.succeeded f t =
        Confirms-bind Settled (λ _. Charged) start (λ _. commit ports c) f
          (λ _ _.
            log-Preserves ports Paid paid Charged (λ f w p. p) c Step.charge StepStatus.completed
              (take_charge ports c f) (t refl))
          (λ _. commit-Confirms)
      where
        start : Exec Error (Frame W) (Unit {0})
        start = assign (take_charge ports c) >> log ports c Step.charge StepStatus.completed

    pay-Confirms : (f : Frame W) → Confirms Settled (pay ports c) f
    unfolding pay
    pay-Confirms f =
        Confirms-bind Settled (Taken ports Paid c)
          (catch (call (charge_of ports c)) (no_answer ports c)) (judge ports c) f
          (Leaves-catch (Taken ports Paid c) (call (charge_of ports c)) (no_answer ports c) f
            (λ charge h s. taken f.world (subst (λ x. (charge_of ports c f.world).0 ≡ ok x) s h))
            (no_answer-Taken ports Paid c))
          judge-Confirms

    by_status-Confirms :
        (status : OrderStatus) (live : Order) (f : Frame W)
        → Confirms Settled (by_status ports c status live) f
    unfolding pay settled_meanwhile
    by_status-Confirms OrderStatus.paid live = (settled_meanwhile-Confirms ports Settled c) live
    by_status-Confirms OrderStatus.pending live = pay-Confirms
    by_status-Confirms OrderStatus.shipped live =
        Confirms-raise Settled (order_state_conflict cancelled_meanwhile)
    by_status-Confirms OrderStatus.cancelled live =
        Confirms-raise Settled (order_state_conflict cancelled_meanwhile)

    charge_live-Confirms :
        (live : Option Order) (f : Frame W) → Confirms Settled (charge_live ports c live) f
    unfolding charge_live
    charge_live-Confirms none = Confirms-raise Settled (order_state_conflict cancelled_meanwhile)
    charge_live-Confirms (some live) = by_status-Confirms live.status live

    steps-Confirms : (f : Frame W) → Confirms Settled (steps ports c) f
    unfolding steps
    steps-Confirms =
        Confirms-after Settled (before_charge ports c) (charge_live ports c) charge_live-Confirms

    pub drive_frame-Confirms : (f : Frame W) → Confirms Settled (drive_frame ports c) f
    unfolding drive_frame
    drive_frame-Confirms f =
        Confirms-catch Settled (steps ports c) (on_error ports c) f (steps-Confirms f)
          (on_error-Confirms ports Settled c)
