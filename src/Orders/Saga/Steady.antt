-- ===== src/Orders/Saga/Steady.antt =====
-- The calls that `_drive` makes on its one successful path, once the charge is taken: the journal, the
-- commit, the flip to paid, the basket and the replay record (src/orders/application/checkout_saga.py).
-- No refund, restock, release, cancellation or compensation is among them. The predicate K on the
-- frame is any that a call keeps when it keeps I on the world.
use scalable_ecommerce_backe.Prelude.{
  ℕ, leb, if◌then◌else◌, true, some, List, [], ◌∷◌, length, Exec, pure, raise, ◌>>◌,
}
use scalable_ecommerce_backe.Orders.Model.{
  OrderStatus, OrderItem, Order, Step, StepStatus, OrderPlaced, same_status,
}
use scalable_ecommerce_backe.Orders.Saga.Ports.{
  Error, order_state_conflict, commit_timed_out, Call, Ports, is_timeout,
}
use scalable_ecommerce_backe.Orders.Saga.Undo.{commit_holds}
use scalable_ecommerce_backe.Orders.Saga.Basket.{remember, consume_basket}
use scalable_ecommerce_backe.Orders.Saga.Settling.{
  Frame, Answer, Checkout, conflict, call, log, finish, commit_once, when_late, try_commit,
}
use scalable_ecommerce_backe.Orders.Saga.Preserves.{
  Preserves, Preserves-pure, Preserves-raise, Preserves-bind, Preserves-then, Preserves-catch,
  Preserves-if, Preserves-or_else,
}

-- A property of the world that no call of the successful path breaks.
pub record Steady {W : Type 0} (ports : Ports W) (I : W → Type 0) : Type 0 where
  pub get_order : (id : ℕ) → Preserves I (ports.get_order id)
  pub log_saga_step :
      (id : ℕ) (step : Step) (status : StepStatus)
      → Preserves I (ports.log_saga_step id step status)
  pub mark_paid :
      (id : ℕ) (message : OrderPlaced)
      → Preserves I
          (ports.transition_status id (OrderStatus.pending ∷ []) OrderStatus.paid (some message))
  pub commit_for_order : (id expected : ℕ) → Preserves I (ports.commit_for_order id expected)
  pub consume : (user_id : ℕ) (lines : List OrderItem) → Preserves I (ports.consume user_id lines)
  pub put : (user_id key hash : ℕ) (o : Order) → Preserves I (ports.put user_id key hash o)

module _ {W : Type 0} (ports : Ports W) (I : W → Type 0) (steady : Steady ports I) where
  pub commit_holds-Preserves : (id expected : ℕ) → Preserves I (commit_holds ports id expected)
  unfolding commit_holds
  commit_holds-Preserves id expected =
      Preserves-bind I (ports.commit_for_order id expected) (λ n. pure (leb expected n))
        (steady.commit_for_order id expected) (λ n. Preserves-pure I (leb expected n))

  module _ (K : Frame W → Type 0)
      (lift : (f : Frame W) (w : W) → (I f.world → I w) → K f → K (record f { world = w }))
      (c : Checkout) where
    pub call_keeps : {A : Type 0} (m : Call W A) → Preserves I m → Preserves K (call m)
    call_keeps m pm f k = lift f (m f.world).1 (pm f.world) k

    pub log-Preserves : (step : Step) (status : StepStatus) → Preserves K (log ports c step status)
    log-Preserves step status =
        call_keeps (ports.log_saga_step c.order_id step status)
          (steady.log_saga_step c.order_id step status)

    pub finish-Preserves : (paid : Order) → Preserves K (finish ports c paid)
    unfolding finish remember consume_basket
    finish-Preserves paid =
        Preserves-then K (if same_status paid.status OrderStatus.paid then save else pure tt)
          (pure (paid, true))
          (Preserves-if K (same_status paid.status OrderStatus.paid) save (pure tt)
            (Preserves-then K (call (consume_basket ports c.user_id c.lines))
              (call (remember ports c.user_id c.key c.body_hash paid))
              (call_keeps (consume_basket ports c.user_id c.lines) (
                Preserves-or_else I tt (ports.consume c.user_id c.lines)
                  (steady.consume c.user_id c.lines)))
              (call_keeps (remember ports c.user_id c.key c.body_hash paid) (
                Preserves-or_else I tt (ports.put c.user_id c.key c.body_hash paid)
                  (steady.put c.user_id c.key c.body_hash paid))))
            (Preserves-pure K tt))
          (Preserves-pure K {A = Answer} (paid, true))
      where
        save : Exec Error (Frame W) (Unit {0})
        save =
            call (consume_basket ports c.user_id c.lines)
            >> call (remember ports c.user_id c.key c.body_hash paid)

    commit_once-Preserves :
        (late : Error → Exec Error (Frame W) ℕ)
        → ((e : Error) → Preserves K (late e))
        → Preserves K (commit_once ports c late)
    commit_once-Preserves late pl =
        Preserves-catch K (call (ports.commit_for_order c.order_id (length c.lines))) late
          (call_keeps (ports.commit_for_order c.order_id (length c.lines))
            (steady.commit_for_order c.order_id (length c.lines)))
          pl

    when_late-Preserves :
        (again : Exec Error (Frame W) ℕ)
        → Preserves K again
        → (e : Error) → Preserves K (when_late ports c again e)
    when_late-Preserves again pa e =
        Preserves-if K (is_timeout e) again (raise e) pa (Preserves-raise K ℕ e)

    pub try_commit-Preserves : Preserves K (try_commit ports c)
    try_commit-Preserves =
        Preserves-then K (log ports c Step.commit StepStatus.started)
          (commit_once ports c (when_late ports c second))
          (log-Preserves Step.commit StepStatus.started)
          (commit_once-Preserves (when_late ports c second) (
            when_late-Preserves second (
              commit_once-Preserves (when_late ports c (conflict commit_timed_out)) (
                when_late-Preserves (conflict commit_timed_out)
                  (Preserves-raise K ℕ (order_state_conflict commit_timed_out))))))
      where
        second : Exec Error (Frame W) ℕ
        second = commit_once ports c (when_late ports c (conflict commit_timed_out))
