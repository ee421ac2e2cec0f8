-- ===== src/Orders/Saga/Settling.antt =====
-- The frame of `_drive` and its part after the charge: commit, mark paid, or return the money
-- (src/orders/application/checkout_saga.py). The local flags stand beside the world, so that the
-- handlers see them; the labels of metrics are left out.
use scalable_ecommerce_backe.Prelude.{
  ℕ, ◌+◌, ◌*◌, if◌then◌else◌, Bool, true, Option, none, some, List, [], ◌∷◌, length, ok, Exec, pure,
  raise, ◌>>=◌, ◌>>◌,
}
use scalable_ecommerce_backe.Orders.Model.{
  OrderStatus, OrderItem, Order, Step, StepStatus, order_placed_outbox, same_status,
}
use scalable_ecommerce_backe.Orders.Saga.Ports.{
  Reason, commit_timed_out, stock_not_committed, cancelled_after_charge, Error,
  order_state_conflict, vanished, Call, Ports, is_timeout, catch,
}
use scalable_ecommerce_backe.Orders.Saga.Undo.{refund_orphaned_charge, commit_holds}
use scalable_ecommerce_backe.Orders.Saga.Basket.{remember, consume_basket}

-- `_total`
abbrev pub total : List OrderItem → ℕ
total [] = 0
total (l ∷ lines) = l.unit_price * l.quantity + total lines

-- The world, and the locals of the frame.
pub record Frame (W : Type 0) : Type 0 where
  pub world : W
  pub charged : Bool
  pub charge_uncertain : Bool
  pub compensated : Bool
  pub settled_paid : Bool

abbrev pub Answer : Type 0
Answer = Order × Bool

-- What the frame keeps of a checkout: its order, its buyer and key, the token, the lines, the hash.
pub record Checkout : Type 0 where
  pub order_id : ℕ
  pub user_id : ℕ
  pub key : ℕ
  pub token : ℕ
  pub lines : List OrderItem
  pub body_hash : ℕ

abbrev pub conflict : {S A : Type 0} → Reason → Exec Error S A
conflict r = raise (order_state_conflict r)

module _ {W : Type 0} where
  -- An await of a port.
  abbrev pub call : {A : Type 0} → Call W A → Exec Error (Frame W) A
  call m f = ((m f.world).0, record f { world = (m f.world).1 })

  abbrev pub assign : (Frame W → Frame W) → Exec Error (Frame W) (Unit {0})
  assign set f = (ok tt, set f)

module _ {W : Type 0} (ports : Ports W) (c : Checkout) where
  abbrev pub log : Step → StepStatus → Exec Error (Frame W) (Unit {0})
  log step status = call (ports.log_saga_step c.order_id step status)

  -- The basket and the replay record after a paid order.
  unfoldable pub finish : Order → Exec Error (Frame W) Answer
  finish paid =
      (if same_status paid.status OrderStatus.paid
        then call (consume_basket ports c.user_id c.lines)
          >> call (remember ports c.user_id c.key c.body_hash paid)
        else pure tt)
      >> pure (paid, true)

  -- The charge of an order that died is returned; the answer says how that went.
  unfoldable pub return_money : {A : Type 0} → Exec Error (Frame W) A
  return_money = call (refund_orphaned_charge ports c.order_id c.user_id c.key) >>= λ outcome.
      conflict (cancelled_after_charge outcome)

  unfoldable pub lost_flip : Option Order → Exec Error (Frame W) Answer
  unfolding finish return_money
  lost_flip none = raise vanished
  lost_flip (some settled) =
      if same_status settled.status OrderStatus.paid then finish settled else return_money

  unfoldable pub flipped : Option Order → Exec Error (Frame W) Answer
  unfolding finish lost_flip
  flipped (some paid) = log Step.mark_paid StepStatus.completed >> finish paid
  flipped none = call (ports.get_order c.order_id) >>= lost_flip

  unfoldable pub flip_paid : Option Order → Exec Error (Frame W) Answer
  unfolding flipped
  flip_paid none = raise vanished
  flip_paid (some order) =
      log Step.mark_paid StepStatus.started
      >> call (
          ports.transition_status c.order_id (OrderStatus.pending ∷ []) OrderStatus.paid
            (some (order_placed_outbox order)))
      >>= flipped

  unfoldable pub mark_paid : Exec Error (Frame W) Answer
  unfolding flip_paid
  mark_paid =
      log Step.commit StepStatus.completed >> call (ports.get_order c.order_id) >>= flip_paid

  -- Fewer holds were committed than the order has lines.
  abbrev pub dead_or_waiting : Option OrderStatus → Exec Error (Frame W) Answer
  dead_or_waiting none = conflict stock_not_committed
  dead_or_waiting (some status) =
      if same_status status OrderStatus.cancelled
      then return_money
      else conflict stock_not_committed

  unfoldable pub shortfall : Exec Error (Frame W) Answer
  unfolding return_money
  shortfall =
      log Step.commit StepStatus.shortfall
      >> call (ports.get_order_status c.order_id)
      >>= dead_or_waiting

  -- The commit, tried twice where it times out, and counted after that.
  abbrev pub commit_once : (Error → Exec Error (Frame W) ℕ) → Exec Error (Frame W) ℕ
  commit_once late = catch (call (ports.commit_for_order c.order_id (length c.lines))) late

  abbrev pub when_late : Exec Error (Frame W) ℕ → Error → Exec Error (Frame W) ℕ
  when_late again e = if is_timeout e then again else raise e

  abbrev pub try_commit : Exec Error (Frame W) ℕ
  try_commit =
      log Step.commit StepStatus.started
      >> commit_once (when_late (commit_once (when_late (conflict commit_timed_out))))

  unfoldable pub commit : Exec Error (Frame W) Answer
  unfolding mark_paid shortfall
  commit = try_commit >> call (commit_holds ports c.order_id (length c.lines)) >>= λ committed.
      if committed then mark_paid else shortfall
