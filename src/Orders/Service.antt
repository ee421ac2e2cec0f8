-- ===== src/Orders/Service.antt =====
-- `OrdersService` (src/orders/application/service.py): the checked reads and `cancel_order`. The
-- holds are on the same session; `release` is their `release_for_order`. After each of a
-- cancellation's reads and before its transaction other sessions may commit.
use scalable_ecommerce_backe.Prelude.{
  ℕ, ◌==◌, if◌then◌else◌, Bool, true, false, not, ◌&&◌, Option, none, some, List, [], ◌∷◌, Exec,
  pure, raise, ◌>>=◌, ◌>>◌,
}
use scalable_ecommerce_backe.Shared.UnitOfWork.{transaction}
use scalable_ecommerce_backe.Orders.Model.{
  OrderStatus, Order, Step, StepStatus, SagaLog, Db, Error, state_conflict, not_owner, vanished,
  Action, same_status,
}
use scalable_ecommerce_backe.Orders.Repository.{
  PaymentGuard, get_order, transition_status, latest_saga_step, list_saga_steps, log_saga_step,
}

-- A session with the tables of the orders and those of the stock.
pub record Session (H : Type 0) : Type 0 where
  pub orders : Db
  pub stock : H

-- A charge that is in flight, has landed or is undecided.
abbrev pub in_progress : Option StepStatus → Bool
in_progress (some StepStatus.started) = true
in_progress (some StepStatus.completed) = true
in_progress (some StepStatus.unknown) = true
in_progress _ = false

module _ {H : Type 0} where
  abbrev pub on_orders : {A : Type 0} → Action A → Exec Error (Session H) A
  on_orders m s = ((m s.orders).0, record s { orders = (m s.orders).1 })

  abbrev pub on_stock : {A : Type 0} → Exec Error H A → Exec Error (Session H) A
  on_stock m s = ((m s.stock).0, record s { stock = (m s.stock).1 })

  -- `_assert_owner`
  abbrev pub assert_owner : ℕ → ℕ → Bool → Exec Error (Session H) (Unit {0})
  assert_owner owner_id caller_id is_admin =
      if not (owner_id == caller_id) && not is_admin then raise not_owner else pure tt

  module _ (release : ℕ → Exec Error H ℕ) (now : ℕ) (guard : PaymentGuard) (order_id : ℕ) where
    abbrev pub settled : Option Order → Exec Error (Session H) (Option Order)
    settled none = raise state_conflict
    settled (some final) =
        if same_status final.status OrderStatus.cancelled
        then pure (some final)
        else raise state_conflict

    abbrev pub re_read : Option Order → Exec Error (Session H) (Option Order)
    re_read none = raise vanished
    re_read (some final) = pure (some final)

    -- The flip decides; the release and the journal row follow in the same transaction.
    abbrev pub after_flip : Option Order → Exec Error (Session H) (Option Order)
    after_flip none = on_orders (get_order order_id) >>= settled
    after_flip (some updated) =
        on_stock (release order_id)
        >> on_orders (log_saga_step now order_id Step.cancel StepStatus.completed)
        >> on_orders (get_order order_id)
        >>= re_read

    unfoldable pub cancel_pending : Exec Error (Session H) (Option Order)
    cancel_pending = transaction (
        on_orders (
          transition_status now guard order_id (OrderStatus.pending ∷ []) OrderStatus.cancelled
            none)
        >>= after_flip)

    abbrev pub unless_charged :
        (Session H → Session H) → Option StepStatus → Exec Error (Session H) (Option Order)
    unless_charged later state s =
        (if in_progress state then raise state_conflict else (λ t. cancel_pending (later t))) s

    -- `others` is what other sessions commit after the order was read, and `later` what they commit
    -- after the journal was.
    abbrev pub cancel_row :
        (Session H → Session H)
        → (Session H → Session H)
        → OrderStatus
        → Order
        → Exec Error (Session H) (Option Order)
    cancel_row others later OrderStatus.cancelled row =
        λ s. (transaction (on_stock (release order_id)) >> pure (some row)) (others s)
    cancel_row others later OrderStatus.pending row =
        λ s. (on_orders (latest_saga_step order_id Step.charge) >>= unless_charged later) (others s)
    cancel_row others later OrderStatus.paid row = raise state_conflict
    cancel_row others later OrderStatus.shipped row = raise state_conflict

    abbrev pub cancel_found :
        (Session H → Session H)
        → (Session H → Session H)
        → ℕ
        → Bool
        → Option Order
        → Exec Error (Session H) (Option Order)
    cancel_found others later user_id is_admin none = pure none
    cancel_found others later user_id is_admin (some row) =
        assert_owner row.user_id user_id is_admin >> cancel_row others later row.status row

    unfoldable pub cancel_order :
        (Session H → Session H)
        → (Session H → Session H)
        → ℕ
        → Bool
        → Exec Error (Session H) (Option Order)
    unfolding cancel_pending
    cancel_order others later user_id is_admin =
        on_orders (get_order order_id) >>= cancel_found others later user_id is_admin

  -- `get_order_detail`
  abbrev pub if_owned : ℕ → Bool → Option Order → Exec Error (Session H) (Option Order)
  if_owned user_id is_admin none = pure none
  if_owned user_id is_admin (some row) =
      assert_owner row.user_id user_id is_admin >> pure (some row)

  unfoldable pub get_order_detail : ℕ → ℕ → Bool → Exec Error (Session H) (Option Order)
  get_order_detail user_id order_id is_admin =
      on_orders (get_order order_id) >>= if_owned user_id is_admin

  -- `get_execution`
  abbrev pub with_steps :
      Order → List SagaLog → Exec Error (Session H) (Option (Order × List SagaLog))
  with_steps row steps = pure (some (row, steps))

  abbrev pub execution_of :
      ℕ → ℕ → Bool → Option Order → Exec Error (Session H) (Option (Order × List SagaLog))
  execution_of user_id order_id is_admin none = pure none
  execution_of user_id order_id is_admin (some row) =
      assert_owner row.user_id user_id is_admin
      >> on_orders (list_saga_steps order_id)
      >>= with_steps row

  unfoldable pub get_execution :
      ℕ → ℕ → Bool → Exec Error (Session H) (Option (Order × List SagaLog))
  get_execution user_id order_id is_admin =
      on_orders (get_order order_id) >>= execution_of user_id order_id is_admin
