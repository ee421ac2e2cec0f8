-- ===== src/Orders/Decided.antt =====
-- `cancel_order` decides (src/orders/application/service.py).
use scalable_ecommerce_backe.Prelude.{
  ℕ, ◌==◌, ◌≡◌, refl, sym, ap, subst, if◌then◌else◌, Bool, true, false, not, ◌&&◌, Option, none,
  some, ok, err, Result, Exec, pure, raise, ◌>>=◌, ◌>>◌, ◌⊎◌, inl, inr,
}
use scalable_ecommerce_backe.Shared.UnitOfWork.{transaction}
use scalable_ecommerce_backe.Shared.Outcomes.{
  ok_inj, Leaves, Leaves-raise, Leaves-bind, Leaves-pure, Leaves-transaction, transaction_undone,
}
use scalable_ecommerce_backe.Orders.Model.{
  is_cancelled, OrderStatus, Order, Step, StepStatus, Error, state_conflict, not_owner, vanished,
  same_status,
}
use scalable_ecommerce_backe.Orders.Repository.{
  PaymentGuard, find, get_order, transition_status, newest, step_status_of, latest_saga_step,
  log_saga_step,
}
use scalable_ecommerce_backe.Orders.Service.{
  Session, in_progress, on_orders, on_stock, settled, re_read, after_flip, cancel_pending,
  unless_charged, cancel_row, cancel_found, cancel_order,
}
use scalable_ecommerce_backe.Orders.Cancelled.{WhenFlipped, only_pending, transition-WhenFlipped}

module _ {H : Type 0} (release : ℕ → Exec Error H ℕ) (now : ℕ) (guard : PaymentGuard) (id : ℕ) where
  abbrev IsDead : Session H → Type 0
  IsDead s = is_cancelled (find id s.orders.orders) ≡ true

  -- The answer is the order's row, which is cancelled.
  abbrev IsCancelled : Option Order → Session H → Type 0
  IsCancelled none s = ⊥
  IsCancelled (some o) s = (find id s.orders.orders ≡ some o) × (is_cancelled (some o) ≡ true)

  abbrev IsFound : Option Order → Session H → Type 0
  IsFound x s = find id s.orders.orders ≡ x

  get_order-IsFound : (s : Session H) → Leaves IsFound (on_orders (get_order id)) s
  unfolding get_order
  get_order-IsFound s x h = ok_inj (find id s.orders.orders) x h

  settled-IsCancelled :
      (x : Option Order) (s : Session H)
      → IsFound x s
      → Leaves IsCancelled (settled release now guard id x) s
  settled-IsCancelled none s p = Leaves-raise IsCancelled state_conflict s
  settled-IsCancelled (some final) s p = after (same_status final.status OrderStatus.cancelled) refl
    where
      after :
          (b : Bool)
          → is_cancelled (some final) ≡ b
          → Leaves IsCancelled (if b then pure (some final) else raise state_conflict) s
      after true d = Leaves-pure IsCancelled (some final) s (p, d)
      after false d = Leaves-raise IsCancelled state_conflict s

  re_read-IsCancelled :
      (x : Option Order) (s : Session H)
      → IsFound x s × IsDead s
      → Leaves IsCancelled (re_read release now guard id x) s
  re_read-IsCancelled none s p = Leaves-raise IsCancelled vanished s
  re_read-IsCancelled (some final) s (p, d) =
      Leaves-pure IsCancelled (some final) s (p, subst (λ x. is_cancelled x ≡ true) p d)

  after_flip-IsCancelled :
      (x : Option Order) (s : Session H)
      → WhenFlipped id x s.orders
      → Leaves IsCancelled (after_flip release now guard id x) s
  unfolding get_order log_saga_step
  after_flip-IsCancelled none s p =
      Leaves-bind IsFound IsCancelled (on_orders (get_order id)) (settled release now guard id) s
        (get_order-IsFound s) settled-IsCancelled
  after_flip-IsCancelled (some u) s d =
      Leaves-bind FoundDead IsCancelled (tidy >> on_orders (get_order id))
        (re_read release now guard id) s
        (Leaves-bind StillDead FoundDead tidy (λ _. on_orders (get_order id)) s tidied
          (λ a t k x h. (get_order-IsFound t x h, same t k)))
        re_read-IsCancelled
    where
      FoundDead : Option Order → Session H → Type 0
      FoundDead x t = IsFound x t × IsDead t

      StillDead : Unit {0} → Session H → Type 0
      StillDead a t = IsDead t

      tidy : Exec Error (Session H) (Unit {0})
      tidy =
          on_stock (release id) >> on_orders (log_saga_step now id Step.cancel StepStatus.completed)

      marked :
          (t : Session H)
          → IsDead t
          → IsDead (on_orders (log_saga_step now id Step.cancel StepStatus.completed) t).1
      marked t k = k

      same : (t : Session H) → IsDead t → IsDead (on_orders (get_order id) t).1
      same t k = k

      tidied : Leaves StillDead tidy s
      tidied =
          Leaves-bind (λ _ t. IsDead t) StillDead (on_stock (release id))
            (λ _. on_orders (log_saga_step now id Step.cancel StepStatus.completed)) s (λ _ _. d)
            (λ _ t k _ _. marked t k)

  cancel_pending-IsCancelled :
      (s : Session H) → Leaves IsCancelled (cancel_pending release now guard id) s
  unfolding cancel_pending
  cancel_pending-IsCancelled s =
      Leaves-transaction IsCancelled (flip >>= after_flip release now guard id) s (
        Leaves-bind (λ x t. WhenFlipped id x t.orders) IsCancelled flip
          (after_flip release now guard id) s (transition-WhenFlipped now guard id s.orders)
          after_flip-IsCancelled)
    where
      flip : Exec Error (Session H) (Option Order)
      flip = on_orders (transition_status now guard id only_pending OrderStatus.cancelled none)

  -- A raise leaves the tables as they were, or as other sessions made them; an order that is not
  -- there leaves them too; an answer is a cancelled row: the one that is stored, or the one that was
  -- read at first, and then only the holds are released.
  abbrev pub IsDecided :
      (Session H → Session H)
      → (Session H → Session H)
      → Session H
      → Result Error (Option Order) × Session H
      → Type 0
  IsDecided others later s (err e, t) = (t ≡ s) ⊎ ((t ≡ others s) ⊎ (t ≡ later (others s)))
  IsDecided others later s (ok none, t) = t ≡ s
  IsDecided others later s (ok (some o), t) =
      (is_cancelled (some o) ≡ true)
      × ((find id t.orders.orders ≡ some o)
          ⊎ ((find id s.orders.orders ≡ some o)
              × (t ≡ record (others s) { stock = (release id (others s).stock).1 })))

  module _ (others later : Session H → Session H) (s : Session H) where
    won :
        (r : Result Error (Option Order) × Session H)
        → ((e : Error) → r.0 ≡ err e → r.1 ≡ later (others s))
        → ((x : Option Order) → r.0 ≡ ok x → IsCancelled x r.1)
        → IsDecided others later s r
    won (err e, t) p q = inr (inr (p e refl))
    won (ok none, t) p q = absurd (q none refl)
    won (ok (some o), t) p q = let row = q (some o) refl in (row.1, inl row.0)

    pending-IsDecided :
        IsDecided others later s (cancel_pending release now guard id (later (others s)))
    unfolding cancel_pending
    pending-IsDecided =
        won (cancel_pending release now guard id (later (others s)))
          (transaction_undone
            (on_orders (transition_status now guard id only_pending OrderStatus.cancelled none)
              >>= after_flip release now guard id)
            (later (others s)))
          (cancel_pending-IsCancelled (later (others s)))

    unless_charged-IsDecided :
        (state : Option StepStatus)
        → IsDecided others later s (unless_charged release now guard id later state (others s))
    unfolding cancel_pending
    unless_charged-IsDecided state = after (in_progress state)
      where
        after :
            (b : Bool)
            → IsDecided others later s (
                (if b
                    then raise state_conflict
                    else (λ t. cancel_pending release now guard id (later t)))
                  (others s))
        after true = inr (inl refl)
        after false = pending-IsDecided

    row-IsDecided :
        (status : OrderStatus) (row : Order)
        → row.status ≡ status
        → find id s.orders.orders ≡ some row
        → IsDecided others later s (cancel_row release now guard id others later status row s)
    unfolding latest_saga_step cancel_pending
    row-IsDecided OrderStatus.paid row h p = inl refl
    row-IsDecided OrderStatus.shipped row h p = inl refl
    row-IsDecided OrderStatus.pending row h p =
        unless_charged-IsDecided (step_status_of (newest id Step.charge (others s).orders.saga_log))
    row-IsDecided OrderStatus.cancelled row h p = cleaned (release id (others s).stock) refl
      where
        cleaned :
            (r : Result Error ℕ × H)
            → r ≡ release id (others s).stock
            → IsDecided others later s (
                ◌>>=◌
                  (transaction (on_stock {A = ℕ} (λ (_ : H). r)))
                  (λ _. pure (some row))
                  (others s))
        cleaned (err e, t) k = inr (inl refl)
        cleaned (ok n, t) k = (
          subst (λ x. same_status x OrderStatus.cancelled ≡ true) (sym h) refl,
          inr (p, ap (λ r. record (others s) { stock = r.1 }) k),
        )

    found-IsDecided :
        (user_id : ℕ) (is_admin : Bool) (x : Option Order)
        → find id s.orders.orders ≡ x
        → IsDecided others later s
            (cancel_found release now guard id others later user_id is_admin x s)
    unfolding latest_saga_step cancel_pending
    found-IsDecided user_id is_admin none p = refl
    found-IsDecided user_id is_admin (some row) p =
        owned (not (row.user_id == user_id) && not is_admin)
      where
        owned :
            (b : Bool)
            → IsDecided others later s (
                ◌>>=◌
                  (if b then raise not_owner else pure tt)
                  (λ (_ : Unit {0}). cancel_row release now guard id others later row.status row)
                  s)
        owned true = inl refl
        owned false = row-IsDecided row.status row refl p

    -- Whatever other sessions commit after each of its reads and before its transaction, a
    -- cancellation that raises leaves the tables of the orders and of the stock as they were or as
    -- those sessions left them; one of an order that is not there changes nothing; and one that
    -- answers an order answers a cancelled one: the row that is stored, or, where it read the order as
    -- cancelled, the row that it read, and then it only released the holds.
    pub cancel_order-IsDecided :
        (user_id : ℕ) (is_admin : Bool)
        → IsDecided others later s
            (cancel_order release now guard id others later user_id is_admin s)
    unfolding cancel_order get_order
    cancel_order-IsDecided user_id is_admin =
        found-IsDecided user_id is_admin (find id s.orders.orders) refl
