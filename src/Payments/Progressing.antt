-- ===== src/Payments/Progressing.antt =====
-- The rows only make progress where src/payments/adapters/db/repository.py writes them.
use scalable_ecommerce_backe.Prelude.{
  ℕ, ◌+◌, ◌<◌, Bool, Option, none, some, List, [], ◌∷◌, ◌++◌, All, arith, ok,
}
use Prim.Native.String.{String}
use scalable_ecommerce_backe.Payments.Model.{
  PaymentStatus, Payment, EventType, payment_succeeded, payment_failed, payment_refunded,
}
use scalable_ecommerce_backe.Payments.Repository.{
  get, get_by_key, update, returning, message, set_outcome, run_hook, transition, transition_body,
  insert_pending, create_pending,
}
use scalable_ecommerce_backe.Payments.Progress.{
  Allowed, Advances-refl, Progress, Progress-refl, Progress-trans, Progress-IsFresh, IsFresh, Safe,
  Safe-bind, Safe-transaction,
}
use scalable_ecommerce_backe.Payments.Rows.{update-Advances, update-All, get_fresh}
use scalable_ecommerce_backe.Payments.Rule.{Rule}

run_hook-Safe : (hook : Option (ℕ → Bool)) (order_id : ℕ) → Safe (run_hook hook order_id)
unfolding IsFresh
run_hook-Safe none order_id db f = Progress-refl db f
run_hook-Safe (some hook) order_id db f = record {
  advances = λ id. Advances-refl (get id db.payments);
  fresh = f;
}

module _ (event : EventType) (id : ℕ) (expect to_status : PaymentStatus) (ref : Option ℕ)
    (reason : Option String) (allowed : Allowed expect to_status) where
  transition_body-Safe :
      (hook : Option (ℕ → Bool)) (row : Option Payment)
      → Safe (transition_body hook event id (set_outcome to_status ref reason) expect row)
  unfolding transition_body IsFresh
  transition_body-Safe hook none db f = Progress-refl db f
  transition_body-Safe hook (some row) db f = Progress-trans flipped (
      Safe-bind (run_hook hook row.order_id) (λ _ db'. (ok (get id db'.payments), db'))
        (run_hook-Safe hook row.order_id) (λ _ db' f'. Progress-refl db' f') _ flipped.fresh)
    where
      flipped : Progress db (record db {
        payments = update id expect (set_outcome to_status ref reason) db.payments;
        outbox = db.outbox ++ message event row ∷ [];
      })
      flipped = record {
        advances = λ j. update-Advances id expect to_status ref reason allowed j db.payments;
        fresh = update-All id expect to_status ref reason db.next_id db.payments f;
      }

  pub transition-Safe :
      (hook : Option (ℕ → Bool)) → Safe (transition hook event id expect to_status ref reason)
  unfolding transition
  transition-Safe hook db f =
      let set = set_outcome to_status ref reason in
      let body = transition_body hook event id set expect (returning id expect set db.payments) in
      Safe-transaction body db f
        (transition_body-Safe hook (returning id expect set db.payments) db f)

fresh_more : (n : ℕ) (ps : List Payment) → All (λ p. p.id < n) ps → All (λ p. p.id < n + 1) ps
fresh_more n [] a = a
fresh_more n (p ∷ ps) a = (let h = a.0 in omega arith, fresh_more n ps a.1)

insert_pending-Safe :
    (now order_id key amount : ℕ) (there : Option Payment)
    → Safe (insert_pending now order_id key amount there)
unfolding insert_pending IsFresh
insert_pending-Safe now order_id key amount (some existing) db f = Progress-refl db f
insert_pending-Safe now order_id key amount none db f = record {
  advances = λ j. get_fresh j _ db.payments f;
  fresh = (omega arith, fresh_more db.next_id db.payments f);
}

pub create_pending-Safe :
    (now order_id key amount : ℕ) → Safe (create_pending now order_id key amount)
unfolding create_pending
create_pending-Safe now order_id key amount db f =
    insert_pending-Safe now order_id key amount (get_by_key key db.payments) db f

-- So progress is a rule that every operation follows.
abbrev pub progress_rule : Option (ℕ → Bool) → Rule
progress_rule hook = record {
  hook = hook;
  Start = IsFresh;
  Keeps = Progress;
  still = Progress-refl;
  joined = λ a b c p q. Progress-trans {a = a} {b = b} {c = c} p q;
  start = λ a b p. Progress-IsFresh {a = a} {b = b} p;
  made = create_pending-Safe;
  succeeded = λ id ref.
      transition-Safe payment_succeeded id PaymentStatus.pending PaymentStatus.succeeded ref none tt
        hook;
  failed = λ id ref reason.
      transition-Safe payment_failed id PaymentStatus.pending PaymentStatus.failed ref reason tt
        none;
  refunded = λ id ref.
      transition-Safe payment_refunded id PaymentStatus.succeeded PaymentStatus.refunded ref none tt
        none;
}
