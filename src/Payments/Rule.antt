-- ===== src/Payments/Rule.antt =====
-- What a property of the changes that the payments module makes must satisfy, so that every
-- operation has it: it holds of no change, of two in a row, of a pending row made and of the three
-- transitions that the code asks for. `hook` is the hook of a succeeded charge.
use Prim.Native.String.{String}
use scalable_ecommerce_backe.Prelude.{
  ℕ, if◌then◌else◌, Bool, true, false, Option, none, ok, err, Result, pure, raise, ◌>>=◌,
}
use scalable_ecommerce_backe.Shared.UnitOfWork.{transaction}
use scalable_ecommerce_backe.Payments.Model.{
  PaymentStatus, payment_succeeded, payment_failed, payment_refunded, Db, Error, Action,
}
use scalable_ecommerce_backe.Payments.Repository.{transition, create_pending}

pub record Rule : Type 1 where
  pub hook : Option (ℕ → Bool)
  pub Start : Db → Type 0
  pub Keeps : Db → Db → Type 0
  pub still : (db : Db) → Start db → Keeps db db
  pub joined : (a b c : Db) → Keeps a b → Keeps b c → Keeps a c
  pub start : (a b : Db) → Keeps a b → Start b
  pub made :
      (now order_id key amount : ℕ) (db : Db)
      → Start db
      → Keeps db (create_pending now order_id key amount db).1
  pub succeeded :
      (id : ℕ) (ref : Option ℕ) (db : Db)
      → Start db
      → Keeps db
          (transition hook payment_succeeded id PaymentStatus.pending PaymentStatus.succeeded ref
            none db).1
  pub failed :
      (id : ℕ) (ref : Option ℕ) (reason : Option String) (db : Db)
      → Start db
      → Keeps db
          (transition none payment_failed id PaymentStatus.pending PaymentStatus.failed ref reason
            db).1
  pub refunded :
      (id : ℕ) (ref : Option ℕ) (db : Db)
      → Start db
      → Keeps db
          (transition none payment_refunded id PaymentStatus.succeeded PaymentStatus.refunded ref
            none db).1

module _ (rule : Rule) where
  -- Whatever an action returns or raises, its changes have the property.
  abbrev pub Safe : {A : Type 0} → Action A → Type 0
  Safe m = (db : Db) → rule.Start db → rule.Keeps db (m db).1

  pub Safe-pure : {A : Type 0} (x : A) → Safe (pure x)
  Safe-pure x db f = rule.still db f

  pub Safe-raise : (A : Type 0) (e : Error) → Safe (raise {A = A} e)
  Safe-raise A e db f = rule.still db f

  pub Safe-bind :
      {A B : Type 0} (m : Action A) (k : A → Action B)
      → Safe m
      → ((a : A) → Safe (k a))
      → Safe (m >>= k)
  Safe-bind {A} {B} m k sm sk db f = next (m db) (sm db f)
    where
      next :
          (r : Result Error A × Db)
          → rule.Keeps db r.1
          → rule.Keeps db (◌>>=◌ (λ (_ : Db). r) k db).1
      next (ok a, db') p = rule.joined db db' _ p (sk a db' (rule.start db db' p))
      next (err e, db') p = p

  pub Safe-transaction :
      {A : Type 0} (m : Action A) (db : Db)
      → rule.Start db
      → rule.Keeps db (m db).1
      → rule.Keeps db (transaction m db).1
  Safe-transaction {A} m db f p = next (m db) p
    where
      next :
          (r : Result Error A × Db)
          → rule.Keeps db r.1
          → rule.Keeps db (transaction (λ (_ : Db). r) db).1
      next (ok a, db') p = p
      next (err e, db') p = rule.still db f

  pub if-Safe :
      {A : Type 0} (b : Bool) (m k : Action A) → Safe m → Safe k → Safe (if b then m else k)
  if-Safe true m k sm sk = sm
  if-Safe false m k sm sk = sk
