-- ===== src/Payments/Progress.antt =====
-- How an action may change the payment rows: outcomes are decided once, and only a succeeded charge
-- is ever refunded.
use scalable_ecommerce_backe.Prelude.{
  ℕ, ◌<◌, ◌≡◌, refl, ◌∙◌, Option, none, some, All, ok, err, Result, ◌>>=◌,
}
use scalable_ecommerce_backe.Shared.UnitOfWork.{transaction}
use scalable_ecommerce_backe.Payments.Model.{PaymentStatus, Payment, Db, Error, Action}
use scalable_ecommerce_backe.Payments.Repository.{get}

-- The status changes that the lifecycle allows.
abbrev pub Allowed : PaymentStatus → PaymentStatus → Type 0
Allowed PaymentStatus.pending t = Unit
Allowed PaymentStatus.succeeded PaymentStatus.succeeded = Unit
Allowed PaymentStatus.succeeded PaymentStatus.refunded = Unit
Allowed PaymentStatus.failed PaymentStatus.failed = Unit
Allowed PaymentStatus.refunded PaymentStatus.refunded = Unit
Allowed s t = ⊥

-- A payment keeps its order, amount and key, and its status moves as allowed.
pub record Moves (p q : Payment) : Type 0 where
  pub same_order : q.order_id ≡ p.order_id
  pub same_amount : q.amount ≡ p.amount
  pub same_key : q.idempotency_key ≡ p.idempotency_key
  pub status : Allowed p.status q.status

-- A row is never lost.
abbrev pub Advances : Option Payment → Option Payment → Type 0
Advances none q = Unit
Advances (some p) none = ⊥
Advances (some p) (some q) = Moves p q

pub record Progress (a b : Db) : Type 0 where
  pub advances : (id : ℕ) → Advances (get id a.payments) (get id b.payments)
  pub fresh : All (λ p. p.id < b.next_id) b.payments

unfoldable pub IsFresh : Db → Type 0
IsFresh db = All (λ p. p.id < db.next_id) db.payments

pub Allowed-refl : (s : PaymentStatus) → Allowed s s
Allowed-refl PaymentStatus.pending = tt
Allowed-refl PaymentStatus.succeeded = tt
Allowed-refl PaymentStatus.failed = tt
Allowed-refl PaymentStatus.refunded = tt

Allowed-trans : (s t u : PaymentStatus) → Allowed s t → Allowed t u → Allowed s u
Allowed-trans PaymentStatus.pending t u h k = tt
Allowed-trans PaymentStatus.succeeded PaymentStatus.succeeded u h k = k
Allowed-trans PaymentStatus.succeeded PaymentStatus.refunded PaymentStatus.refunded h k = tt
Allowed-trans PaymentStatus.failed PaymentStatus.failed u h k = k
Allowed-trans PaymentStatus.refunded PaymentStatus.refunded u h k = k
Allowed-trans PaymentStatus.succeeded PaymentStatus.refunded PaymentStatus.pending h k = absurd k
Allowed-trans PaymentStatus.succeeded PaymentStatus.refunded PaymentStatus.succeeded h k = absurd k
Allowed-trans PaymentStatus.succeeded PaymentStatus.refunded PaymentStatus.failed h k = absurd k
Allowed-trans PaymentStatus.succeeded PaymentStatus.pending u h k = absurd h
Allowed-trans PaymentStatus.succeeded PaymentStatus.failed u h k = absurd h
Allowed-trans PaymentStatus.failed PaymentStatus.pending u h k = absurd h
Allowed-trans PaymentStatus.failed PaymentStatus.succeeded u h k = absurd h
Allowed-trans PaymentStatus.failed PaymentStatus.refunded u h k = absurd h
Allowed-trans PaymentStatus.refunded PaymentStatus.pending u h k = absurd h
Allowed-trans PaymentStatus.refunded PaymentStatus.succeeded u h k = absurd h
Allowed-trans PaymentStatus.refunded PaymentStatus.failed u h k = absurd h

pub Advances-refl : (o : Option Payment) → Advances o o
Advances-refl none = tt
Advances-refl (some p) = record {
  same_order = refl;
  same_amount = refl;
  same_key = refl;
  status = Allowed-refl p.status;
}

Advances-trans : (o p q : Option Payment) → Advances o p → Advances p q → Advances o q
Advances-trans none p q h k = tt
Advances-trans (some a) none q h k = absurd h
Advances-trans (some a) (some b) none h k = absurd k
Advances-trans (some a) (some b) (some c) h k = record {
  same_order = k.same_order ∙ h.same_order;
  same_amount = k.same_amount ∙ h.same_amount;
  same_key = k.same_key ∙ h.same_key;
  status = Allowed-trans a.status b.status c.status h.status k.status;
}

-- Whatever an action returns or raises, it has only made progress.
abbrev pub Safe : {A : Type 0} → Action A → Type 0
Safe m = (db : Db) → IsFresh db → Progress db (m db).1

pub Progress-refl : (db : Db) → IsFresh db → Progress db db
unfolding IsFresh
Progress-refl db f = record { advances = λ id. Advances-refl (get id db.payments); fresh = f }

pub Progress-IsFresh : {a b : Db} → Progress a b → IsFresh b
unfolding IsFresh
Progress-IsFresh p = p.fresh

pub Progress-trans : {a b c : Db} → Progress a b → Progress b c → Progress a c
Progress-trans {a} {b} {c} p q = record {
  advances = λ id.
      Advances-trans (get id a.payments) (get id b.payments) (get id c.payments) (p.advances id)
        (q.advances id);
  fresh = q.fresh;
}

pub Safe-bind :
    {A B : Type 0} (m : Action A) (k : A → Action B)
    → Safe m
    → ((a : A) → Safe (k a))
    → Safe (m >>= k)
Safe-bind {A} {B} m k sm sk db f = next (m db) (sm db f)
  where
    next : (r : Result Error A × Db) → Progress db r.1 → Progress db (◌>>=◌ (λ (_ : Db). r) k db).1
    next (ok a, db') p = Progress-trans p (sk a db' (Progress-IsFresh p))
    next (err e, db') p = p

pub Safe-transaction :
    {A : Type 0} (m : Action A) (db : Db)
    → IsFresh db
    → Progress db (m db).1
    → Progress db (transaction m db).1
Safe-transaction {A} m db f p = next (m db) p
  where
    next :
        (r : Result Error A × Db) → Progress db r.1 → Progress db (transaction (λ (_ : Db). r) db).1
    next (ok a, db') p = p
    next (err e, db') p = Progress-refl db f
