-- ===== src/Shared/Outcomes.antt =====
-- What an action's answer leaves, and what a transaction's raise does
-- (src/shared/db/unit_of_work.py).
use scalable_ecommerce_backe.Prelude.{
  ◌≡◌, refl, sym, subst, ok, err, Result, Exec, pure, raise, ◌>>=◌, arith,
}
use scalable_ecommerce_backe.Shared.UnitOfWork.{transaction}

abbrev pub refusal : {E A : Type 0} → E → Result E A
refusal e = err e

pub err_ne_ok : {E A : Type 0} (e : E) (a : A) → refusal {A = A} e ≡ ok a → ⊥
err_ne_ok e a h = ground arith

abbrev pub answer : {E A : Type 0} → A → Result E A
answer a = ok a

pub ok_inj : {E A : Type 0} (a b : A) → answer {E = E} a ≡ ok b → a ≡ b
ok_inj a b h = cc

-- What an answer leaves.
abbrev pub Leaves : {E S A : Type 0} (Q : A → S → Type 0) → Exec E S A → S → Type 0
Leaves {E} {S} {A} Q m s = (a : A) → (m s).0 ≡ ok a → Q a (m s).1

pub Leaves-raise : {E S A : Type 0} (Q : A → S → Type 0) (e : E) (s : S) → Leaves Q (raise e) s
Leaves-raise Q e s a h = absurd (err_ne_ok e a h)

pub Leaves-bind :
    {E S A B : Type 0} (P : A → S → Type 0) (Q : B → S → Type 0) (m : Exec E S A)
    (next : A → Exec E S B) (s : S)
    → Leaves P m s
    → ((a : A) (t : S) → P a t → Leaves Q (next a) t)
    → Leaves Q (m >>= next) s
Leaves-bind {E} {S} {A} {B} P Q m next s pm pn = after (m s) pm
  where
    after :
        (r : Result E A × S)
        → ((a : A) → r.0 ≡ ok a → P a r.1)
        → Leaves Q (◌>>=◌ (λ (_ : S). r) next) s
    after (ok a, t) p = pn a t (p a refl)
    after (err e, t) p = λ b h. absurd (err_ne_ok e b h)

pub Leaves-pure :
    {E S A : Type 0} (Q : A → S → Type 0) (a : A) (s : S) → Q a s → Leaves {E = E} Q (pure a) s
Leaves-pure Q a s q b h = subst (λ x. Q x s) (ok_inj a b h) q

pub Leaves-transaction :
    {E S A : Type 0} (Q : A → S → Type 0) (m : Exec E S A) (s : S)
    → Leaves Q m s
    → Leaves Q (transaction m) s
Leaves-transaction {E} {S} {A} Q m s pm = after (m s) pm
  where
    after :
        (r : Result E A × S)
        → ((a : A) → r.0 ≡ ok a → Q a r.1)
        → Leaves Q (transaction (λ (_ : S). r)) s
    after (ok a, t) p = p
    after (err e, t) p = λ b h. absurd (err_ne_ok e b h)

ok_ne_err : {E A : Type 0} (a : A) (e : E) → answer {E = E} a ≡ err e → ⊥
ok_ne_err a e h = err_ne_ok e a (sym h)

pub transaction_undone :
    {E S A : Type 0} (m : Exec E S A) (s : S) (e : E)
    → (transaction m s).0 ≡ err e
    → (transaction m s).1 ≡ s
transaction_undone {E} {S} {A} m s e h = after (m s) h
  where
    after :
        (r : Result E A × S)
        → (transaction (λ (_ : S). r) s).0 ≡ err e
        → (transaction (λ (_ : S). r) s).1 ≡ s
    after (ok a, t) k = absurd (ok_ne_err a e k)
    after (err x, t) k = refl
