-- ===== src/Orders/Saga/Preserves.antt =====
-- A property of the state that an action keeps, whatever it returns or raises.
use scalable_ecommerce_backe.Prelude.{
  ◌≡◌, refl, if◌then◌else◌, Bool, true, false, ok, err, Result, Exec, pure, raise, ◌>>=◌, ◌>>◌,
}
use scalable_ecommerce_backe.Orders.Saga.Ports.{Error, is_exception, catch, or_else}

module _ {S : Type 0} (K : S → Type 0) where
  abbrev pub Preserves : {A : Type 0} → Exec Error S A → Type 0
  Preserves m = (s : S) → K s → K (m s).1

  pub Preserves-pure : {A : Type 0} (a : A) → Preserves (pure a)
  Preserves-pure a s k = k

  pub Preserves-raise : (A : Type 0) (e : Error) → Preserves (raise {A = A} e)
  Preserves-raise A e s k = k

  pub Preserves-bind :
      {A B : Type 0} (m : Exec Error S A) (next : A → Exec Error S B)
      → Preserves m
      → ((a : A) → Preserves (next a))
      → Preserves (m >>= next)
  Preserves-bind {A} {B} m next pm pn s k = after (m s) (pm s k)
    where
      after : (r : Result Error A × S) → K r.1 → K (◌>>=◌ (λ (_ : S). r) next s).1
      after (ok a, t) h = pn a t h
      after (err e, t) h = h

  pub Preserves-then :
      {A B : Type 0} (m : Exec Error S A) (next : Exec Error S B)
      → Preserves m
      → Preserves next
      → Preserves (m >> next)
  Preserves-then m next pm pn = Preserves-bind m (λ _. next) pm (λ _. pn)

  pub Preserves-catch :
      {A : Type 0} (m : Exec Error S A) (handler : Error → Exec Error S A)
      → Preserves m
      → ((e : Error) → Preserves (handler e))
      → Preserves (catch m handler)
  Preserves-catch {A} m handler pm ph s k = after (m s) (pm s k)
    where
      after : (r : Result Error A × S) → K r.1 → K (catch (λ (_ : S). r) handler s).1
      after (ok a, t) h = h
      after (err e, t) h = ph e t h

  pub Preserves-if :
      {A : Type 0} (b : Bool) (m n : Exec Error S A)
      → Preserves m
      → Preserves n
      → Preserves (if b then m else n)
  Preserves-if true m n pm pn = pm
  Preserves-if false m n pm pn = pn

  pub Preserves-or_else :
      {A : Type 0} (a : A) (m : Exec Error S A) → Preserves m → Preserves (or_else a m)
  Preserves-or_else {A} a m pm =
      Preserves-catch m (λ e. if is_exception e then pure a else raise e) pm
        (λ e.
          Preserves-if (is_exception e) (pure a) (raise e) (Preserves-pure a) (Preserves-raise A e))

  -- Where an action and its continuation land, from one state.
  pub bind_lands :
      {A B : Type 0} (m : Exec Error S A) (next : A → Exec Error S B) (s : S)
      → K (m s).1
      → ((a : A) → (m s).0 ≡ ok a → K (next a (m s).1).1)
      → K (◌>>=◌ m next s).1
  bind_lands {A} {B} m next s pm pn = after (m s) pm pn
    where
      after :
          (r : Result Error A × S)
          → K r.1
          → ((a : A) → r.0 ≡ ok a → K (next a r.1).1)
          → K (◌>>=◌ (λ (_ : S). r) next s).1
      after (ok a, t) h p = p a refl
      after (err e, t) h p = h
