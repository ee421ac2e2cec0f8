-- ===== src/Orders/Saga/Confirms.antt =====
-- Rules for the actions of the saga that answer a fresh paid checkout
-- (src/orders/application/checkout_saga.py).
use scalable_ecommerce_backe.Prelude.{◌≡◌, refl, true, ok, err, Result, Exec, raise, ◌>>=◌}
use scalable_ecommerce_backe.Orders.Model.{Order}
use scalable_ecommerce_backe.Orders.Saga.Ports.{Error, catch}
use scalable_ecommerce_backe.Orders.Saga.Settling.{Answer}
use scalable_ecommerce_backe.Shared.Outcomes.{err_ne_ok, Leaves}

module _ {S : Type 0} (Q : S → Type 0) where
  -- An answer of a fresh paid checkout leaves Q.
  abbrev pub Confirms : Exec Error (S) Answer → S → Type 0
  Confirms m f = (o : Order) → (m f).0 ≡ ok (o, true) → Q (m f).1

  pub Confirms-raise : (e : Error) (f : S) → Confirms (raise e) f
  Confirms-raise e f o h = absurd (err_ne_ok e (o, true) h)

  -- What the first action leaves on an answer is what the rest may start from.
  pub Confirms-bind :
      {A : Type 0} (P : A → S → Type 0) (m : Exec Error (S) A) (next : A → Exec Error (S) Answer)
      (f : S)
      → ((a : A) → (m f).0 ≡ ok a → P a (m f).1)
      → ((a : A) (g : S) → P a g → Confirms (next a) g)
      → Confirms (m >>= next) f
  Confirms-bind {A} P m next f pm pn = after (m f) pm
    where
      after :
          (r : Result Error A × S)
          → ((a : A) → r.0 ≡ ok a → P a r.1)
          → Confirms (◌>>=◌ (λ (_ : S). r) next) f
      after (ok a, g) p = pn a g (p a refl)
      after (err e, g) p = λ o h. absurd (err_ne_ok e (o, true) h)

  abbrev Anything : {A : Type 0} → A → S → Type 0
  Anything a f = Unit {0}

  -- The rest confirms from wherever it starts.
  pub Confirms-after :
      {A : Type 0} (m : Exec Error (S) A) (next : A → Exec Error (S) Answer)
      → ((a : A) (g : S) → Confirms (next a) g)
      → (f : S) → Confirms (m >>= next) f
  Confirms-after m next pn f = Confirms-bind Anything m next f (λ a h. tt) (λ a g _. pn a g)

  pub Confirms-catch :
      (m : Exec Error (S) Answer) (handler : Error → Exec Error (S) Answer) (f : S)
      → Confirms m f
      → ((e : Error) (g : S) → Confirms (handler e) g)
      → Confirms (catch m handler) f
  Confirms-catch m handler f pm ph = after (m f) pm
    where
      after :
          (r : Result Error Answer × S)
          → ((o : Order) → r.0 ≡ ok (o, true) → Q r.1)
          → Confirms (catch (λ (_ : S). r) handler) f
      after (ok a, g) p = p
      after (err e, g) p = ph e g

-- What an action leaves where a handler answers for it.
pub Leaves-catch :
    {S A : Type 0} (Q : A → S → Type 0) (m : Exec Error S A) (handler : Error → Exec Error S A)
    (f : S)
    → Leaves Q m f
    → ((e : Error) (g : S) → Leaves Q (handler e) g)
    → Leaves Q (catch m handler) f
Leaves-catch {S} {A} Q m handler f pm ph = after (m f) pm
  where
    after :
        (r : Result Error A × S)
        → ((a : A) → r.0 ≡ ok a → Q a r.1)
        → Leaves Q (catch (λ (_ : S). r) handler) f
    after (ok a, g) p = p
    after (err e, g) p = ph e g
