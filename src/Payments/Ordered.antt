-- ===== src/Payments/Ordered.antt =====
-- Payment rows in the order of their ids, so that the row of a key is the row of its id
-- (src/payments/adapters/db/repository.py).
use Prim.Native.String.{String}
use scalable_ecommerce_backe.Prelude.{
  ℕ, ◌<◌, ◌≡◌, ap, Option, none, some, List, [], ◌∷◌, All, arith,
}
use scalable_ecommerce_backe.Payments.Model.{PaymentStatus, Payment, Db}
use scalable_ecommerce_backe.Payments.Repository.{get, get_by_key, update, set_outcome}

-- No two rows have an id in common, and the next one is above them all.
abbrev pub Distinct : List Payment → Type 0
Distinct [] = Unit
Distinct (p ∷ ps) = All (λ q. q.id < p.id) ps × Distinct ps

abbrev pub IsOrdered : Db → Type 0
IsOrdered db = All (λ p. p.id < db.next_id) db.payments × Distinct db.payments

pub below :
    (key n : ℕ) (ps : List Payment) (p : Payment)
    → All (λ q. q.id < n) ps
    → get_by_key key ps ≡ some p
    → p.id < n
unfolding get_by_key
below key n [] p a h = ground arith
below key n (q ∷ qs) p a h = let rest = below key n qs p a.1 in let head = a.0 in ground arith

-- The row of a key is the one of its id, before and after an update of it.
pub get_by_key-get :
    (key : ℕ) (ps : List Payment) (p : Payment)
    → Distinct ps
    → get_by_key key ps ≡ some p
    → get p.id ps ≡ some p
unfolding get_by_key get
get_by_key-get key [] p d h = ground arith
get_by_key-get key (q ∷ qs) p d h =
    let rest = get_by_key-get key qs p d.1 in let low = below key q.id qs p d.0 in ground arith

pub get_by_key-update :
    (key : ℕ) (expect to_status : PaymentStatus) (ref : Option ℕ) (reason : Option String)
    (ps : List Payment) (p : Payment)
    → Distinct ps
    → get_by_key key ps ≡ some p
    → get_by_key key (update p.id expect (set_outcome to_status ref reason) ps)
      ≡ get p.id (update p.id expect (set_outcome to_status ref reason) ps)
unfolding get_by_key get update
get_by_key-update key expect to_status ref reason [] p d h = ground arith
get_by_key-update key expect to_status ref reason (q ∷ qs) p d h =
    let rest = get_by_key-update key expect to_status ref reason qs p d.1 in
    let low = below key q.id qs p d.0 in ground arith

pub some_inj : {p q : Payment} → some p ≡ some q → p ≡ q
some_inj {p} {q} h = ap (λ o. elim o as (λ _. Payment) [ none ↦ p | some r ↦ r ]) h
