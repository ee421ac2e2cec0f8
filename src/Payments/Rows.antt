-- ===== src/Payments/Rows.antt =====
-- What the guarded UPDATE of src/payments/adapters/db/repository.py does to each row.
use scalable_ecommerce_backe.Prelude.{
  ℕ, ◌<◌, ◌≡◌, refl, sym, subst, ◌==◌, if◌then◌else◌, Bool, true, false, Option, none, some, List,
  [], ◌∷◌, All, arith, eq_of_==,
}
use Prim.Native.String.{String}
use scalable_ecommerce_backe.Payments.Model.{PaymentStatus, Payment, is_status}
use scalable_ecommerce_backe.Payments.Repository.{get, update, set_outcome}
use scalable_ecommerce_backe.Payments.Progress.{Allowed, Moves, Advances, Advances-refl}

pub eq_of_is_status : (s t : PaymentStatus) → is_status s t ≡ true → s ≡ t
eq_of_is_status s t h = ground arith

module _ (id : ℕ) (expect to_status : PaymentStatus) (ref : Option ℕ) (reason : Option String) where
  abbrev set : Payment → Payment
  set = set_outcome to_status ref reason

  -- The row itself is rewritten as the RETURNING clause says.
  pub get-update_same :
      (ps : List Payment) (p : Payment)
      → get id ps ≡ some p
      → is_status p.status expect ≡ true
      → get id (update id expect set ps) ≡ some (set p)
  unfolding get update
  get-update_same [] p h e = ground arith
  get-update_same (q ∷ qs) p h e = let rest = get-update_same qs p in ground arith

  if_Advances :
      (d : Bool) (p q : Payment) (o o' : Option Payment)
      → Moves p q
      → Advances o o'
      → Advances (if d then some p else o) (if d then some q else o')
  if_Advances true p q o o' m a = m
  if_Advances false p q o o' m a = a

  moves :
      (p : Payment) → Allowed expect to_status → is_status p.status expect ≡ true → Moves p (set p)
  moves p h e = record {
    same_order = refl;
    same_amount = refl;
    same_key = refl;
    status = subst (λ s. Allowed s to_status) (sym (eq_of_is_status p.status expect e)) h;
  }

  stays : (p : Payment) → Moves p p
  stays p = Advances-refl (some p)

  pub update-Advances :
      Allowed expect to_status
      → (j : ℕ) (ps : List Payment) → Advances (get j ps) (get j (update id expect set ps))
  unfolding get update
  update-Advances h j [] = tt
  update-Advances h j (p ∷ ps) =
      step (p.id == id) (is_status p.status expect) (moves p h) (update-Advances h j ps)
    where
      same : Advances (get j ps) (get j ps)
      same = Advances-refl (get j ps)

      step :
          (b c : Bool)
          → (c ≡ true → Moves p (set p))
          → Advances (get j ps) (get j (update id expect set ps))
          → Advances (get j (p ∷ ps)) (
              get j (if b then (if c then set p ∷ ps else p ∷ ps) else p ∷ update id expect set ps))
      step true true m tail = if_Advances (p.id == j) p (set p) (get j ps) (get j ps) (m refl) same
      step true false m tail = if_Advances (p.id == j) p p (get j ps) (get j ps) (stays p) same
      step false c m tail =
          if_Advances (p.id == j) p p (get j ps) (get j (update id expect set ps)) (stays p) tail

  pub update-All :
      (n : ℕ) (ps : List Payment)
      → All (λ p. p.id < n) ps
      → All (λ p. p.id < n) (update id expect set ps)
  unfolding update
  update-All n [] a = a
  update-All n (p ∷ ps) a = step (p.id == id) (is_status p.status expect) (update-All n ps a.1)
    where
      step :
          (b c : Bool)
          → All (λ q. q.id < n) (update id expect set ps)
          → All
              (λ q. q.id < n)
              (if b then (if c then set p ∷ ps else p ∷ ps) else p ∷ update id expect set ps)
      step true true tail = (a.0, a.1)
      step true false tail = a
      step false c tail = (a.0, tail)

-- A fresh row shadows no other.
pub get_fresh :
    (j : ℕ) (p : Payment) (ps : List Payment)
    → All (λ q. q.id < p.id) ps
    → Advances (get j ps) (get j (p ∷ ps))
unfolding get
get_fresh j p ps a = step (p.id == j) (λ e. missing ps a (eq_of_== p.id j e))
  where
    missing : (qs : List Payment) → All (λ q. q.id < p.id) qs → p.id ≡ j → get j qs ≡ none
    missing [] a e = refl
    missing (q ∷ qs) a e = let rest = missing qs a.1 e in let below = a.0 in ground arith

    step :
        (d : Bool)
        → (d ≡ true → get j ps ≡ none)
        → Advances (get j ps) (if d then some p else get j ps)
    step true h = subst (λ o. Advances o (some p)) (sym (h refl)) tt
    step false h = Advances-refl (get j ps)
