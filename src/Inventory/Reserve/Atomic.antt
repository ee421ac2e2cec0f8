-- ===== src/Inventory/Reserve/Atomic.antt =====
-- A batch that is not answered with rows leaves nothing behind.
use scalable_ecommerce_backe.Prelude.{ℕ, ◌≡◌, refl, List, [], ◌∷◌, ok, err, Result, none}
use scalable_ecommerce_backe.Inventory.Model.{Db, Error, Action}
use scalable_ecommerce_backe.Inventory.Reserve.{
  Line, sort_by_sku, Attempt, place, leave_savepoint, reserve_attempt, conclude, contended,
  reserve_ordered, reserve_many, second_attempt, existing_of, Answer, rows, refused,
}

-- An answer without rows left the state as it was.
abbrev pub Unwound : Db → Result Error Answer × Db → Type 0
Unwound db (ok (rows rs), db') = Unit
Unwound db (ok (refused s q), db') = db' ≡ db
Unwound db (err e, db') = db' ≡ db

conclude-Unwound :
    (db : Db) (again : ℕ → Action Answer)
    → ((s : ℕ) → Unwound db (again s db))
    → (r : Attempt × Db) → Unwound db (conclude again (leave_savepoint db r))
unfolding conclude
conclude-Unwound db again h (Attempt.outcome rs, db') = tt
conclude-Unwound db again h (Attempt.stock_rejection s q, db') = refl
conclude-Unwound db again h (Attempt.rejection s q, db') = refl
conclude-Unwound db again h (Attempt.conflict s x q, db') = refl
conclude-Unwound db again h (Attempt.raced s, db') = h s
conclude-Unwound db again h (Attempt.invalid s q, db') = refl

ordered-Unwound :
    (o e : ℕ) (ordered : List Line) (db : Db) → Unwound db (reserve_ordered ordered o e db)
unfolding reserve_ordered reserve_attempt
ordered-Unwound o e ordered db =
    conclude-Unwound db (second_attempt o e ordered)
      (λ s. conclude-Unwound db contended (λ _. refl) (place (existing_of o db) o e ordered db))
      (place (λ _. none) o e ordered db)

pub repository-Unwound :
    (o e : ℕ) (lines : List Line) (db : Db) → Unwound db (reserve_many lines o e db)
unfolding reserve_many
repository-Unwound o e [] db = tt
repository-Unwound o e (l ∷ lines) db = ordered-Unwound o e (sort_by_sku (l ∷ lines)) db
