-- ===== src/Inventory/Reserve/Replay.antt =====
-- A batch that is held already is answered from its rows, and nothing is written.
use scalable_ecommerce_backe.Prelude.{
  ℕ, ◌≡◌, refl, ◌∙◌, ap, sym, subst, ◌==◌, leb, true, false, List, [], ◌∷◌, All, arith, ok, err,
  Result, none, some, inl, inr, Bool-cases, ==_refl,
}
use scalable_ecommerce_backe.Inventory.Model.{Reservation, Db, Error, Action}
use scalable_ecommerce_backe.Inventory.Consistent.{has_active}
use scalable_ecommerce_backe.Inventory.Reserve.Line.{place_line-raced, place_next-same}
use scalable_ecommerce_backe.Inventory.Reserve.Served.{HasLine, Served, place-Served}
use scalable_ecommerce_backe.Inventory.Reserve.{
  Line, sort_by_sku, insert_by_sku, after_line, place_next, prepend, active_row, Attempt, place,
  leave_savepoint, reserve_attempt, conclude, contended, reserve_ordered, reserve_many,
  second_attempt, existing_of, Answer, rows, refused,
}

module _ (P : Line → Type 0) where
  insert-All : (x : Line) (xs : List Line) → P x → All P xs → All P (insert_by_sku x xs)
  unfolding insert_by_sku
  insert-All x [] p h = (p, tt)
  insert-All x (y ∷ ys) p h = elim (Bool-cases (leb x.0 y.0)) [
    | inl e ↦ rw e (p, h)
    | inr e ↦ rw e (h.0, insert-All x ys p h.1)
  ]

  pub sort-All : (xs : List Line) → All P xs → All P (sort_by_sku xs)
  unfolding sort_by_sku
  sort-All [] h = tt
  sort-All (x ∷ xs) h = insert-All x (sort_by_sku xs) h.0 (sort-All xs h.1)

  All-insert : (x : Line) (xs : List Line) → All P (insert_by_sku x xs) → P x × All P xs
  unfolding insert_by_sku
  All-insert x [] h = h
  All-insert x (y ∷ ys) h = elim (Bool-cases (leb x.0 y.0)) [
    | inl e ↦ rw e at h
    | inr e ↦
        let h' : P y × All P (insert_by_sku x ys) = rw e at h in
        let r = All-insert x ys h'.1 in (r.0, (h'.0, r.1))
  ]

  pub All-sort : (xs : List Line) → All P (sort_by_sku xs) → All P xs
  unfolding sort_by_sku
  All-sort [] h = tt
  All-sort (x ∷ xs) h = let r = All-insert x (sort_by_sku xs) h in (r.0, All-sort xs r.1)

-- The attempt placed every line, or found it, and wrote nothing.
abbrev IsReplay : Db → Attempt × Db → Type 0
IsReplay db (Attempt.outcome rs, db') = db' ≡ db
IsReplay db (a, db') = ⊥

IsReplay-prepend :
    (db : Db) (xs : List Reservation) (r : Attempt × Db)
    → IsReplay db r
    → IsReplay db (prepend xs r.0, r.1)
IsReplay-prepend db xs (Attempt.outcome rs, db') h = h
IsReplay-prepend db xs (Attempt.stock_rejection s q, db') h = h
IsReplay-prepend db xs (Attempt.rejection s q, db') h = h
IsReplay-prepend db xs (Attempt.conflict s k q, db') h = h
IsReplay-prepend db xs (Attempt.raced s, db') h = h
IsReplay-prepend db xs (Attempt.invalid s q, db') h = h

module _ (o e : ℕ) (db : Db) where
  place-IsReplay :
      (lines : List Line)
      → All (HasLine o db) lines
      → IsReplay db (place (existing_of o db) o e lines db)
  unfolding place
  place-IsReplay [] h = refl
  place-IsReplay ((sku, qty) ∷ lines) h =
      let (r, found, same) = h.0 in
      let next : Db → Attempt × Db = place (existing_of o db) o e lines in
      let step : place_next (active_row o sku db.reservations) sku qty o e next db
          ≡ (prepend (r ∷ []) (next db).0, (next db).1) =
        ap (λ x. place_next x sku qty o e next db) found
        ∙ place_next-same r sku qty o e next db (rw same (==_refl qty)) in
      subst (IsReplay db) (sym step)
        (IsReplay-prepend db (r ∷ []) (next db) (place-IsReplay lines h.1))

  row-has_active :
      (s : ℕ) (r : Reservation) (rs : List Reservation)
      → active_row o s rs ≡ some r
      → has_active o s rs ≡ true
  unfolding active_row has_active
  row-has_active s r [] h = cc
  row-has_active s r (x ∷ xs) h = ground (arith, row-has_active s r xs)

  first-raced :
      (sku qty : ℕ) (lines : List Line)
      → (qty == 0) ≡ false
      → HasLine o db (sku, qty)
      → reserve_attempt (λ _. none) o e ((sku, qty) ∷ lines) db ≡ (Attempt.raced sku, db)
  unfolding reserve_attempt place place_next after_line
  first-raced sku qty lines q h =
      rw (place_line-raced sku qty o e db q (row-has_active sku h.0 db.reservations h.1))

  answer-IsReplay :
      (again : ℕ → Action Answer) (r : Attempt × Db)
      → IsReplay db r
      → (rs : List Reservation) × (conclude again (leave_savepoint db r) ≡ (ok (rows rs), db))
  unfolding conclude
  answer-IsReplay again (Attempt.outcome rs, db') h = (rs, λ i. (ok (rows rs), h i))
  answer-IsReplay again (Attempt.stock_rejection s q, db') h = absurd h
  answer-IsReplay again (Attempt.rejection s q, db') h = absurd h
  answer-IsReplay again (Attempt.conflict s k q, db') h = absurd h
  answer-IsReplay again (Attempt.raced s, db') h = absurd h
  answer-IsReplay again (Attempt.invalid s q, db') h = absurd h

  ordered-replay :
      (ordered : List Line)
      → All (λ l. (l.1 == 0) ≡ false) ordered
      → All (HasLine o db) ordered
      → (rs : List Reservation) × (reserve_ordered ordered o e db ≡ (ok (rows rs), db))
  unfolding reserve_ordered
  ordered-replay [] q h = unfold conclude reserve_attempt place in ([], refl)
  ordered-replay ((sku, qty) ∷ lines) q h =
      let ordered : List Line = (sku, qty) ∷ lines in
      let first = first-raced sku qty lines q.0 h.0 in
      let second =
        answer-IsReplay contended (place (existing_of o db) o e ordered db)
          (place-IsReplay ordered h) in
      (
        second.0,
        ap (conclude (second_attempt o e ordered)) first
            ∙ (unfold conclude reserve_attempt in second.1),
      )

  -- A request whose lines the order already holds is answered again, with nothing written.
  pub repository-replay :
      (lines : List Line)
      → All (λ l. (l.1 == 0) ≡ false) lines
      → All (HasLine o db) lines
      → (rs : List Reservation) × (reserve_many lines o e db ≡ (ok (rows rs), db))
  unfolding reserve_many
  repository-replay [] q h = ([], refl)
  repository-replay (l ∷ lines) q h =
      ordered-replay (sort_by_sku (l ∷ lines)) (sort-All (λ l. (l.1 == 0) ≡ false) (l ∷ lines) q)
        (sort-All (HasLine o db) (l ∷ lines) h)

-- An answer with rows holds every line.
abbrev pub Answered : ℕ → List Line → Result Error Answer × Db → Type 0
Answered o lines (ok (rows rs), db) = All (HasLine o db) lines
Answered o lines (a, db) = Unit

conclude-Answered :
    (o : ℕ) (lines : List Line) (db : Db) (again : ℕ → Action Answer)
    → ((s : ℕ) (db' : Db) → Answered o lines (again s db'))
    → (r : Attempt × Db) → Served o lines db r
    → Answered o lines (conclude again (leave_savepoint db r))
unfolding conclude
conclude-Answered o lines db again h (Attempt.outcome rs, db') k = k.0
conclude-Answered o lines db again h (Attempt.stock_rejection s q, db') k = tt
conclude-Answered o lines db again h (Attempt.rejection s q, db') k = tt
conclude-Answered o lines db again h (Attempt.conflict s x q, db') k = tt
conclude-Answered o lines db again h (Attempt.raced s, db') k = h s db
conclude-Answered o lines db again h (Attempt.invalid s q, db') k = tt

ordered-Answered :
    (o e : ℕ) (ordered : List Line) (db : Db) → Answered o ordered (reserve_ordered ordered o e db)
unfolding reserve_ordered reserve_attempt
ordered-Answered o e ordered db =
    conclude-Answered o ordered db (second_attempt o e ordered)
      (λ s db'.
        conclude-Answered o ordered db' contended (λ _ _. tt)
          (place (existing_of o db') o e ordered db')
          (place-Served (existing_of o db') o e ordered db' (λ s r h. h)))
      (place (λ _. none) o e ordered db) (place-Served (λ _. none) o e ordered db (λ s r h. cc))

pub repository-Answered :
    (o e : ℕ) (lines : List Line) (db : Db) → Answered o lines (reserve_many lines o e db)
unfolding reserve_many
repository-Answered o e [] db = tt
repository-Answered o e (l ∷ lines) db =
    from_sorted (reserve_ordered (sort_by_sku (l ∷ lines)) o e db)
      (ordered-Answered o e (sort_by_sku (l ∷ lines)) db)
  where
    from_sorted :
        (r : Result Error Answer × Db)
        → Answered o (sort_by_sku (l ∷ lines)) r
        → Answered o (l ∷ lines) r
    from_sorted (ok (rows rs), db') h = All-sort (HasLine o db') (l ∷ lines) h
    from_sorted (ok (refused s q), db') h = tt
    from_sorted (err x, db') h = tt
