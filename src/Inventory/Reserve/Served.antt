-- ===== src/Inventory/Reserve/Served.antt =====
-- A batch that is answered with rows holds every line, at its quantity.
use scalable_ecommerce_backe.Prelude.{
  ℕ, ◌≡◌, refl, ◌∙◌, ap, sym, subst, ◌==◌, false, List, [], ◌∷◌, All, arith, Option, none, some,
  inl, inr, Bool-cases, eq_of_==,
}
use scalable_ecommerce_backe.Inventory.Model.{Reservation, Db}
use scalable_ecommerce_backe.Inventory.Statements.{try_reserve_decrement}
use scalable_ecommerce_backe.Inventory.Moves.{in_stock}
use scalable_ecommerce_backe.Inventory.Consistent.{has_active}
use scalable_ecommerce_backe.Inventory.Reserve.Line.{
  with_row, place_line-invalid, place_line-raced, place_line-unstocked, place_line-refused,
  place_line-placed, place_next-same, place_next-conflict,
}
use scalable_ecommerce_backe.Inventory.Reserve.{
  Line, after_line, place_next, prepend, fresh_row, active_row, Attempt, place_line, place,
}

-- The order's active row of the line's SKU has the line's quantity.
abbrev pub HasLine : ℕ → Db → Line → Type 0
HasLine o db l = (r : Reservation) × (active_row o l.0 db.reservations ≡ some r) × (r.qty ≡ l.1)

-- No active row of the order is lost or replaced.
abbrev pub Grows : ℕ → Db → Db → Type 0
Grows o a b =
    (s : ℕ) (r : Reservation)
    → active_row o s a.reservations ≡ some r
    → active_row o s b.reservations ≡ some r

active_row-none :
    (o s : ℕ) (rs : List Reservation) → has_active o s rs ≡ false → active_row o s rs ≡ none
unfolding has_active active_row
active_row-none o s [] h = refl
active_row-none o s (r ∷ rs) h = ground (arith, active_row-none o s rs)

rows-decrement :
    (sku qty : ℕ) (db : Db) → (try_reserve_decrement sku qty db).1.reservations ≡ db.reservations
unfolding try_reserve_decrement
rows-decrement sku qty db = ground arith

active_row-fresh :
    (id sku qty o e : ℕ) (rs : List Reservation)
    → active_row o sku (fresh_row id sku qty o e ∷ rs) ≡ some (fresh_row id sku qty o e)
unfolding active_row
active_row-fresh id sku qty o e rs = ground arith

active_row-grows :
    (id sku qty o e : ℕ) (rs : List Reservation)
    → active_row o sku rs ≡ none
    → (s : ℕ) (r : Reservation) → active_row o s rs ≡ some r
    → active_row o s (fresh_row id sku qty o e ∷ rs) ≡ some r
active_row-grows id sku qty o e rs n s r h = elim (Bool-cases (sku == s)) [
  | inl same ↦
      absurd (cc (sym n, subst (λ x. active_row o x rs ≡ some r) (sym (eq_of_== sku s same)) h))
  | inr other ↦ unfold active_row in ground arith
]

abbrev pub Served : ℕ → List Line → Db → Attempt × Db → Type 0
Served o lines db (Attempt.outcome rs, db') = All (HasLine o db') lines × Grows o db db'
Served o lines db (a, db') = Unit

HasLine-Grows :
    (o : ℕ) (a b : Db) (lines : List Line)
    → Grows o a b
    → All (HasLine o a) lines
    → All (HasLine o b) lines
HasLine-Grows o a b [] g h = tt
HasLine-Grows o a b (l ∷ lines) g h =
    ((h.0.0, g l.0 h.0.0 h.0.1, h.0.2), HasLine-Grows o a b lines g h.1)

place_line-Served :
    (sku qty o e : ℕ) (db : Db) → Served o ((sku, qty) ∷ []) db (place_line sku qty o e db)
place_line-Served sku qty o e db = elim (Bool-cases (qty == 0)) [
  | inl z ↦ subst Q (sym (place_line-invalid sku qty o e db z)) tt
  | inr q ↦ elim (Bool-cases (has_active o sku db.reservations)) [
    | inl a ↦ subst Q (sym (place_line-raced sku qty o e db q a)) tt
    | inr a ↦ elim (Bool-cases (in_stock db sku)) [
      | inr n ↦ subst Q (sym (place_line-unstocked sku qty o e db q a n)) tt
      | inl i ↦
          elim (Bool-cases ((try_reserve_decrement sku qty (with_row sku qty o e db)).0 == 0)) [
            | inl no_stock ↦ subst Q (sym (place_line-refused sku qty o e db q a i no_stock)) tt
            | inr fits ↦
                let rows = rows-decrement sku qty (with_row sku qty o e db) in
                let row : Reservation = fresh_row db.next_id sku qty o e in
                subst Q (sym (place_line-placed sku qty o e db q a i fits)) (
                  (
                    (
                      row,
                      ap (active_row o sku) rows
                          ∙ active_row-fresh db.next_id sku qty o e db.reservations,
                      refl,
                    ),
                    tt,
                  ),
                  λ s r h.
                      ap (active_row o s) rows
                      ∙ active_row-grows db.next_id sku qty o e db.reservations
                          (active_row-none o sku db.reservations a) s r h,
                )
          ]
    ]
  ]
]
  where
    Q : Attempt × Db → Type 0
    Q = Served o ((sku, qty) ∷ []) db

-- The rows that the second attempt found are this order's active rows.
abbrev pub Knows : (ℕ → Option Reservation) → ℕ → Db → Type 0
Knows existing o db =
    (s : ℕ) (r : Reservation) → existing s ≡ some r → active_row o s db.reservations ≡ some r

Served-prepend :
    (o : ℕ) (l : Line) (lines : List Line) (a b : Db) (xs : List Reservation) (r : Attempt × Db)
    → Grows o a b
    → HasLine o b l
    → Served o lines b r
    → Served o (l ∷ lines) a (prepend xs r.0, r.1)
Served-prepend o l lines a b xs (Attempt.outcome rs, c) g h k =
    (((HasLine-Grows o b c (l ∷ []) k.1 (h, tt)).0, k.0), λ s r e. k.1 s r (g s r e))
Served-prepend o l lines a b xs (_, c) g h k = tt

after_line-Served :
    (o : ℕ) (l : Line) (lines : List Line) (db : Db) (next : Db → Attempt × Db)
    → ((db' : Db) → Grows o db db' → Served o lines db' (next db'))
    → (r : Attempt × Db) → Served o (l ∷ []) db r
    → Served o (l ∷ lines) db (after_line next r)
unfolding after_line
after_line-Served o l lines db next ih (Attempt.outcome rs, db') k =
    Served-prepend o l lines db db' rs (next db') k.1 k.0.0 (ih db' k.1)
after_line-Served o l lines db next ih (_, db') k = tt

pub place-Served :
    (existing : ℕ → Option Reservation) (o e : ℕ) (lines : List Line) (db : Db)
    → Knows existing o db
    → Served o lines db (place existing o e lines db)
unfolding place
place-Served existing o e [] db k = (tt, λ s r h. h)
place-Served existing o e ((sku, qty) ∷ lines) db k =
    known (existing sku) (k sku) (place existing o e lines)
      (λ db' g. place-Served existing o e lines db' (λ s r h. g s r (k s r h)))
  where
    known :
        (found : Option Reservation)
        → ((r : Reservation) → found ≡ some r → active_row o sku db.reservations ≡ some r)
        → (next : Db → Attempt × Db) → ((db' : Db) → Grows o db db' → Served o lines db' (next db'))
        → Served o ((sku, qty) ∷ lines) db (place_next found sku qty o e next db)
    known none f next ih =
        unfold place_next in
        after_line-Served o (sku, qty) lines db next ih (place_line sku qty o e db)
          (place_line-Served sku qty o e db)
    known (some current) f next ih = elim (Bool-cases (current.qty == qty)) [
      | inl same ↦
          subst (Served o ((sku, qty) ∷ lines) db)
            (sym (place_next-same current sku qty o e next db same))
            (Served-prepend o (sku, qty) lines db db (current ∷ []) (next db) (λ s r h. h)
              (current, f current refl, eq_of_== current.qty qty same) (ih db (λ s r h. h)))
      | inr differs ↦
          subst (Served o ((sku, qty) ∷ lines) db)
            (sym (place_next-conflict current sku qty o e next db differs)) tt
    ]
