-- ===== src/Shared/Resilience/Retry.antt =====
-- `retry_transient` (src/shared/resilience.py), without the sleeps: their lengths are random and
-- nothing depends on them. The operation is an action that may raise; what it raises is its own.
use scalable_ecommerce_backe.Prelude.{
  ℕ, zero, suc, ◌+◌, ◌≤◌, ◌≡◌, refl, ◌∙◌, sym, if◌then◌else◌, Bool, true, false, arith, ok, err,
  Result, Exec,
}

-- After a fault on the try before, `rest` is the tries that are left.
abbrev pub retry_after :
    {E S R : Type 0} → (E → Bool) → Exec E S R → Result E R × S → Result E R × S
retry_after is_transient rest (ok r, s) = (ok r, s)
retry_after is_transient rest (err e, s) = if is_transient e then rest s else (err e, s)

-- `attempts` is the number of tries in all; with none the code's assertion fails (`unreachable`).
unfoldable pub retry_transient : {E S R : Type 0} → E → (E → Bool) → ℕ → Exec E S R → Exec E S R
retry_transient unreachable is_transient zero operation s = (err unreachable, s)
retry_transient unreachable is_transient (suc zero) operation s = operation s
retry_transient unreachable is_transient (suc (suc n)) operation s =
    retry_after is_transient (retry_transient unreachable is_transient (suc n) operation)
      (operation s)

true_ne_false : true ≡ false → ⊥
true_ne_false h = ground arith

-- Whether the answer is one to try again.
abbrev pub is_retried : {E R : Type 0} → (E → Bool) → Result E R → Bool
is_retried is_transient (ok r) = false
is_retried is_transient (err e) = is_transient e

-- The operation with a count of its runs.
abbrev pub counting : {E S R : Type 0} → Exec E S R → Exec E (S × ℕ) R
counting operation s = ((operation s.0).0, ((operation s.0).1, s.1 + 1))

-- More runs than `few`, at most `many`, and all of them where the last answer is a transient fault.
abbrev pub Tries : {E S R : Type 0} → (E → Bool) → ℕ → ℕ → Result E R × (S × ℕ) → Type 0
Tries is_transient few many r =
    (few + 1 ≤ r.1.1) × ((r.1.1 ≤ many) × (is_retried is_transient r.0 ≡ true → r.1.1 ≡ many))

module _ {E S R : Type 0} (unreachable : E) (is_transient : E → Bool) where
  -- With at least one try allowed, the operation runs at least once and at most that often, and
  -- an answer that is a transient fault is returned only when every try was used.
  pub retry_transient-Tries :
      (n : ℕ) (operation : Exec E S R) (s : S) (k : ℕ)
      → Tries {E = E} {S = S} {R = R} is_transient k (k + suc n) (
          retry_transient unreachable is_transient
            (suc n)
            (counting {E = E} {S = S} {R = R} operation)
            (s, k))
  unfolding retry_transient
  retry_transient-Tries zero operation s k = (omega arith, (omega arith, λ h. omega arith))
  retry_transient-Tries (suc n) operation s k =
      answered (operation s).0 (retry_transient-Tries n operation (operation s).1 (k + 1))
    where
      again : Exec E (S × ℕ) R
      again =
          retry_transient unreachable is_transient (suc n)
            (counting {E = E} {S = S} {R = R} operation)

      tried : S × ℕ
      tried = ((operation s).1, k + 1)

      after_fault :
          (b : Bool) (e : E)
          → is_transient e ≡ b
          → Tries {E = E} {S = S} {R = R} is_transient (k + 1) (k + 1 + suc n) (again tried)
          → Tries {E = E} {S = S} {R = R} is_transient k
              (k + suc (suc n))
              (if b then again tried else (err e, tried))
      after_fault true e h t =
          let low = t.0 in
          let high = t.1.0 in (omega arith, (omega arith, λ r. let used = t.1.1 r in omega arith))
      after_fault false e h t =
          (omega arith, (omega arith, λ r. absurd (true_ne_false (sym r ∙ h))))

      answered :
          (a : Result E R)
          → Tries {E = E} {S = S} {R = R} is_transient (k + 1) (k + 1 + suc n) (again tried)
          → Tries {E = E} {S = S} {R = R} is_transient k
              (k + suc (suc n))
              (retry_after is_transient again (a, tried))
      answered (ok r) t = (omega arith, (omega arith, λ h. absurd (true_ne_false (sym h))))
      answered (err e) t = after_fault (is_transient e) e refl t
