-- ===== src/Cart/Sized.antt =====
-- The lines of a cart (src/cart/adapters/valkey/repository.py) whose quantities are within the cap,
-- and the number of lines after a write.
use scalable_ecommerce_backe.Prelude.{
  ℕ, ◌+◌, ◌≤◌, ◌≡◌, ◌==◌, if◌then◌else◌, Bool, true, false, Option, none, some, List, [], ◌∷◌,
  arith, length, All,
}
use scalable_ecommerce_backe.Cart.Hash.{CartLine, hget, hset, hdel}

-- A line has a positive quantity within the cap.
abbrev pub IsSized : ℕ → CartLine → Type 0
IsSized cap line = (1 ≤ line.quantity) × (line.quantity ≤ cap)

abbrev pub AllSized : ℕ → List (ℕ × CartLine) → Type 0
AllSized cap lines = All (λ l. IsSized cap l.1) lines

module _ (cap : ℕ) (product : ℕ) where
  unfoldable pub FoundSized : Option CartLine → Type 0
  FoundSized none = Unit
  FoundSized (some line) = IsSized cap line

  pub hget-Sized :
      (lines : List (ℕ × CartLine)) → AllSized cap lines → FoundSized (hget product lines)
  unfolding hget FoundSized
  hget-Sized [] a = tt
  hget-Sized ((p, l) ∷ lines) a = step (p == product) (hget-Sized lines a.1)
    where
      step :
          (b : Bool)
          → FoundSized (hget product lines)
          → FoundSized (if b then some l else hget product lines)
      step true rest = a.0
      step false rest = rest

  pub hset-Sized :
      (new : CartLine) (lines : List (ℕ × CartLine))
      → IsSized cap new
      → AllSized cap lines
      → AllSized cap (hset product new lines)
  unfolding hset
  hset-Sized new [] s a = (s, tt)
  hset-Sized new ((p, l) ∷ lines) s a = step (p == product) (hset-Sized new lines s a.1)
    where
      step :
          (b : Bool)
          → AllSized cap (hset product new lines)
          → AllSized cap (if b then (p, new) ∷ lines else (p, l) ∷ hset product new lines)
      step true rest = (s, a.1)
      step false rest = (a.0, rest)

  pub hdel-Sized :
      (lines : List (ℕ × CartLine)) → AllSized cap lines → AllSized cap (hdel product lines)
  unfolding hdel
  hdel-Sized [] a = a
  hdel-Sized ((p, l) ∷ lines) a = step (p == product) (hdel-Sized lines a.1)
    where
      step :
          (b : Bool)
          → AllSized cap (hdel product lines)
          → AllSized cap (if b then hdel product lines else (p, l) ∷ hdel product lines)
      step true rest = rest
      step false rest = (a.0, rest)

pub length-hset_there :
    (product : ℕ) (new line : CartLine) (lines : List (ℕ × CartLine))
    → hget product lines ≡ some line
    → length (hset product new lines) ≡ length lines
unfolding hget hset
length-hset_there product new line [] h = ground arith
length-hset_there product new line ((p, l) ∷ lines) h =
    let rest = length-hset_there product new line lines in ground arith

pub length-hset :
    (product : ℕ) (new : CartLine) (lines : List (ℕ × CartLine))
    → length (hset product new lines) ≤ length lines + 1
unfolding hset
length-hset product new [] = omega arith
length-hset product new ((p, l) ∷ lines) = let rest = length-hset product new lines in ground arith

pub length-hdel :
    (product : ℕ) (lines : List (ℕ × CartLine)) → length (hdel product lines) ≤ length lines
unfolding hdel
length-hdel product [] = omega arith
length-hdel product ((p, l) ∷ lines) = let rest = length-hdel product lines in ground arith
