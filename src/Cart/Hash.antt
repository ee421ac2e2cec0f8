-- ===== src/Cart/Hash.antt =====
-- The hash `cart:{user_id}` of src/cart/adapters/valkey/repository.py: a line per product and the
-- `$meta` field. Names, prices and image addresses are compared only. A key that is absent has no
-- field. Expiry is the server's: a script sees the cart that is left.
use scalable_ecommerce_backe.Prelude.{
  ℕ, ◌≡◌, refl, ◌==◌, if◌then◌else◌, false, Option, none, some, List, [], ◌∷◌, arith,
}

pub record CartLine : Type 0 where
  pub name : ℕ
  pub unit_price : ℕ
  pub image_url : Option ℕ
  pub quantity : ℕ
  pub product_version : Option ℕ

pub record Cart : Type 0 where
  pub lines : List (ℕ × CartLine)
  pub meta : Option ℕ
  pub expires_at : Option ℕ

abbrev pub no_cart : Cart
no_cart = record { lines = []; meta = none; expires_at = none }

unfoldable pub hget : ℕ → List (ℕ × CartLine) → Option CartLine
hget product [] = none
hget product ((p, line) ∷ lines) = if p == product then some line else hget product lines

-- The line is overwritten where it is there, else added.
unfoldable pub hset : ℕ → CartLine → List (ℕ × CartLine) → List (ℕ × CartLine)
hset product new [] = (product, new) ∷ []
hset product new ((p, line) ∷ lines) =
    if p == product then (p, new) ∷ lines else (p, line) ∷ hset product new lines

unfoldable pub hdel : ℕ → List (ℕ × CartLine) → List (ℕ × CartLine)
hdel product [] = []
hdel product ((p, line) ∷ lines) =
    if p == product then hdel product lines else (p, line) ∷ hdel product lines

pub hget-hset_same :
    (p : ℕ) (new : CartLine) (lines : List (ℕ × CartLine)) → hget p (hset p new lines) ≡ some new
unfolding hget hset
hget-hset_same p new [] = ground arith
hget-hset_same p new ((q, line) ∷ lines) = let rest = hget-hset_same p new lines in ground arith

pub hget-hset_other :
    (p q : ℕ) (new : CartLine) (lines : List (ℕ × CartLine))
    → (p == q) ≡ false
    → hget q (hset p new lines) ≡ hget q lines
unfolding hget hset
hget-hset_other p q new [] h = ground arith
hget-hset_other p q new ((r, line) ∷ lines) h =
    let rest = hget-hset_other p q new lines h in ground arith

pub hget-hdel_same : (p : ℕ) (lines : List (ℕ × CartLine)) → hget p (hdel p lines) ≡ none
unfolding hget hdel
hget-hdel_same p [] = refl
hget-hdel_same p ((q, line) ∷ lines) = let rest = hget-hdel_same p lines in ground arith

pub hget-hdel_other :
    (p q : ℕ) (lines : List (ℕ × CartLine))
    → (p == q) ≡ false
    → hget q (hdel p lines) ≡ hget q lines
unfolding hget hdel
hget-hdel_other p q [] h = refl
hget-hdel_other p q ((r, line) ∷ lines) h = let rest = hget-hdel_other p q lines h in ground arith
