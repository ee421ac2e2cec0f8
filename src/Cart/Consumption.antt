-- ===== src/Cart/Consumption.antt =====
-- What a checkout takes out of the cart (`consume_lines` of
-- src/cart/adapters/valkey/repository.py).
use scalable_ecommerce_backe.Prelude.{
  ℕ, ◌+◌, ◌-◌, ◌≡◌, refl, ◌==◌, leb, if◌then◌else◌, Bool, true, false, Option, none, some, List, [],
  ◌∷◌, arith, ap, ◌∙◌, sym, Bool-cases, inl, inr, length, subst, eq_of_==,
}
use scalable_ecommerce_backe.Cart.Hash.{
  CartLine, Cart, no_cart, hget, hset, hdel, hget-hset_same, hget-hset_other, hget-hdel_same,
  hget-hdel_other,
}
use scalable_ecommerce_backe.Cart.Scripts.{
  stamp, hlen, stamp_or_drop, consume_line, consume_loop, consume_lines,
}

abbrev pub quantity : Option CartLine → ℕ
quantity none = 0
quantity (some line) = line.quantity

-- How much of a product the cart holds, and how much of it was bought.
abbrev pub in_cart : ℕ → Cart → ℕ
in_cart product cart = quantity (hget product cart.lines)

abbrev pub bought : ℕ → List (ℕ × ℕ) → ℕ
bought product [] = 0
bought product ((p, n) ∷ purchased) = (if p == product then n else 0) + bought product purchased

-- A cart with a line has its `$meta`.
abbrev pub IsStamped : Cart → Type 0
IsStamped cart = cart.meta ≡ none → cart.lines ≡ []

consume_line-same :
    (p n : ℕ) (lines : List (ℕ × CartLine)) (there : Option CartLine)
    → hget p lines ≡ there
    → quantity (hget p (consume_line p n there lines)) ≡ quantity there - n
consume_line-same p n lines none h = ap quantity h ∙ omega arith
consume_line-same p n lines (some line) h = step (leb line.quantity n) refl
  where
    step :
        (b : Bool)
        → leb line.quantity n ≡ b
        → quantity (
            hget p (
              if b
              then hdel p lines
              else hset p (record line { quantity = line.quantity - n }) lines))
          ≡ line.quantity - n
    step true e = ap quantity (hget-hdel_same p lines) ∙ ground arith
    step false e =
        ap quantity (hget-hset_same p (record line { quantity = line.quantity - n }) lines)

consume_line-other :
    (p q n : ℕ) (lines : List (ℕ × CartLine)) (there : Option CartLine)
    → (p == q) ≡ false
    → hget q (consume_line p n there lines) ≡ hget q lines
consume_line-other p q n lines none h = refl
consume_line-other p q n lines (some line) h = step (leb line.quantity n)
  where
    step :
        (b : Bool)
        → hget q (
            if b then hdel p lines else hset p (record line { quantity = line.quantity - n }) lines)
          ≡ hget q lines
    step true = hget-hdel_other p q lines h
    step false = hget-hset_other p q (record line { quantity = line.quantity - n }) lines h

-- One purchased line takes its own product's units and no other's.
consumed :
    (p q n : ℕ) (lines : List (ℕ × CartLine))
    → quantity (hget q (if n == 0 then lines else consume_line p n (hget p lines) lines))
      ≡ quantity (hget q lines) - (if p == q then n else 0)
consumed p q n lines = elim (Bool-cases (n == 0)) [
  | inl z ↦
      ap (λ b. quantity (hget q (if b then lines else consume_line p n (hget p lines) lines))) z
      ∙ ground arith
  | inr nz ↦
      ap (λ b. quantity (hget q (if b then lines else consume_line p n (hget p lines) lines))) nz
      ∙ elim (Bool-cases (p == q)) [
        | inr differ ↦
            ap quantity (consume_line-other p q n lines (hget p lines) differ) ∙ ground arith
        | inl same ↦
            subst
              (λ r.
                quantity (hget r (consume_line p n (hget p lines) lines))
                ≡ quantity (hget r lines) - (if p == r then n else 0))
              (eq_of_== p q same) (consume_line-same p n lines (hget p lines) refl ∙ ground arith)
      ]
]

consume_loop-takes :
    (purchased : List (ℕ × ℕ)) (q : ℕ) (lines : List (ℕ × CartLine))
    → quantity (hget q (consume_loop purchased lines))
      ≡ quantity (hget q lines) - bought q purchased
unfolding consume_loop
consume_loop-takes [] q lines = omega arith
consume_loop-takes ((p, n) ∷ purchased) q lines =
    consume_loop-takes purchased q (if n == 0 then lines else consume_line p n (hget p lines) lines)
    ∙ ap (λ k. k - bought q purchased) (consumed p q n lines)
    ∙ omega arith

consume_loop-nil : (purchased : List (ℕ × ℕ)) → consume_loop purchased [] ≡ []
unfolding consume_loop hget
consume_loop-nil [] = refl
consume_loop-nil ((p, n) ∷ purchased) = step (n == 0) (consume_loop-nil purchased)
  where
    step :
        (b : Bool)
        → consume_loop purchased [] ≡ []
        → consume_loop purchased (if b then [] else []) ≡ []
    step true rest = rest
    step false rest = rest

-- The cart after a checkout holds, of each product, what it held less what was bought of it, and
-- nothing of a product of which at least as much was bought: a line added meanwhile survives. This
-- holds of a cart that has its stamp wherever it has a line.
pub consume_lines-takes :
    (now ttl : ℕ) (purchased : List (ℕ × ℕ)) (cart : Cart) (product : ℕ)
    → IsStamped cart
    → in_cart product (consume_lines now ttl purchased cart)
      ≡ in_cart product cart - bought product purchased
unfolding consume_lines stamp_or_drop
consume_lines-takes now ttl purchased cart product s =
    kept (leb (hlen cart.meta left) 1) (λ e. emptied cart.meta s e)
    ∙ consume_loop-takes purchased product cart.lines
  where
    left : List (ℕ × CartLine)
    left = consume_loop purchased cart.lines

    emptied :
        (meta : Option ℕ)
        → (meta ≡ none → cart.lines ≡ [])
        → leb (hlen meta left) 1 ≡ true
        → left ≡ []
    emptied none none_left e =
        ap (consume_loop purchased) (none_left refl) ∙ consume_loop-nil purchased
    emptied (some at) none_left e = is_nil left e
      where
        is_nil : (lines : List (ℕ × CartLine)) → leb (length lines + 1) 1 ≡ true → lines ≡ []
        is_nil [] e = refl
        is_nil (l ∷ lines) e = ground arith

    kept :
        (b : Bool)
        → (b ≡ true → left ≡ [])
        → quantity (hget product (if b then no_cart else stamp now ttl left).lines)
          ≡ quantity (hget product left)
    kept true gone = ap (λ ls. quantity (hget product ls)) (sym (gone refl))
    kept false gone = refl
