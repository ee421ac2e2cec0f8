-- ===== src/Cart/Within.antt =====
-- Every script of src/cart/adapters/valkey/repository.py keeps a cart within its caps.
use scalable_ecommerce_backe.Prelude.{
  ℕ, ◌+◌, ◌-◌, ◌≤◌, ◌≡◌, refl, ◌==◌, ltb, leb, if◌then◌else◌, Bool, true, false, Option, none, some,
  List, [], ◌∷◌, arith, sym, length, min, subst, ok, err, Result,
}
use scalable_ecommerce_backe.Cart.Hash.{CartLine, Cart, no_cart, hget, hset, hdel}
use scalable_ecommerce_backe.Cart.Scripts.{
  stamp, hlen, stamp_or_drop, consume_line, consume_loop, consume_lines, Snapshot, Projection,
  Error, cart_full, is_deleted, added_line, add_item, set_quantity, remove_item, written,
  first_text, quantity_range, product_deleted, store, set_line, remove_line,
}
use scalable_ecommerce_backe.Cart.Sized.{
  AllSized, FoundSized, hget-Sized, hset-Sized, hdel-Sized, length-hset_there, length-hset,
  length-hdel,
}

-- A cart within its caps: at most so many lines, each with a quantity from one to the cap.
pub record IsWithin (cap max_items : ℕ) (cart : Cart) : Type 0 where
  pub few : length cart.lines ≤ max_items
  pub sized : AllSized cap cart.lines

module _ (cap max_items : ℕ) where
  drop-IsWithin :
      (now ttl : ℕ) (meta : Option ℕ) (lines : List (ℕ × CartLine))
      → length lines ≤ max_items
      → AllSized cap lines
      → IsWithin cap max_items (stamp_or_drop now ttl meta lines)
  unfolding stamp_or_drop
  drop-IsWithin now ttl meta lines f s = step (leb (hlen meta lines) 1)
    where
      step : (b : Bool) → IsWithin cap max_items (if b then no_cart else stamp now ttl lines)
      step true = record { few = omega arith; sized = tt }
      step false = record { few = f; sized = s }

  unfoldable pub Kept : Cart → Result Error Cart → Type 0
  Kept cart (ok cart') = IsWithin cap max_items cart'
  Kept cart (err e) = Unit

  added-IsWithin :
      (now ttl quantity product : ℕ) (new : Snapshot) (projection : Option Projection) (cart : Cart)
      (there : Option CartLine)
      → hget product cart.lines ≡ there
      → 1 ≤ quantity
      → 1 ≤ cap
      → IsWithin cap max_items cart
      → Kept cart (
          store now ttl product cart
            (added_line quantity cap max_items new projection (length cart.lines) there))
  unfolding added_line Kept
  added-IsWithin now ttl quantity product new projection cart (some old) h q c w = record {
    few = subst (λ n. n ≤ max_items) (sym (length-hset_there product _ old cart.lines h)) w.few;
    sized = hset-Sized cap product _ cart.lines (omega arith, omega arith) w.sized;
  }
  added-IsWithin now ttl quantity product new projection cart none h q c w =
      step (leb max_items (length cart.lines)) (λ e. ground arith)
    where
      line : CartLine
      line = written new (min quantity cap) (first_text new projection)

      step :
          (b : Bool)
          → (b ≡ false → length cart.lines + 1 ≤ max_items)
          → Kept cart (store now ttl product cart (if b then err cart_full else ok line))
      step true room = tt
      step false room = record {
        few =
            let longer = length-hset product line cart.lines in
            let space = room refl in omega arith;
        sized = hset-Sized cap product line cart.lines (omega arith, omega arith) w.sized;
      }

  pub add_item-IsWithin :
      (now ttl quantity product : ℕ) (new : Snapshot) (projection : Option Projection) (cart : Cart)
      → 1 ≤ quantity
      → 1 ≤ cap
      → IsWithin cap max_items cart
      → Kept cart (add_item now ttl quantity cap max_items new projection product cart)
  unfolding add_item Kept
  add_item-IsWithin now ttl quantity product new projection cart q c w =
      step (is_deleted projection)
    where
      result : Result Error Cart
      result = store now ttl product cart (
          added_line quantity cap max_items new projection (length cart.lines)
            (hget product cart.lines))

      step : (b : Bool) → Kept cart (if b then err product_deleted else result)
      step true = tt
      step false =
          added-IsWithin now ttl quantity product new projection cart (hget product cart.lines) refl
            q c w

  hdel-IsWithin :
      (now ttl product : ℕ) (cart : Cart)
      → IsWithin cap max_items cart
      → IsWithin cap max_items (stamp_or_drop now ttl cart.meta (hdel product cart.lines))
  hdel-IsWithin now ttl product cart w =
      drop-IsWithin now ttl cart.meta (hdel product cart.lines)
        (let shorter = length-hdel product cart.lines in let f = w.few in omega arith)
        (hdel-Sized cap product cart.lines w.sized)

  set_line-IsWithin :
      (now ttl quantity product : ℕ) (cart : Cart) (there : Option CartLine)
      → hget product cart.lines ≡ there
      → IsWithin cap max_items cart
      → Kept cart (set_line now ttl quantity cap product cart there)
  unfolding Kept
  set_line-IsWithin now ttl quantity product cart none h w = tt
  set_line-IsWithin now ttl quantity product cart (some line) h w =
      step (quantity == 0) (ltb cap quantity) (λ z. ground arith) (λ b. ground arith)
    where
      new : CartLine
      new = record line { quantity = quantity }

      step :
          (z b : Bool)
          → (z ≡ false → 1 ≤ quantity)
          → (b ≡ false → quantity ≤ cap)
          → Kept cart (
              if z
              then ok (stamp_or_drop now ttl cart.meta (hdel product cart.lines))
              else if b
              then err quantity_range
              else ok (stamp_or_drop now ttl cart.meta (hset product new cart.lines)))
      step true b low high = hdel-IsWithin now ttl product cart w
      step false true low high = tt
      step false false low high =
          drop-IsWithin now ttl cart.meta (hset product new cart.lines)
            (subst (λ n. n ≤ max_items) (sym (length-hset_there product new line cart.lines h))
              w.few)
            (hset-Sized cap product new cart.lines (low refl, high refl) w.sized)

  pub set_quantity-IsWithin :
      (now ttl quantity product : ℕ) (cart : Cart)
      → IsWithin cap max_items cart
      → Kept cart (set_quantity now ttl quantity cap product cart)
  unfolding set_quantity
  set_quantity-IsWithin now ttl quantity product cart w =
      set_line-IsWithin now ttl quantity product cart (hget product cart.lines) refl w

  pub remove_item-IsWithin :
      (now ttl product : ℕ) (cart : Cart)
      → IsWithin cap max_items cart
      → IsWithin cap max_items (remove_item now ttl product cart)
  unfolding remove_item
  remove_item-IsWithin now ttl product cart w = step (hget product cart.lines)
    where
      step :
          (there : Option CartLine)
          → IsWithin cap max_items (remove_line now ttl product cart there)
      step none = w
      step (some line) = hdel-IsWithin now ttl product cart w

  Lines : List (ℕ × CartLine) → Type 0
  Lines lines = (length lines ≤ max_items) × AllSized cap lines

  consume_line-Lines :
      (product quantity : ℕ) (lines : List (ℕ × CartLine)) (there : Option CartLine)
      → hget product lines ≡ there
      → FoundSized cap product there
      → Lines lines
      → Lines (consume_line product quantity there lines)
  unfolding Lines FoundSized
  consume_line-Lines product quantity lines none h s w = w
  consume_line-Lines product quantity lines (some line) h s w =
      step (leb line.quantity quantity) (λ e. ground arith)
    where
      new : CartLine
      new = record line { quantity = line.quantity - quantity }

      step :
          (b : Bool)
          → (b ≡ false → 1 ≤ line.quantity - quantity)
          → Lines (if b then hdel product lines else hset product new lines)
      step true some_left = (
        let shorter = length-hdel product lines in let f = w.0 in omega arith,
        hdel-Sized cap product lines w.1,
      )
      step false some_left = (
        subst (λ n. n ≤ max_items) (sym (length-hset_there product new line lines h)) w.0,
        hset-Sized cap product new lines (some_left refl, let high = s.1 in omega arith) w.1,
      )

  consume_loop-Lines :
      (purchased : List (ℕ × ℕ)) (lines : List (ℕ × CartLine))
      → Lines lines
      → Lines (consume_loop purchased lines)
  unfolding consume_loop Lines
  consume_loop-Lines [] lines w = w
  consume_loop-Lines ((product, quantity) ∷ purchased) lines w =
      consume_loop-Lines purchased
        (if quantity == 0 then lines else consume_line product quantity (hget product lines) lines)
        (step (quantity == 0))
    where
      step :
          (b : Bool)
          → Lines (if b then lines else consume_line product quantity (hget product lines) lines)
      step true = w
      step false =
          consume_line-Lines product quantity lines (hget product lines) refl
            (hget-Sized cap product lines w.1) w

  pub consume_lines-IsWithin :
      (now ttl : ℕ) (purchased : List (ℕ × ℕ)) (cart : Cart)
      → IsWithin cap max_items cart
      → IsWithin cap max_items (consume_lines now ttl purchased cart)
  unfolding consume_lines Lines
  consume_lines-IsWithin now ttl purchased cart w =
      let left = consume_loop-Lines purchased cart.lines (w.few, w.sized) in
      drop-IsWithin now ttl cart.meta (consume_loop purchased cart.lines) left.0 left.1
