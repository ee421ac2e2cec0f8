-- ===== src/Cart/Reading.antt =====
-- Each round trip of a read of the cart (`get_cart` of src/cart/adapters/valkey/repository.py), which
-- reconciles a line with its projection, keeps it within its caps.
use scalable_ecommerce_backe.Prelude.{
  ℕ, ◌+◌, ◌≤◌, ◌≡◌, refl, ◌==◌, leb, if◌then◌else◌, Bool, true, false, not, ◌&&◌, Option, none,
  some, subst, sym,
}
use scalable_ecommerce_backe.Cart.Hash.{CartLine, Cart, hget}
use scalable_ecommerce_backe.Cart.Scripts.{Projection, deleted, live, should_apply_update, hlen}
use scalable_ecommerce_backe.Cart.Projection.{
  updated_line, apply_updated, updated, write_line, reconcile_line, touch,
}
use scalable_ecommerce_backe.Cart.Sized.{
  IsSized, FoundSized, hget-Sized, hset-Sized, length-hset_there,
}
use scalable_ecommerce_backe.Cart.Within.{IsWithin, remove_item-IsWithin}

-- A refreshed line keeps its quantity.
SameQuantity : CartLine → Option CartLine → Type 0
SameQuantity line none = Unit
SameQuantity line (some new) = new.quantity ≡ line.quantity

if-SameQuantity :
    (b : Bool) (line new : CartLine)
    → new.quantity ≡ line.quantity
    → SameQuantity line (if b then none else some new)
unfolding SameQuantity
if-SameQuantity true line new e = tt
if-SameQuantity false line new e = e

updated_line-SameQuantity :
    (version : Option ℕ) (name price : ℕ) (line : CartLine)
    → SameQuantity line (updated_line version name price line)
unfolding updated_line SameQuantity
updated_line-SameQuantity (some version) name price line =
    if-SameQuantity (not (should_apply_update line.product_version (some version))) line _ refl
updated_line-SameQuantity none name price line = versionless line.product_version
  where
    versionless :
        (stored : Option ℕ)
        → SameQuantity line (elim stored as (λ _. Option CartLine) [
          | some v ↦ none
          | none ↦
              if line.name == name && line.unit_price == price
              then none
              else some (record line { name = name; unit_price = price })
        ])
    versionless (some v) = tt
    versionless none = if-SameQuantity (line.name == name && line.unit_price == price) line _ refl

module _ (cap max_items now ttl : ℕ) where
  write_line-IsWithin :
      (product : ℕ) (cart : Cart) (line : CartLine) (new : Option CartLine)
      → hget product cart.lines ≡ some line
      → IsSized cap line
      → SameQuantity line new
      → IsWithin cap max_items cart
      → IsWithin cap max_items (write_line now ttl product cart new)
  unfolding SameQuantity
  write_line-IsWithin product cart line none h s q w = w
  write_line-IsWithin product cart line (some new) h s q w = record {
    few = subst (λ n. n ≤ max_items) (sym (length-hset_there product new line cart.lines h)) w.few;
    sized =
        hset-Sized cap product new cart.lines (subst (λ n. (1 ≤ n) × (n ≤ cap)) (sym q) s) w.sized;
  }

  apply_updated-IsWithin :
      (product : ℕ) (version : Option ℕ) (name price : ℕ) (cart : Cart)
      → IsWithin cap max_items cart
      → IsWithin cap max_items (apply_updated now ttl product version name price cart)
  unfolding apply_updated FoundSized
  apply_updated-IsWithin product version name price cart w =
      found (hget product cart.lines) refl (hget-Sized cap product cart.lines w.sized)
    where
      found :
          (there : Option CartLine)
          → hget product cart.lines ≡ there
          → FoundSized cap product there
          → IsWithin cap max_items (updated now ttl product version name price cart there)
      found none h s = w
      found (some line) h s =
          write_line-IsWithin product cart line (updated_line version name price line) h s
            (updated_line-SameQuantity version name price line) w

  if-IsWithin :
      (b : Bool) (cart cart' : Cart)
      → IsWithin cap max_items cart
      → IsWithin cap max_items cart'
      → IsWithin cap max_items (if b then cart else cart')
  if-IsWithin true cart cart' w w' = w
  if-IsWithin false cart cart' w w' = w'

  pub reconcile_line-IsWithin :
      (product : ℕ) (line : CartLine) (state : Option Projection) (cart : Cart)
      → IsWithin cap max_items cart
      → IsWithin cap max_items (reconcile_line now ttl product line state cart)
  unfolding reconcile_line
  reconcile_line-IsWithin product line none cart w = w
  reconcile_line-IsWithin product line (some deleted) cart w =
      remove_item-IsWithin cap max_items now ttl product cart w
  reconcile_line-IsWithin product line (some (live version name price)) cart w =
      if-IsWithin _ cart (apply_updated now ttl product version name price cart) w
        (apply_updated-IsWithin product version name price cart w)

  pub touch-IsWithin :
      (cart : Cart) → IsWithin cap max_items cart → IsWithin cap max_items (touch now ttl cart)
  touch-IsWithin cart w =
      if-IsWithin (leb 1 (hlen cart.meta cart.lines))
        (record cart { expires_at = some (now + ttl) }) cart
        (record { few = w.few; sized = w.sized }) w
