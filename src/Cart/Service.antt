-- ===== src/Cart/Service.antt =====
-- `CartService` (src/cart/application/service.py) for one user's cart: the checks at the boundary,
-- the catalog's answer, and the repository's call. The catalog and the product's projection come
-- from outside. What is raised is beside the cart that is left.
use scalable_ecommerce_backe.Prelude.{
  ℕ, ◌≤◌, ◌≡◌, refl, ltb, if◌then◌else◌, Bool, true, false, ◌||◌, Option, none, some, List, [], ◌∷◌,
  arith, ok, err, Result, map, sort_by,
}
use scalable_ecommerce_backe.Cart.Hash.{CartLine, Cart, no_cart}
use scalable_ecommerce_backe.Cart.Scripts.{
  Snapshot, Projection, Error, cart_full, product_deleted, line_absent, quantity_range, add_item,
  set_quantity, remove_item, consume_lines, clear_cart,
}
use scalable_ecommerce_backe.Cart.Projection.{touch, reconcile_line}
use scalable_ecommerce_backe.Cart.Reading.{touch-IsWithin, reconcile_line-IsWithin}
use scalable_ecommerce_backe.Cart.Within.{
  IsWithin, Kept, add_item-IsWithin, set_quantity-IsWithin, remove_item-IsWithin,
  consume_lines-IsWithin,
}

pub data ServiceError : Type 0 where
  invalid_operation product_not_found line_not_found : ServiceError

-- What the service makes of the repository's errors.
abbrev pub translate : Error → ServiceError
translate cart_full = invalid_operation
translate product_deleted = product_not_found
translate line_absent = line_not_found
translate quantity_range = invalid_operation

abbrev pub answer : Cart → Result Error Cart → Result ServiceError (Unit {0}) × Cart
answer cart (ok cart') = (ok tt, cart')
answer cart (err e) = (err (translate e), cart)

-- A request for the cart, with what the catalog and the projection say at that moment.
pub data Request : Type 0 where
  add : Option Snapshot → Option Projection → ℕ → ℕ → Request
  change : Option Snapshot → ℕ → ℕ → Request
  remove : ℕ → Request
  consume : List (ℕ × ℕ) → Request
  clear : Request
  view : Request
  reconcile : ℕ → CartLine → Option Projection → Request

-- `get_cart`: the round trips of a read, of the lines and the projections that it found. Each is a
-- request of its own, since other requests may come between them.
unfoldable pub get_cart : (ℕ → Option Projection) → Cart → List Request
get_cart states cart =
    view ∷ map (λ l. reconcile l.0 l.1 (states l.0)) (sort_by (λ l. l.0) cart.lines)

module _ (cap max_items : ℕ) where
  -- `_check_quantity`
  abbrev pub is_invalid : ℕ → Bool
  is_invalid quantity = ltb quantity 1 || ltb cap quantity

  abbrev add_known :
      ℕ
      → ℕ
      → Option Projection
      → ℕ
      → ℕ
      → Cart
      → Option Snapshot
      → Result ServiceError (Unit {0}) × Cart
  add_known now ttl projection product quantity cart none = (err product_not_found, cart)
  add_known now ttl projection product quantity cart (some snapshot) =
      answer cart (add_item now ttl quantity cap max_items snapshot projection product cart)

  unfoldable pub add_to_cart :
      ℕ
      → ℕ
      → Option Snapshot
      → Option Projection
      → ℕ
      → ℕ
      → Cart
      → Result ServiceError (Unit {0}) × Cart
  add_to_cart now ttl snapshot projection product quantity cart =
      if is_invalid quantity
      then (err invalid_operation, cart)
      else add_known now ttl projection product quantity cart snapshot

  abbrev change_known :
      ℕ → ℕ → ℕ → ℕ → Cart → Option Snapshot → Result ServiceError (Unit {0}) × Cart
  change_known now ttl product quantity cart none =
      (err product_not_found, remove_item now ttl product cart)
  change_known now ttl product quantity cart (some snapshot) =
      answer cart (set_quantity now ttl quantity cap product cart)

  unfoldable pub change_quantity :
      ℕ → ℕ → Option Snapshot → ℕ → ℕ → Cart → Result ServiceError (Unit {0}) × Cart
  change_quantity now ttl snapshot product quantity cart =
      if ltb cap quantity
      then (err invalid_operation, cart)
      else change_known now ttl product quantity cart snapshot

  unfoldable pub serve : ℕ → ℕ → Request → Cart → Cart
  unfolding add_to_cart change_quantity
  serve now ttl (add snapshot projection product quantity) cart =
      (add_to_cart now ttl snapshot projection product quantity cart).1
  serve now ttl (change snapshot product quantity) cart =
      (change_quantity now ttl snapshot product quantity cart).1
  serve now ttl (remove product) cart = remove_item now ttl product cart
  serve now ttl (consume purchased) cart = consume_lines now ttl purchased cart
  serve now ttl clear cart = clear_cart cart
  serve now ttl view cart = touch now ttl cart
  serve now ttl (reconcile product line state) cart = reconcile_line now ttl product line state cart

  -- The requests of a user's devices, one after the other as the server runs the scripts; those of a
  -- read are what `get_cart` lists, with any others between them.
  unfoldable pub serve_all : ℕ → List (ℕ × Request) → Cart → Cart
  serve_all ttl [] cart = cart
  serve_all ttl ((now, r) ∷ requests) cart = serve_all ttl requests (serve now ttl r cart)

  answer-IsWithin :
      (cart : Cart) (r : Result Error Cart)
      → IsWithin cap max_items cart
      → Kept cap max_items cart r
      → IsWithin cap max_items (answer cart r).1
  unfolding Kept
  answer-IsWithin cart (ok cart') w k = k
  answer-IsWithin cart (err e) w k = w

  abbrev EndsWithin : Result ServiceError (Unit {0}) × Cart → Type 0
  EndsWithin r = IsWithin cap max_items r.1

  if-EndsWithin :
      (b : Bool) (x y : Result ServiceError (Unit {0}) × Cart)
      → EndsWithin x
      → (b ≡ false → EndsWithin y)
      → EndsWithin (if b then x else y)
  if-EndsWithin true x y wx wy = wx
  if-EndsWithin false x y wx wy = wy refl

  serve-IsWithin :
      (now ttl : ℕ) (r : Request) (cart : Cart)
      → 1 ≤ cap
      → IsWithin cap max_items cart
      → IsWithin cap max_items (serve now ttl r cart)
  unfolding serve add_to_cart change_quantity clear_cart
  serve-IsWithin now ttl (add snapshot projection product quantity) cart c w =
      if-EndsWithin (is_invalid quantity) (err invalid_operation, cart)
        (add_known now ttl projection product quantity cart snapshot) w
        (λ e. known snapshot (ground arith))
    where
      known :
          (s : Option Snapshot)
          → 1 ≤ quantity
          → EndsWithin (add_known now ttl projection product quantity cart s)
      known none q = w
      known (some s) q =
          answer-IsWithin cart (add_item now ttl quantity cap max_items s projection product cart) w
            (add_item-IsWithin cap max_items now ttl quantity product s projection cart q c w)
  serve-IsWithin now ttl (change snapshot product quantity) cart c w =
      if-EndsWithin (ltb cap quantity) (err invalid_operation, cart)
        (change_known now ttl product quantity cart snapshot) w (λ e. known snapshot)
    where
      known : (s : Option Snapshot) → EndsWithin (change_known now ttl product quantity cart s)
      known none = remove_item-IsWithin cap max_items now ttl product cart w
      known (some s) =
          answer-IsWithin cart (set_quantity now ttl quantity cap product cart) w
            (set_quantity-IsWithin cap max_items now ttl quantity product cart w)
  serve-IsWithin now ttl (remove product) cart c w =
      remove_item-IsWithin cap max_items now ttl product cart w
  serve-IsWithin now ttl (consume purchased) cart c w =
      consume_lines-IsWithin cap max_items now ttl purchased cart w
  serve-IsWithin now ttl clear cart c w = record { few = omega arith; sized = tt }
  serve-IsWithin now ttl view cart c w = touch-IsWithin cap max_items now ttl cart w
  serve-IsWithin now ttl (reconcile product line state) cart c w =
      reconcile_line-IsWithin cap max_items now ttl product line state cart w

  served :
      (ttl : ℕ) (requests : List (ℕ × Request)) (cart : Cart)
      → 1 ≤ cap
      → IsWithin cap max_items cart
      → IsWithin cap max_items (serve_all ttl requests cart)
  unfolding serve_all
  served ttl [] cart c w = w
  served ttl ((now, r) ∷ requests) cart c w =
      served ttl requests (serve now ttl r cart) c (serve-IsWithin now ttl r cart c w)

  -- Whatever requests reach a user's cart, in whatever order and whatever the catalog and the
  -- projections say, a cart that starts empty never holds more lines than allowed, nor a line whose
  -- quantity is not from one to the cap, provided that the cap is at least one.
  pub serve_all-IsWithin :
      (ttl : ℕ) (requests : List (ℕ × Request))
      → 1 ≤ cap
      → IsWithin cap max_items (serve_all ttl requests no_cart)
  serve_all-IsWithin ttl requests c =
      served ttl requests no_cart c (record { few = omega arith; sized = tt })
