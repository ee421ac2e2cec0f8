-- ===== src/Cart/Projection.antt =====
-- The projection of one product, which its events write, and the round trips of a read of the cart,
-- which reconciles its lines (src/cart/adapters/valkey/repository.py).
use scalable_ecommerce_backe.Prelude.{
  ℕ, ◌+◌, ◌≤◌, ◌≡◌, refl, ◌==◌, leb, if◌then◌else◌, Bool, true, false, not, ◌&&◌, ◌||◌, Option,
  none, some, List, [], ◌∷◌, arith, err, ap, ◌∙◌,
}
use scalable_ecommerce_backe.Cart.Hash.{CartLine, Cart, hget, hset}
use scalable_ecommerce_backe.Cart.Scripts.{
  Projection, deleted, live, product_deleted, Snapshot, hlen, stamp, add_item, remove_item,
  should_apply_update,
}

-- `_PROJECT_LUA`
unfoldable pub project : Option ℕ → ℕ → ℕ → Option Projection → Bool × Option Projection
project version name price none = (true, some (live version name price))
project version name price (some deleted) = (false, some deleted)
project none name price (some (live (some stored) n p)) = (false, some (live (some stored) n p))
project none name price (some (live none n p)) = (true, some (live none name price))
project (some version) name price (some (live none n p)) =
    (true, some (live (some version) name price))
project (some version) name price (some (live (some stored) n p)) =
    if leb version stored
    then (false, some (live (some stored) n p))
    else (true, some (live (some version) name price))

-- `_TOMBSTONE_LUA`
unfoldable pub tombstone : Option Projection → Bool × Option Projection
tombstone none = (true, some deleted)
tombstone (some deleted) = (false, some deleted)
tombstone (some (live v n p)) = (true, some deleted)

-- `_APPLY_UPDATED_LUA` on the line that it found.
unfoldable pub updated_line : Option ℕ → ℕ → ℕ → CartLine → Option CartLine
updated_line none name price line = elim line.product_version [
  | some stored ↦ none
  | none ↦
      if line.name == name && line.unit_price == price
      then none
      else some (record line { name = name; unit_price = price })
]
updated_line (some version) name price line =
    if not (should_apply_update line.product_version (some version))
    then none
    else some (record line { name = name; unit_price = price; product_version = some version })

abbrev pub write_line : ℕ → ℕ → ℕ → Cart → Option CartLine → Cart
write_line now ttl product cart none = cart
write_line now ttl product cart (some line) = stamp now ttl (hset product line cart.lines)

abbrev pub updated : ℕ → ℕ → ℕ → Option ℕ → ℕ → ℕ → Cart → Option CartLine → Cart
updated now ttl product version name price cart none = cart
updated now ttl product version name price cart (some line) =
    write_line now ttl product cart (updated_line version name price line)

unfoldable pub apply_updated : ℕ → ℕ → ℕ → Option ℕ → ℕ → ℕ → Cart → Cart
unfolding updated_line
apply_updated now ttl product version name price cart =
    updated now ttl product version name price cart (hget product cart.lines)

-- One line of `get_cart`'s loop, as it was read, against the projection that `mget` returned for it.
abbrev is_same : Option ℕ → ℕ → ℕ → CartLine → Bool
is_same (some version) name price line = false
is_same none name price line = line.name == name && line.unit_price == price

unfoldable pub reconcile_line : ℕ → ℕ → ℕ → CartLine → Option Projection → Cart → Cart
reconcile_line now ttl product line none cart = cart
reconcile_line now ttl product line (some deleted) cart = remove_item now ttl product cart
reconcile_line now ttl product line (some (live version name price)) cart =
    if not (should_apply_update line.product_version version) || is_same version name price line
    then cart
    else apply_updated now ttl product version name price cart

-- The first round trip of `get_cart`: the time-to-live of a cart that is there is renewed.
abbrev pub touch : ℕ → ℕ → Cart → Cart
touch now ttl cart =
    if leb 1 (hlen cart.meta cart.lines)
    then record cart { expires_at = some (now + ttl) }
    else cart

-- The events of one product.
pub data Event : Type 0 where
  product_updated : Option ℕ → ℕ → ℕ → Event
  product_removed : Event

unfoldable pub receive : Event → Option Projection → Option Projection
receive (product_updated version name price) state = (project version name price state).1
receive product_removed state = (tombstone state).1

unfoldable pub receive_all : List Event → Option Projection → Option Projection
receive_all [] state = state
receive_all (e ∷ es) state = receive_all es (receive e state)

receive-tombstone : (e : Event) → receive e (some deleted) ≡ some deleted
unfolding receive project tombstone
receive-tombstone (product_updated none name price) = refl
receive-tombstone (product_updated (some v) name price) = refl
receive-tombstone product_removed = refl

receive_all-tombstone : (es : List Event) → receive_all es (some deleted) ≡ some deleted
unfolding receive_all
receive_all-tombstone [] = refl
receive_all-tombstone (e ∷ es) =
    ap (receive_all es) (receive-tombstone e) ∙ receive_all-tombstone es

tombstone-deleted : (state : Option Projection) → (tombstone state).1 ≡ some deleted
unfolding tombstone
tombstone-deleted none = refl
tombstone-deleted (some deleted) = refl
tombstone-deleted (some (live v n p)) = refl

-- Once a product is removed, no add of it succeeds, whatever events of it were received before and
-- come after: it is refused as deleted.
pub add_item-removed :
    (before after : List Event) (state : Option Projection) (now ttl quantity cap max_items : ℕ)
    (new : Snapshot) (product : ℕ) (cart : Cart)
    → add_item now ttl quantity cap max_items new
        (receive_all after (receive product_removed (receive_all before state)))
        product
        cart
      ≡ err product_deleted
unfolding add_item receive
add_item-removed before after state now ttl quantity cap max_items new product cart =
    ap (λ p. add_item now ttl quantity cap max_items new p product cart)
      (ap (receive_all after) (tombstone-deleted (receive_all before state))
        ∙ receive_all-tombstone after)

-- What a projection knows of a version: at least this much, or a tombstone.
abbrev pub Knows : ℕ → Option Projection → Type 0
Knows version none = ⊥
Knows version (some deleted) = Unit
Knows version (some (live none n p)) = ⊥
Knows version (some (live (some stored) n p)) = version ≤ stored

receive-Knows :
    (e : Event) (version : ℕ) (state : Option Projection)
    → Knows version state
    → Knows version (receive e state)
unfolding receive project tombstone
receive-Knows e version none k = absurd k
receive-Knows e version (some (live none n p)) k = absurd k
receive-Knows (product_updated none name price) version (some deleted) k = tt
receive-Knows (product_updated (some v) name price) version (some deleted) k = tt
receive-Knows product_removed version (some deleted) k = tt
receive-Knows product_removed version (some (live (some stored) n p)) k = tt
receive-Knows (product_updated none name price) version (some (live (some stored) n p)) k = k
receive-Knows (product_updated (some v) name price) version (some (live (some stored) n p)) k =
    ground arith

told-Knows :
    (version name price : ℕ) (state : Option Projection)
    → Knows version (receive (product_updated (some version) name price) state)
unfolding receive project
told-Knows version name price none = omega arith
told-Knows version name price (some deleted) = tt
told-Knows version name price (some (live none n p)) = omega arith
told-Knows version name price (some (live (some stored) n p)) = ground arith

receive_all-Knows :
    (es : List Event) (version : ℕ) (state : Option Projection)
    → Knows version state
    → Knows version (receive_all es state)
unfolding receive_all
receive_all-Knows [] version state k = k
receive_all-Knows (e ∷ es) version state k =
    receive_all-Knows es version (receive e state) (receive-Knows e version state k)

-- Once an update of some version was received, the projection is a tombstone or of that version at
-- least, whatever events come before and after it and in whatever order.
pub receive_all-Latest :
    (before after : List Event) (version name price : ℕ) (state : Option Projection)
    → Knows version (
        receive_all after
          (receive (product_updated (some version) name price) (receive_all before state)))
receive_all-Latest before after version name price state =
    receive_all-Knows after version _ (told-Knows version name price (receive_all before state))
