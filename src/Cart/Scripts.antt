-- ===== src/Cart/Scripts.antt =====
-- The Lua scripts of src/cart/adapters/valkey/repository.py over a cart's hash, and the predicate
-- `should_apply_update` of src/cart/domain/cart.py. A script stamps `$meta` with the time.
use scalable_ecommerce_backe.Prelude.{
  ℕ, ◌+◌, ◌-◌, ◌==◌, ltb, leb, if◌then◌else◌, Bool, true, false, ◌&&◌, Option, none, some, List, [],
  ◌∷◌, length, min, ok, err, Result,
}
use scalable_ecommerce_backe.Cart.Hash.{CartLine, Cart, no_cart, hget, hset, hdel}

-- A product's projection: its tombstone, or its latest event.
pub data Projection : Type 0 where
  deleted : Projection
  live : Option ℕ → ℕ → ℕ → Projection

pub data Error : Type 0 where
  cart_full product_deleted line_absent quantity_range : Error

pub record Snapshot : Type 0 where
  pub name : ℕ
  pub unit_price : ℕ
  pub image_url : Option ℕ
  pub version : Option ℕ

-- What a script's last lines do: a cart that holds `$meta` alone is deleted.
abbrev pub stamp : ℕ → ℕ → List (ℕ × CartLine) → Cart
stamp now ttl lines = record { lines = lines; meta = some now; expires_at = some (now + ttl) }

-- `hlen`: the lines, and `$meta` where it is there.
abbrev pub hlen : Option ℕ → List (ℕ × CartLine) → ℕ
hlen none lines = length lines
hlen (some at) lines = length lines + 1

unfoldable pub stamp_or_drop : ℕ → ℕ → Option ℕ → List (ℕ × CartLine) → Cart
stamp_or_drop now ttl meta lines = if leb (hlen meta lines) 1 then no_cart else stamp now ttl lines

unfoldable pub should_apply_update : Option ℕ → Option ℕ → Bool
should_apply_update none none = true
should_apply_update (some stored) none = false
should_apply_update none (some incoming) = true
should_apply_update (some stored) (some incoming) = ltb stored incoming

-- The version, name and price of an incremented line, first against the line that is there.
abbrev pub Text : Type 0
Text = Option ℕ × (ℕ × ℕ)

abbrev pub against_line : Snapshot → CartLine → Text
against_line new old = elim new.version [
  | none ↦ (old.product_version, (new.name, new.unit_price))
  | some incoming ↦ elim old.product_version [
    | none ↦ (some incoming, (new.name, new.unit_price))
    | some stored ↦ if ltb incoming stored then (some stored, (old.name, old.unit_price)) else (
      (if ltb stored incoming then some incoming else some stored),
      (new.name, new.unit_price),
    )
  ]
]

abbrev older : Option ℕ → ℕ → Bool
older none version = true
older (some v) version = ltb v version

-- … and then against the projection.
abbrev pub against_projection : Snapshot → Option Projection → Text → Text
against_projection new none t = t
against_projection new (some deleted) t = t
against_projection new (some (live none name price)) t = t
against_projection new (some (live (some version) name price)) t = elim new.version [
  | none ↦ t
  | some incoming ↦
      if ltb incoming version && older t.0 version then (some version, (name, price)) else t
]

-- Those of a line that is not there yet.
abbrev pub first_text : Snapshot → Option Projection → Text
first_text new none = (new.version, (new.name, new.unit_price))
first_text new (some deleted) = (new.version, (new.name, new.unit_price))
first_text new (some (live none name price)) = elim new.version [
  | none ↦ (some 0, (new.name, new.unit_price))
  | some incoming ↦ (some incoming, (new.name, new.unit_price))
]
first_text new (some (live (some version) name price)) = elim new.version [
  | none ↦ (some version, (new.name, new.unit_price))
  | some incoming ↦
      if leb version incoming
      then (some incoming, (new.name, new.unit_price))
      else (some version, (name, price))
]

abbrev pub written : Snapshot → ℕ → Text → CartLine
written new quantity t = record {
  name = t.1.0;
  unit_price = t.1.1;
  image_url = new.image_url;
  quantity = quantity;
  product_version = t.0;
}

abbrev pub is_deleted : Option Projection → Bool
is_deleted none = false
is_deleted (some deleted) = true
is_deleted (some (live v n p)) = false

-- The line that `_ADD_LUA` writes, where it writes one.
unfoldable pub added_line :
    ℕ → ℕ → ℕ → Snapshot → Option Projection → ℕ → Option CartLine → Result Error CartLine
added_line quantity cap max_items new projection lines (some old) = ok (
    written new (min (old.quantity + quantity) cap)
      (against_projection new projection (against_line new old)))
added_line quantity cap max_items new projection lines none =
    if leb max_items lines
    then err cart_full
    else ok (written new (min quantity cap) (first_text new projection))

abbrev pub store : ℕ → ℕ → ℕ → Cart → Result Error CartLine → Result Error Cart
store now ttl product cart (err e) = err e
store now ttl product cart (ok line) = ok (stamp now ttl (hset product line cart.lines))

-- `_ADD_LUA`
unfoldable pub add_item :
    ℕ → ℕ → ℕ → ℕ → ℕ → Snapshot → Option Projection → ℕ → Cart → Result Error Cart
unfolding added_line
add_item now ttl quantity cap max_items new projection product cart =
    if is_deleted projection
    then err product_deleted
    else store now ttl product cart (
        added_line quantity cap max_items new projection (length cart.lines)
          (hget product cart.lines))

-- `_SET_LUA`
abbrev pub set_line : ℕ → ℕ → ℕ → ℕ → ℕ → Cart → Option CartLine → Result Error Cart
set_line now ttl quantity cap product cart none = err line_absent
set_line now ttl quantity cap product cart (some line) =
    if quantity == 0
    then ok (stamp_or_drop now ttl cart.meta (hdel product cart.lines))
    else if ltb cap quantity
    then err quantity_range
    else ok (
        stamp_or_drop now ttl cart.meta
          (hset product (record line { quantity = quantity }) cart.lines))

unfoldable pub set_quantity : ℕ → ℕ → ℕ → ℕ → ℕ → Cart → Result Error Cart
set_quantity now ttl quantity cap product cart =
    set_line now ttl quantity cap product cart (hget product cart.lines)

-- `_REMOVE_LUA`, and `_APPLY_DELETED_LUA`, which does the same.
abbrev pub remove_line : ℕ → ℕ → ℕ → Cart → Option CartLine → Cart
remove_line now ttl product cart none = cart
remove_line now ttl product cart (some line) =
    stamp_or_drop now ttl cart.meta (hdel product cart.lines)

unfoldable pub remove_item : ℕ → ℕ → ℕ → Cart → Cart
remove_item now ttl product cart = remove_line now ttl product cart (hget product cart.lines)

-- `_CONSUME_LUA`: one purchased line, the loop, and the stamp.
abbrev pub consume_line : ℕ → ℕ → Option CartLine → List (ℕ × CartLine) → List (ℕ × CartLine)
consume_line product quantity none lines = lines
consume_line product quantity (some line) lines =
    if leb line.quantity quantity
    then hdel product lines
    else hset product (record line { quantity = line.quantity - quantity }) lines

unfoldable pub consume_loop : List (ℕ × ℕ) → List (ℕ × CartLine) → List (ℕ × CartLine)
consume_loop [] lines = lines
consume_loop ((product, quantity) ∷ purchased) lines =
    consume_loop purchased
      (if quantity == 0 then lines else consume_line product quantity (hget product lines) lines)

unfoldable pub consume_lines : ℕ → ℕ → List (ℕ × ℕ) → Cart → Cart
consume_lines now ttl purchased cart =
    stamp_or_drop now ttl cart.meta (consume_loop purchased cart.lines)

-- `_CLEAR_LUA`
unfoldable pub clear_cart : Cart → Cart
clear_cart cart = no_cart
