-- ===== src/Cart/Tests.antt =====
-- A cart at concrete inputs.
use scalable_ecommerce_backe.Prelude.{◌-◌, ◌≡◌, refl, none, some, [], ◌∷◌, map, arith, err}
use scalable_ecommerce_backe.Cart.Hash.{CartLine, Cart, no_cart, hget, hset, hdel}
use scalable_ecommerce_backe.Cart.Scripts.{
  Snapshot, deleted, product_deleted, add_item, consume_lines, consume_loop, stamp_or_drop,
}
use scalable_ecommerce_backe.Cart.Projection.{
  product_updated, product_removed, receive, receive_all, Knows, add_item-removed,
  receive_all-Latest,
}
use scalable_ecommerce_backe.Cart.Within.{IsWithin}
use scalable_ecommerce_backe.Cart.Service.{
  add, change, remove, get_cart, serve_all, serve_all-IsWithin,
}
use scalable_ecommerce_backe.Cart.Consumption.{in_cart, bought, consume_lines-takes}

abbrev pen : CartLine
pen = record {
  name = 70;
  unit_price = 150;
  image_url = none;
  quantity = 4;
  product_version = some 2;
}

abbrev basket : Cart
basket = record { lines = (3, pen) ∷ (5, pen) ∷ []; meta = some 10; expires_at = some 99 }

abbrev snapshot : Snapshot
snapshot = record { name = 70; unit_price = 160; image_url = none; version = some 3 }

consume_lines-takes_example :
    in_cart 5 (consume_lines 20 60 ((3, 4) ∷ (5, 1) ∷ []) basket)
    ≡ in_cart 5 basket - bought 5 ((3, 4) ∷ (5, 1) ∷ [])
consume_lines-takes_example =
    consume_lines-takes 20 60 ((3, 4) ∷ (5, 1) ∷ []) basket 5 (λ absent. ground arith)

three_left : in_cart 5 (consume_lines 20 60 ((3, 4) ∷ (5, 1) ∷ []) basket) ≡ 3
unfolding hget hset hdel consume_lines consume_loop stamp_or_drop
three_left = refl

add_item-removed_example :
    add_item 20 60 1 10 5 snapshot
      (receive_all
        (product_updated (some 9) 70 170 ∷ [])
        (receive product_removed (receive_all (product_updated (some 2) 70 150 ∷ []) none)))
      3
      basket
    ≡ err product_deleted
add_item-removed_example =
    add_item-removed (product_updated (some 2) 70 150 ∷ []) (product_updated (some 9) 70 170 ∷ [])
      none 20 60 1 10 5 snapshot 3 basket

receive_all-Latest_example : Knows 4 (
    receive_all (product_updated (some 3) 70 150 ∷ []) (
      receive
        (product_updated (some 4) 70 155)
        (receive_all (product_updated none 70 140 ∷ []) none)))
receive_all-Latest_example =
    receive_all-Latest (product_updated none 70 140 ∷ []) (product_updated (some 3) 70 150 ∷ []) 4
      70 155 none

serve_all-IsWithin_example : IsWithin 10 2 (
    serve_all 10 2 60
      ((20, add (some snapshot) none 3 4)
        ∷ (21, change (some snapshot) 3 10)
        ∷ (22, remove 5)
        ∷ map (λ r. (23, r)) (get_cart (λ product. some deleted) basket))
      no_cart)
serve_all-IsWithin_example =
    serve_all-IsWithin 10 2 60
      ((20, add (some snapshot) none 3 4)
        ∷ (21, change (some snapshot) 3 10)
        ∷ (22, remove 5)
        ∷ map (λ r. (23, r)) (get_cart (λ product. some deleted) basket))
      (omega arith)
