-- ===== src/Cart.antt =====
-- The cart module (src/cart): the hash of a user's cart, the projection of each product, the Lua
-- scripts over them, and their properties.
pub mod Hash
pub mod Scripts
pub mod Projection
pub mod Consumption
pub mod Sized
pub mod Within
pub mod Reading
pub mod Service
mod Tests
