-- ===== src/History.antt =====
-- The orders under all components together: the operations that write orders, one after the other in
-- any order.
pub mod Kept
pub mod Added
pub mod Touched
pub mod Reach
