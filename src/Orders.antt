-- ===== src/Orders.antt =====
-- Orders of the staff side (apps/api/src/orders).
pub mod Status
pub mod Kitchen
pub mod Pricing
pub mod Phone
pub mod Create
pub mod Active
