-- ===== src/Menu.antt =====
-- The menu of a restaurant (apps/api/src/menu).
pub mod Rows
pub mod Names
pub mod Catalog
pub mod Ordering
pub mod Items
pub mod Admin
