-- ===== src/Pos.antt =====
-- The restaurant's point-of-sale system.
pub mod Recovery
pub mod Pending
pub mod Network
