-- ===== src/Staff.antt =====
-- Shifts of the cash desk.
pub mod Shifts
pub mod Members
pub mod Inputs
pub mod Roster
