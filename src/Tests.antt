-- ===== src/Tests.antt =====
-- Runs of the operations at concrete stores.
mod Fixture
mod Auth
mod Blocking
mod Guard
mod Halls
mod History
mod Network
mod Menu
mod Orders
mod Payments
mod Pos
mod Roster
mod Sessions
mod Staff
mod Tenants
mod Webhooks
