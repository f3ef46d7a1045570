-- ===== src/Auth.antt =====
-- Sign-in of staff and managers (apps/api/src/auth), with its cache (apps/api/src/cache).
pub mod Cache
pub mod Instance
pub mod Accounts
pub mod Login
pub mod Codes
pub mod Guard
pub mod Tokens
pub mod Sessions
pub mod Base32
