-- ===== src/Tenants.antt =====
-- The separation of restaurants in the database client (apps/api/src/prisma/prisma.service.ts).
pub mod Arguments
pub mod Scope
pub mod Blocking
