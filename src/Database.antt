-- ===== src/Database.antt =====
-- The database of the API (apps/api/prisma/schema.prisma): the columns that the modelled code reads
-- or writes, the store as tables of rows, and the queries of Prisma that the code relies on.
mod Enums
mod Tables
mod Queries
mod Keys
mod Found
pub mod Instance
pub use Enums.*
pub use Tables.*
unfoldable pub use Queries.*
pub use Keys.*
pub use Found.*
