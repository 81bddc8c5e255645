-- ===== src/Store.antt =====
-- The tables that the services read and write through Prisma, and the transaction that a service
-- method runs in: prisma/schema.prisma, as src/modules use it.
-- An id (a UUID, which the database hands out) is a number; a reference to a row is its id. A
-- quantity of stock is in thousandths (a column of three places), an amount in cents.
-- Texts, actor columns and `createdAt` are left out: no condition of the services reads them.
mod Rows
mod Documents
mod Database
mod Monad
pub mod Keeps
pub mod Leads
pub mod Succeeds
pub use Rows.*
pub use Documents.*
pub use Database.*
unfoldable pub use Monad.*
