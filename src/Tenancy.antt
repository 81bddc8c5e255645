-- ===== src/Tenancy.antt =====
-- src/prisma/prisma-extensions.ts: `composeQueryArgs`, through which every query of the service
-- passes. A property of an object is a key with a value; a value is null, a text, or a condition
-- that is not looked into. Arguments that are no object pass as they are, and are left out.
pub mod Models
pub mod Objects
pub mod Compose
pub mod Rows
