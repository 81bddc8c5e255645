-- ===== src/Sales.antt =====
-- modules/sales/sales.service.ts: drafts, confirmation, voiding and payments of sale invoices.
pub mod Draft
pub mod Lines
pub mod Lifecycle
pub mod Safety
pub mod Outcome
pub mod Settlement
pub mod Race
pub mod Revival
pub mod Contract
pub mod Progress
pub mod Release
