-- ===== src/Accounting.antt =====
-- modules/accounting/accounting.service.ts: the chart of accounts, the journal and their safety.
-- Dates count days; a date of a query arrives parsed, and `none` where it was left out.
pub mod Chart
pub mod Journal
pub mod Safety
pub mod Reports
