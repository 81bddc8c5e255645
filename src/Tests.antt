-- ===== src/Tests.antt =====
-- The theorems applied to one organization's data.
mod Shop
mod Requests
mod Books
mod Invoices
mod Amounts
mod Reports
mod Outbox
mod Notes
mod Quotes
mod Orders
mod Keys
mod Numbers
mod Bank
mod Sessions
mod Tenants
mod Withheld
