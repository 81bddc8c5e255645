-- ===== src/Store/Database.antt =====
-- The database that holds the rows, and the clock that the services read.
use biz360_sme_erp_e_tims.Base.{ℕ, List}
use biz360_sme_erp_e_tims.Store.Rows.{
  Account, JournalEntry, Item, Movement, Party, Setting, Invoice, Payment, OutboxEvent,
}
use biz360_sme_erp_e_tims.Store.Documents.{
  CreditNote, Quotation, PurchaseOrder, GoodsReceipt, BankAccount, BankLine, Reconciliation,
}

-- `next_id` is the id that the database hands out next, `today` the day and
-- `now` the millisecond of the clock. A sequence table gives
-- each organization the value that was used last, 0 where it has no row yet.
pub record Db : Type 0 where
  pub next_id : ℕ
  pub today : ℕ
  pub now : ℕ
  pub accounts : List Account
  pub entries : List JournalEntry
  pub entry_seq : ℕ → ℕ
  pub items : List Item
  pub movements : List Movement
  pub parties : List Party
  pub settings : List Setting
  pub sales : List Invoice
  pub sale_seq : ℕ → ℕ
  pub purchases : List Invoice
  pub purchase_seq : ℕ → ℕ
  pub payments : List Payment
  pub outbox : List OutboxEvent
  pub credit_notes : List CreditNote
  pub note_seq : ℕ → ℕ
  pub quotations : List Quotation
  pub quote_seq : ℕ → ℕ
  pub orders : List PurchaseOrder
  pub order_seq : ℕ → ℕ
  pub receipts : List GoodsReceipt
  pub receipt_seq : ℕ → ℕ
  pub bank_accounts : List BankAccount
  pub bank_lines : List BankLine
  pub reconciliations : List Reconciliation
