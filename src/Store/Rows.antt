-- ===== src/Store/Rows.antt =====
-- The rows of prisma/schema.prisma behind the ledger, the invoices, the stock and the outbox.
use biz360_sme_erp_e_tims.Base.{ℕ, Bool, Option, List}
use biz360_sme_erp_e_tims.Base.Int.{ℤ}
use biz360_sme_erp_e_tims.Document.{ComputedLine}

pub data AccountType : Type 0 where
  asset liability equity income expense : AccountType

pub data EntryStatus : Type 0 where
  draft posted reversed : EntryStatus

pub data SourceType : Type 0 where
  manual sale_invoice sale_cogs sale_cogs_reversal sale_payment sale_payment_reversal : SourceType
  sale_void purchase_invoice purchase_payment purchase_payment_reversal : SourceType
  purchase_void reversal credit_note : SourceType

pub data InvoiceStatus : Type 0 where
  draft confirmed partially_paid paid void : InvoiceStatus

pub data PartyType : Type 0 where
  customer supplier both : PartyType

pub data MovementType : Type 0 where
  adjustment purchase_in sale_out void : MovementType

pub data OutboxType : Type 0 where
  etims_invoice_submit etims_credit_note_submit other_event : OutboxType

pub data AggregateType : Type 0 where
  sale_invoice credit_note other_aggregate : AggregateType

pub data OutboxStatus : Type 0 where
  pending processing done failed : OutboxStatus

pub record Account : Type 0 where
  pub id : ℕ
  pub org : ℕ
  pub code : ℕ
  pub type : AccountType
  pub active : Bool
  pub deleted : Bool

-- A row of `journal_entry_lines`, with the account that it names.
pub record EntryLine : Type 0 where
  pub account_id : ℕ
  pub account_code : ℕ
  pub debit : ℤ
  pub credit : ℤ

-- `number` is the sequence part of the entry number `JE-{year}-{seq}`.
pub record JournalEntry : Type 0 where
  pub id : ℕ
  pub org : ℕ
  pub number : ℕ
  pub date : ℕ
  pub status : EntryStatus
  pub source_type : SourceType
  pub source_id : Option ℕ
  pub reversal_of : Option ℕ
  pub lines : List EntryLine

pub record Item : Type 0 where
  pub id : ℕ
  pub org : ℕ
  pub buy_price : Option ℤ
  pub sell_price : Option ℤ
  pub taxed : Bool
  pub track_stock : Bool
  pub stock_on_hand : ℤ
  pub deleted : Bool

pub record Movement : Type 0 where
  pub org : ℕ
  pub item_id : ℕ
  pub quantity : ℤ
  pub type : MovementType
  pub reference : Option ℕ

pub record Party : Type 0 where
  pub id : ℕ
  pub org : ℕ
  pub type : PartyType
  pub terms_days : Option ℕ
  pub credit_limit : Option ℤ
  pub deleted : Bool

pub record Setting : Type 0 where
  pub org : ℕ
  pub tax_rate : ℤ
  pub default_terms_days : Option ℕ

-- What confirming, voiding and the reports read of a stored line; the quantity is in thousandths.
pub record InvoiceLine : Type 0 where
  pub item_id : Option ℕ
  pub quantity : ℤ
  pub computed : ComputedLine

-- A row of `sale_invoices` or of `purchase_invoices`. Dates count days.
pub record Invoice : Type 0 where
  pub id : ℕ
  pub org : ℕ
  pub number : ℕ
  pub party_id : ℕ
  pub invoice_date : ℕ
  pub due_date : Option ℕ
  pub status : InvoiceStatus
  pub subtotal : ℤ
  pub discount_total : ℤ
  pub tax_total : ℤ
  pub total : ℤ
  pub amount_paid : ℤ
  pub lines : List InvoiceLine

-- Which document a payment settles.
pub data Settles : Type 0 where
  sale purchase : ℕ → Settles

pub record Payment : Type 0 where
  pub id : ℕ
  pub org : ℕ
  pub party_id : ℕ
  pub settles : Settles
  pub amount : ℤ

pub record OutboxEvent : Type 0 where
  pub id : ℕ
  pub org : ℕ
  pub type : OutboxType
  pub aggregate_type : AggregateType
  pub aggregate_id : ℕ
  pub status : OutboxStatus
  pub attempts : ℕ
  pub max_attempts : ℕ
  pub next_attempt : ℕ
  pub updated_at : ℕ
