-- ===== src/Store/Documents.antt =====
-- The rows of prisma/schema.prisma behind credit notes, quotations, purchase orders, goods
-- receipts and bank accounts. A date counts days, but for `valid_until`, which is a millisecond of the clock.
use biz360_sme_erp_e_tims.Base.{ℕ, Bool, Option, List}
use biz360_sme_erp_e_tims.Base.Int.{ℤ}
use biz360_sme_erp_e_tims.Store.Rows.{InvoiceLine}

pub data CreditNoteStatus : Type 0 where
  draft issued cancelled : CreditNoteStatus

pub record CreditNote : Type 0 where
  pub id : ℕ
  pub org : ℕ
  pub number : ℕ
  pub party_id : ℕ
  pub reference : Option ℕ
  pub note_date : ℕ
  pub status : CreditNoteStatus
  pub subtotal : ℤ
  pub discount_total : ℤ
  pub tax_total : ℤ
  pub total : ℤ
  pub lines : List InvoiceLine

pub data QuotationStatus : Type 0 where
  draft sent accepted converted expired cancelled : QuotationStatus

pub record Quotation : Type 0 where
  pub id : ℕ
  pub org : ℕ
  pub number : ℕ
  pub party_id : ℕ
  pub quote_date : ℕ
  pub valid_until : Option ℕ
  pub status : QuotationStatus
  pub subtotal : ℤ
  pub discount_total : ℤ
  pub tax_total : ℤ
  pub total : ℤ
  pub lines : List InvoiceLine
  pub converted_to : Option ℕ

pub data OrderStatus : Type 0 where
  draft submitted approved received closed rejected cancelled : OrderStatus

-- What a line orders: the quantity in thousandths, the amounts in cents.
pub record OrderedLine : Type 0 where
  pub item_id : Option ℕ
  pub quantity : ℤ
  pub unit_price : ℤ
  pub tax_rate : ℤ
  pub discount_pct : ℤ
  pub line_discount : ℤ
  pub line_amount : ℤ
  pub line_total : ℤ
  pub tax_amount : ℤ

pub record OrderLine : Type 0 where
  pub id : ℕ
  pub received : ℤ
  pub ordered : OrderedLine

pub record PurchaseOrder : Type 0 where
  pub id : ℕ
  pub org : ℕ
  pub number : ℕ
  pub party_id : ℕ
  pub order_date : ℕ
  pub status : OrderStatus
  pub subtotal : ℤ
  pub discount_total : ℤ
  pub tax_total : ℤ
  pub total : ℤ
  pub lines : List OrderLine

pub data ReceiptStatus : Type 0 where
  draft confirmed cancelled : ReceiptStatus

pub record ReceiptLine : Type 0 where
  pub order_line : ℕ
  pub item_id : Option ℕ
  pub quantity : ℤ

pub record GoodsReceipt : Type 0 where
  pub id : ℕ
  pub org : ℕ
  pub number : ℕ
  pub order_id : ℕ
  pub party_id : ℕ
  pub received_date : ℕ
  pub status : ReceiptStatus
  pub lines : List ReceiptLine

-- Amounts are in cents; the name, the bank and the type of an account are left out.
pub record BankAccount : Type 0 where
  pub id : ℕ
  pub org : ℕ
  pub code : Option ℕ
  pub opening : ℤ
  pub active : Bool
  pub deleted : Bool

pub record BankLine : Type 0 where
  pub id : ℕ
  pub org : ℕ
  pub account_id : ℕ
  pub date : ℕ
  pub debit : ℤ
  pub credit : ℤ
  pub reconciled : Bool
  pub reconciliation : Option ℕ

pub record Reconciliation : Type 0 where
  pub id : ℕ
  pub org : ℕ
  pub account_id : ℕ
  pub period_start : ℕ
  pub period_end : ℕ
