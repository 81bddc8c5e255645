-- ===== src/Taxes.antt =====
-- The tables of src/modules/accounting/withholding-tax and src/modules/compliance/supplier-etims:
-- taxes that are withheld from suppliers, and the receipts and credit notes that suppliers issue.
-- The payments, parties and purchases of the other components are read from their database, which
-- is an argument. Amounts are in cents, rates in hundredths of a percent, times in milliseconds.
pub mod Rates
pub mod Withholding
pub mod Suppliers
pub mod Credits
pub mod Latest
pub mod Certificates
pub mod Shares
pub mod Offsets
pub mod Granting
pub mod Matching
pub mod Fits
pub mod Requests
use biz360_sme_erp_e_tims.Base.{ℕ, Bool, Option, List}
use biz360_sme_erp_e_tims.Base.Int.{ℤ}

pub data PaymentType : Type 0 where
  professional_fees rent commission royalty dividend interest contractual_fees : PaymentType
  other_payment : PaymentType

pub data Residency : Type 0 where
  resident non_resident : Residency

-- A row without an organization is a default of the system.
pub record TaxRate : Type 0 where
  pub id : ℕ
  pub org : Option ℕ
  pub payment_type : PaymentType
  pub residency : Residency
  pub percent : ℕ
  pub effective_from : ℕ
  pub effective_to : Option ℕ

-- A certificate number `WHT-{year}-{seq}`.
pub record Certificate : Type 0 where
  pub year : ℕ
  pub sequence : ℕ

pub record Deduction : Type 0 where
  pub id : ℕ
  pub org : ℕ
  pub supplier_id : ℕ
  pub payment_id : ℕ
  pub payment_type : PaymentType
  pub gross : ℤ
  pub percent : ℕ
  pub withheld : ℤ
  pub net : ℤ
  pub certificate : Option Certificate
  pub created_at : ℕ

pub data MatchStatus : Type 0 where
  unmatched matched disputed missing_confirmed : MatchStatus

-- A row of `supplier_etims_invoices`; its number is normalised.
pub record SupplierReceipt : Type 0 where
  pub id : ℕ
  pub org : ℕ
  pub supplier_id : ℕ
  pub number : ℕ
  pub amount : ℕ
  pub tax : ℕ
  pub purchase_id : Option ℕ
  pub status : MatchStatus
  pub deleted : Bool

-- A row of `supplier_etims_credit_notes`; the offset names a deduction and an amount.
pub record SupplierNote : Type 0 where
  pub id : ℕ
  pub org : ℕ
  pub supplier_id : ℕ
  pub number : ℕ
  pub total : ℕ
  pub receipt_id : Option ℕ
  pub purchase_id : Option ℕ
  pub status : MatchStatus
  pub offset : Option (ℕ × ℤ)
  pub deleted : Bool

pub data FlagType : Type 0 where
  no_etims_match partial_amount_mismatch expired_match_window : FlagType

pub record Flag : Type 0 where
  pub org : ℕ
  pub purchase_id : ℕ
  pub type : FlagType
  pub mismatch : Option ℤ
  pub resolved : Bool

pub record Taxes : Type 0 where
  pub next_id : ℕ
  pub now : ℕ
  pub rates : List TaxRate
  pub deductions : List Deduction
  pub receipts : List SupplierReceipt
  pub notes : List SupplierNote
  pub flags : List Flag
