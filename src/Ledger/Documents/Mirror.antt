-- ===== src/Ledger/Documents/Mirror.antt =====
-- About the postings of a document, against those that undo it.
use biz360_sme_erp_e_tims.Base.{ℕ, ◌≡◌, List, or_default, sum_of, ◌==◌, if◌then◌else◌}
use biz360_sme_erp_e_tims.Base.Int.{ℤ, pos, ◌+ℤ◌, ◌-ℤ◌, int_laws}
use biz360_sme_erp_e_tims.Ledger.{PostLine}
use biz360_sme_erp_e_tims.Ledger.Documents.{
  sale_invoice_lines, sale_void_lines, sale_cogs_lines, sale_cogs_reversal_lines,
  sale_payment_lines, sale_payment_reversal_lines, purchase_invoice_lines, purchase_void_lines,
  purchase_payment_lines, purchase_payment_reversal_lines,
}

-- What a line adds to the debit side of the account of a code, less its credit side.
abbrev pub line_net : ℕ → PostLine → ℤ
line_net code l =
    if l.code == code then or_default l.debit (pos 0) -ℤ or_default l.credit (pos 0) else pos 0

abbrev pub net : ℕ → List PostLine → ℤ
net code = sum_of (line_net code)

-- For every account code, the lines of voiding a sale or a purchase have the opposite net of the
-- lines of confirming it, and those of reversing a payment or the cost of goods the opposite net
-- of the lines that posted them.
pub undo_cancels :
    (code : ℕ) (total tax amount : ℤ)
    → (net code (sale_invoice_lines total tax) +ℤ net code (sale_void_lines total tax) ≡ pos 0)
      × (net code (purchase_invoice_lines total tax) +ℤ net code (purchase_void_lines total tax)
          ≡ pos 0)
      × (net code (sale_payment_lines amount) +ℤ net code (sale_payment_reversal_lines amount)
          ≡ pos 0)
      × (net code (purchase_payment_lines amount)
            +ℤ net code (purchase_payment_reversal_lines amount)
          ≡ pos 0)
      × (net code (sale_cogs_lines amount) +ℤ net code (sale_cogs_reversal_lines amount) ≡ pos 0)
undo_cancels code total tax amount =
    (grind int_laws, grind int_laws, grind int_laws, grind int_laws, grind int_laws)
