-- ===== src/Ledger/Documents.antt =====
-- The postings of the documents: the `post…` methods of ledger.service.ts. An amount arrives as
-- whole cents, on which `Number` and `round2` change nothing. `none` stands for `undefined`
-- as well, where a method returns without posting.
pub mod Mirror
pub mod Outcome
use biz360_sme_erp_e_tims.Base.{ℕ, Option, none, List, [], ◌∷◌, if◌then◌else◌}
use biz360_sme_erp_e_tims.Base.Int.{ℤ, pos, ◌-ℤ◌, leb_ℤ}
use biz360_sme_erp_e_tims.Store.{JournalEntry, SourceType, Tx, pure}
use biz360_sme_erp_e_tims.Ledger.{PostLine, post, document, debit_line, credit_line}

abbrev pub cash : ℕ
cash = 1100

abbrev pub receivable : ℕ
receivable = 1200

abbrev pub inventory : ℕ
inventory = 1300

abbrev pub vat_input : ℕ
vat_input = 1400

abbrev pub payable : ℕ
payable = 2100

abbrev pub vat_output : ℕ
vat_output = 2200

abbrev pub revenue : ℕ
revenue = 4100

abbrev pub cost_of_goods : ℕ
cost_of_goods = 5100

-- The lines of each posting, of a total and its tax, or of one amount.
abbrev pub sale_invoice_lines : ℤ → ℤ → List PostLine
sale_invoice_lines total tax =
    debit_line receivable total
    ∷ credit_line revenue (total -ℤ tax)
    ∷ credit_line vat_output tax
    ∷ []

abbrev pub sale_void_lines : ℤ → ℤ → List PostLine
sale_void_lines total tax =
    credit_line receivable total
    ∷ debit_line revenue (total -ℤ tax)
    ∷ debit_line vat_output tax
    ∷ []

abbrev pub sale_cogs_lines : ℤ → List PostLine
sale_cogs_lines cost = debit_line cost_of_goods cost ∷ credit_line inventory cost ∷ []

abbrev pub sale_cogs_reversal_lines : ℤ → List PostLine
sale_cogs_reversal_lines cost = debit_line inventory cost ∷ credit_line cost_of_goods cost ∷ []

abbrev pub sale_payment_lines : ℤ → List PostLine
sale_payment_lines amount = debit_line cash amount ∷ credit_line receivable amount ∷ []

abbrev pub sale_payment_reversal_lines : ℤ → List PostLine
sale_payment_reversal_lines amount = debit_line receivable amount ∷ credit_line cash amount ∷ []

abbrev pub purchase_invoice_lines : ℤ → ℤ → List PostLine
purchase_invoice_lines total tax =
    debit_line inventory (total -ℤ tax) ∷ debit_line vat_input tax ∷ credit_line payable total ∷ []

abbrev pub purchase_void_lines : ℤ → ℤ → List PostLine
purchase_void_lines total tax =
    debit_line payable total ∷ credit_line inventory (total -ℤ tax) ∷ credit_line vat_input tax ∷ []

abbrev pub purchase_payment_lines : ℤ → List PostLine
purchase_payment_lines amount = debit_line payable amount ∷ credit_line cash amount ∷ []

abbrev pub purchase_payment_reversal_lines : ℤ → List PostLine
purchase_payment_reversal_lines amount = debit_line cash amount ∷ credit_line payable amount ∷ []

unfoldable pub post_sale_invoice : ℕ → ℕ → ℤ → ℤ → Tx (Option JournalEntry)
post_sale_invoice org id total tax =
    post org (document SourceType.sale_invoice id (sale_invoice_lines total tax))

unfoldable pub post_sale_cogs : ℕ → ℕ → ℤ → Tx (Option JournalEntry)
post_sale_cogs org id cost =
    if leb_ℤ cost (pos 0)
    then pure none
    else post org (document SourceType.sale_cogs id (sale_cogs_lines cost))

unfoldable pub post_sale_cogs_reversal : ℕ → ℕ → ℤ → Tx (Option JournalEntry)
post_sale_cogs_reversal org id cost =
    if leb_ℤ cost (pos 0)
    then pure none
    else post org (document SourceType.sale_cogs_reversal id (sale_cogs_reversal_lines cost))

unfoldable pub post_sale_payment : ℕ → ℕ → ℤ → Tx (Option JournalEntry)
post_sale_payment org id amount =
    post org (document SourceType.sale_payment id (sale_payment_lines amount))

unfoldable pub post_sale_payment_reversal : ℕ → ℕ → ℤ → Tx (Option JournalEntry)
post_sale_payment_reversal org id amount =
    post org (document SourceType.sale_payment_reversal id (sale_payment_reversal_lines amount))

unfoldable pub post_sale_void : ℕ → ℕ → ℤ → ℤ → Tx (Option JournalEntry)
post_sale_void org id total tax =
    post org (document SourceType.sale_void id (sale_void_lines total tax))

unfoldable pub post_purchase_invoice : ℕ → ℕ → ℤ → ℤ → Tx (Option JournalEntry)
post_purchase_invoice org id total tax =
    post org (document SourceType.purchase_invoice id (purchase_invoice_lines total tax))

unfoldable pub post_purchase_payment : ℕ → ℕ → ℤ → Tx (Option JournalEntry)
post_purchase_payment org id amount =
    post org (document SourceType.purchase_payment id (purchase_payment_lines amount))

unfoldable pub post_purchase_payment_reversal : ℕ → ℕ → ℤ → Tx (Option JournalEntry)
post_purchase_payment_reversal org id amount =
    post org
      (document SourceType.purchase_payment_reversal id (purchase_payment_reversal_lines amount))

unfoldable pub post_purchase_void : ℕ → ℕ → ℤ → ℤ → Tx (Option JournalEntry)
post_purchase_void org id total tax =
    post org (document SourceType.purchase_void id (purchase_void_lines total tax))
