-- ===== src/Sales/Lifecycle.antt =====
-- `confirmInvoice`, `voidInvoice` and `recordPayment` of modules/sales/sales.service.ts. What a
-- method does after it has read the invoice is a function of the row that was read, since another
-- transaction may have committed in between; the compare-and-set update then counts its rows.
use biz360_sme_erp_e_tims.Base.{
  ℕ, Bool, true, false, not, ◌&&◌, Option, none, some, List, [], ◌∷◌, ◌==◌, if◌then◌else◌, find,
  update_where, or_default, sum_of, count_where, ◌+◌,
}
use biz360_sme_erp_e_tims.Base.Int.{ℤ, pos, ◌+ℤ◌, ◌-ℤ◌, ltb_ℤ, leb_ℤ, ◌==ℤ◌}
use biz360_sme_erp_e_tims.Result.{
  conflict, not_found, bad_request, invoice_missing, wrong_status, credit_limit, concurrent_change,
  amount_not_positive,
}
use biz360_sme_erp_e_tims.Money.{JsNumber, to_amount}
use biz360_sme_erp_e_tims.Store.{
  InvoiceStatus, Party, Setting, Invoice, Settles, Payment, JournalEntry, OutboxType, AggregateType,
  Tx, pure, ◌>>=◌, ◌>>◌, gets, modify, throw_if, or_throw, lift, when, fresh,
}
use biz360_sme_erp_e_tims.Ledger.Documents.{
  post_sale_invoice, post_sale_cogs, post_sale_cogs_reversal, post_sale_payment,
  post_sale_payment_reversal, post_sale_void,
}
use biz360_sme_erp_e_tims.Stock.{sell_lines, return_lines}
use biz360_sme_erp_e_tims.Outbox.{enqueue}
use biz360_sme_erp_e_tims.Sales.Draft.{is_party, is_setting, is_invoice, is_draft}

-- CONFIRMED, PARTIALLY_PAID or PAID.
abbrev pub is_released : InvoiceStatus → Bool
is_released InvoiceStatus.draft = false
is_released InvoiceStatus.void = false
is_released _ = true

-- CONFIRMED or PARTIALLY_PAID.
abbrev pub is_payable : InvoiceStatus → Bool
is_payable InvoiceStatus.confirmed = true
is_payable InvoiceStatus.partially_paid = true
is_payable _ = false

abbrev pub is_void : InvoiceStatus → Bool
is_void InvoiceStatus.void = true
is_void _ = false

-- What a released invoice of the party leaves open.
abbrev pub open_amount : ℕ → ℕ → Invoice → ℤ
open_amount org party i =
    if i.org == org && i.party_id == party && is_released i.status
    then i.total -ℤ i.amount_paid
    else pos 0

abbrev pub outstanding : ℕ → ℕ → List Invoice → ℤ
outstanding org party = sum_of (open_amount org party)

abbrev pub limit_of : Option Party → Option ℤ
limit_of none = none
limit_of (some p) = p.credit_limit

-- A configured limit is passed if the open amounts with this invoice are above it.
abbrev pub over_limit : Option ℤ → ℤ → Bool
over_limit none v = false
over_limit (some limit) v = ltb_ℤ limit v

-- `party?.paymentTermsDays ?? orgSetting?.defaultPaymentTermsDays ?? 30`
abbrev pub terms : Option Party → Option Setting → ℕ
terms p s =
    or_default (elim p [ none ↦ none | some q ↦ q.terms_days ])
      (or_default (elim s [ none ↦ none | some t ↦ t.default_terms_days ]) 30)

abbrev pub confirm_row : ℕ → Invoice → Invoice
confirm_row due i = record i { status = InvoiceStatus.confirmed; due_date = some due }

-- The rows that `updateMany` finds for the compare-and-set of the status.
abbrev pub is_still_draft : ℕ → ℕ → Invoice → Bool
is_still_draft org id i = is_invoice org id i && is_draft i.status

-- `updateMany`, which must change one row.
unfoldable pub update_one_sale : (Invoice → Bool) → (Invoice → Invoice) → Tx (Unit {0})
update_one_sale p f = do
  n ← gets (λ db. count_where p db.sales)
  throw_if (not (n == 1)) (conflict concurrent_change)
  modify (λ db. record db { sales = update_where p f db.sales })

-- `if (cogsTotal > 0)`
abbrev pub post_cost : (ℤ → Tx (Option JournalEntry)) → ℤ → Tx (Unit {0})
post_cost posting cost = if ltb_ℤ (pos 0) cost then (posting cost >> pure tt) else pure tt

-- The rest of `confirmInvoice`, from the row that was read.
unfoldable pub confirm_read : ℕ → ℕ → Invoice → Tx (Unit {0})
confirm_read org id inv = do
  throw_if (not (is_draft inv.status)) (conflict wrong_status)
  party ← gets (λ db. find (is_party org inv.party_id) db.parties)
  setting ← gets (λ db. find (is_setting org) db.settings)
  owed ← gets (λ db. outstanding org inv.party_id db.sales)
  throw_if (over_limit (limit_of party) (owed +ℤ inv.total)) (conflict credit_limit)
  cost ← sell_lines org id inv.lines (pos 0)
  update_one_sale (is_still_draft org id) (confirm_row (inv.invoice_date + terms party setting))
  enqueue OutboxType.etims_invoice_submit AggregateType.sale_invoice id org none
  post_sale_invoice org id inv.total inv.tax_total
  post_cost (post_sale_cogs org id) cost

unfoldable pub confirm_invoice : ℕ → ℕ → Tx (Unit {0})
confirm_invoice org id = do
  found ← gets (λ db. find (is_invoice org id) db.sales)
  inv ← or_throw found (not_found invoice_missing)
  confirm_read org id inv

abbrev pub void_row : Invoice → Invoice
void_row i = record i { status = InvoiceStatus.void }

abbrev pub is_payment_of : ℕ → ℕ → Payment → Bool
is_payment_of org id p =
    p.org == org && (elim p.settles [ Settles.sale k ↦ k == id | Settles.purchase _ ↦ false ])

-- The loop over the payments of the invoice.
unfoldable pub reverse_payments : ℕ → ℕ → List Payment → Tx (Unit {0})
reverse_payments org id [] = pure tt
reverse_payments org id (p ∷ ps) =
    (if is_payment_of org id p
      then (post_sale_payment_reversal org p.id p.amount >> pure tt)
      else pure tt)
    >> reverse_payments org id ps

-- What voiding undoes of a released invoice, after its stock is back.
unfoldable pub undo_release : ℕ → ℕ → Invoice → ℤ → Tx (Unit {0})
undo_release org id inv cost = do
  enqueue OutboxType.etims_credit_note_submit AggregateType.sale_invoice id org none
  post_sale_void org id inv.total inv.tax_total
  post_cost (post_sale_cogs_reversal org id) cost
  payments ← gets (λ db. db.payments)
  reverse_payments org id payments

unfoldable pub void_read : ℕ → ℕ → Invoice → Tx (Unit {0})
void_read org id inv = do
  throw_if (is_void inv.status) (conflict wrong_status)
  cost ← (if is_released inv.status then return_lines org id inv.lines (pos 0) else pure (pos 0))
  modify (λ db. record db { sales = update_where (is_invoice org id) void_row db.sales })
  when (is_released inv.status) (undo_release org id inv cost)

unfoldable pub void_invoice : ℕ → ℕ → Tx (Unit {0})
void_invoice org id = do
  found ← gets (λ db. find (is_invoice org id) db.sales)
  inv ← or_throw found (not_found invoice_missing)
  void_read org id inv

abbrev pub paid_status : ℤ → ℤ → InvoiceStatus
paid_status paid total =
    if leb_ℤ total paid then InvoiceStatus.paid else InvoiceStatus.partially_paid

abbrev pub pay_row : ℤ → InvoiceStatus → Invoice → Invoice
pay_row paid s i = record i { amount_paid = paid; status = s }

-- The compare-and-set of a payment tests the amount that was paid when the row was read.
abbrev pub has_paid : ℕ → ℕ → ℤ → Invoice → Bool
has_paid org id paid i = is_invoice org id i && i.amount_paid ==ℤ paid

unfoldable pub pay_read : ℕ → ℕ → ℤ → Invoice → Tx Payment
pay_read org id amount inv = do
  throw_if (not (is_payable inv.status)) (conflict wrong_status)
  k ← fresh
  let p : Payment = record {
    id = k;
    org = org;
    party_id = inv.party_id;
    settles = Settles.sale id;
    amount = amount;
  }
  modify (λ db. record db { payments = p ∷ db.payments })
  let paid : ℤ = inv.amount_paid +ℤ amount
  update_one_sale (has_paid org id inv.amount_paid) (pay_row paid (paid_status paid inv.total))
  post_sale_payment org k amount
  pure p

-- The transaction of `recordPayment`, of the amount that was parsed.
unfoldable pub pay_amount : ℕ → ℕ → ℤ → Tx Payment
pay_amount org id amount = do
  throw_if (leb_ℤ amount (pos 0)) (bad_request amount_not_positive)
  found ← gets (λ db. find (is_invoice org id) db.sales)
  inv ← or_throw found (not_found invoice_missing)
  pay_read org id amount inv

unfoldable pub record_payment : ℕ → ℕ → JsNumber → Tx Payment
record_payment org id n = lift (to_amount n) >>= pay_amount org id
