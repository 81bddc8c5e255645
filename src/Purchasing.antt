-- ===== src/Purchasing.antt =====
-- modules/purchasing/purchasing.service.ts: confirmation, voiding and payments of purchase
-- invoices. The computation of a draft's lines and totals has the text of the sales module, and is
-- Document; `flagForUnmatchedSupplierInvoice` writes tables of the compliance module alone.
pub mod Safety
use biz360_sme_erp_e_tims.Base.{
  ℕ, suc, Bool, true, false, not, ◌&&◌, Option, none, some, List, [], ◌∷◌, ◌==◌, if◌then◌else◌,
  find, update_where, or_default, count_where, ◌+◌, map,
}
use biz360_sme_erp_e_tims.Base.Int.{ℤ, pos, ◌+ℤ◌, leb_ℤ, ◌==ℤ◌}
use biz360_sme_erp_e_tims.Result.{
  conflict, not_found, bad_request, party_missing, wrong_party_type, purchase_missing, wrong_status,
  concurrent_change, amount_not_positive, ok,
}
use biz360_sme_erp_e_tims.Money.{JsNumber, to_amount}
use biz360_sme_erp_e_tims.Document.{LineDto, ComputedLine}
use biz360_sme_erp_e_tims.Store.{
  PartyType, InvoiceStatus, Invoice, Settles, Payment, Db, Tx, pure, ◌>>=◌, ◌>>◌, gets, modify,
  throw_if, or_throw, lift, when, fresh, bump,
}
use biz360_sme_erp_e_tims.Ledger.Documents.{
  post_purchase_invoice, post_purchase_payment, post_purchase_payment_reversal, post_purchase_void,
}
use biz360_sme_erp_e_tims.Stock.{receive_lines, take_back_lines}
use biz360_sme_erp_e_tims.Sales.Draft.{
  redate, is_party, is_setting, is_invoice, is_draft, check_items, compute_lines, tax_rate_of,
  draft_row,
}
use biz360_sme_erp_e_tims.Sales.Lifecycle.{
  is_released, is_payable, is_void, terms, confirm_row, void_row, paid_status, pay_row,
  is_still_draft, has_paid,
}

abbrev pub is_customer : PartyType → Bool
is_customer PartyType.customer = true
is_customer _ = false

unfoldable pub insert_purchase : ℕ → ℕ → Option ℕ → List ComputedLine → Db → Invoice × Db
insert_purchase org party date lines db =
    let inv : Invoice =
      draft_row db.next_id org (suc (db.purchase_seq org)) party (or_default date db.today) lines in
    (
      inv,
      record db {
        next_id = suc db.next_id;
        purchase_seq = bump db.purchase_seq org;
        purchases = inv ∷ db.purchases;
      },
    )

unfoldable pub create_purchase : ℕ → ℕ → Option ℕ → List LineDto → Tx Invoice
create_purchase org party date dtos = do
  found ← gets (λ db. find (is_party org party) db.parties)
  p ← or_throw found (not_found party_missing)
  throw_if (is_customer p.type) (bad_request wrong_party_type)
  setting ← gets (λ db. find (is_setting org) db.settings)
  items ← gets (λ db. db.items)
  lift (check_items items org dtos)
  lines ← lift (compute_lines items org (tax_rate_of setting) dtos)
  λ db. ok (insert_purchase org party date lines db)

-- `updateMany`, which must change one row.
unfoldable pub update_one_purchase : (Invoice → Bool) → (Invoice → Invoice) → Tx (Unit {0})
update_one_purchase p f = do
  n ← gets (λ db. count_where p db.purchases)
  throw_if (not (n == 1)) (conflict concurrent_change)
  modify (λ db. record db { purchases = update_where p f db.purchases })

unfoldable pub confirm_purchase : ℕ → ℕ → Tx (Unit {0})
confirm_purchase org id = do
  found ← gets (λ db. find (is_invoice org id) db.purchases)
  inv ← or_throw found (not_found purchase_missing)
  throw_if (not (is_draft inv.status)) (conflict wrong_status)
  party ← gets (λ db. find (is_party org inv.party_id) db.parties)
  setting ← gets (λ db. find (is_setting org) db.settings)
  modify (receive_lines org id inv.lines)
  update_one_purchase (is_still_draft org id) (confirm_row (inv.invoice_date + terms party setting))
  post_purchase_invoice org id inv.total inv.tax_total
  pure tt

abbrev pub is_payment_for : ℕ → ℕ → Payment → Bool
is_payment_for org id p =
    p.org == org && (elim p.settles [ Settles.purchase k ↦ k == id | Settles.sale _ ↦ false ])

-- The loop over the payments of the purchase.
unfoldable pub reverse_payments : ℕ → ℕ → List Payment → Tx (Unit {0})
reverse_payments org id [] = pure tt
reverse_payments org id (p ∷ ps) =
    (if is_payment_for org id p
      then (post_purchase_payment_reversal org p.id p.amount >> pure tt)
      else pure tt)
    >> reverse_payments org id ps

unfoldable pub undo_purchase : ℕ → ℕ → Invoice → Tx (Unit {0})
undo_purchase org id inv = do
  post_purchase_void org id inv.total inv.tax_total
  payments ← gets (λ db. db.payments)
  reverse_payments org id payments

unfoldable pub void_purchase : ℕ → ℕ → Tx (Unit {0})
void_purchase org id = do
  found ← gets (λ db. find (is_invoice org id) db.purchases)
  inv ← or_throw found (not_found purchase_missing)
  throw_if (is_void inv.status) (conflict wrong_status)
  when (is_released inv.status) (modify (take_back_lines org id inv.lines))
  modify (λ db. record db { purchases = update_where (is_invoice org id) void_row db.purchases })
  when (is_released inv.status) (undo_purchase org id inv)

unfoldable pub pay_purchase : ℕ → ℕ → JsNumber → Tx Payment
pay_purchase org id n = do
  amount ← lift (to_amount n)
  throw_if (leb_ℤ amount (pos 0)) (bad_request amount_not_positive)
  found ← gets (λ db. find (is_invoice org id) db.purchases)
  inv ← or_throw found (not_found purchase_missing)
  throw_if (not (is_payable inv.status)) (conflict wrong_status)
  k ← fresh
  let p : Payment = record {
    id = k;
    org = org;
    party_id = inv.party_id;
    settles = Settles.purchase id;
    amount = amount;
  }
  modify (λ db. record db { payments = p ∷ db.payments })
  let paid : ℤ = inv.amount_paid +ℤ amount
  update_one_purchase (has_paid org id inv.amount_paid) (pay_row paid (paid_status paid inv.total))
  post_purchase_payment org k amount
  pure p

-- `updateDraft`: of the fields that it may change, the date is modelled.
unfoldable pub update_purchase : ℕ → ℕ → Option ℕ → Tx (Unit {0})
update_purchase org id date = do
  found ← gets (λ db. find (is_invoice org id) db.purchases)
  i ← or_throw found (not_found purchase_missing)
  throw_if (not (is_draft i.status)) (conflict wrong_status)
  modify
      (λ db. record db { purchases = update_where (is_invoice org id) (redate date) db.purchases })
