-- ===== src/Sales/Progress.antt =====
-- When `recordPayment` of modules/sales/sales.service.ts does not throw.
use biz360_sme_erp_e_tims.Base.{
  ℕ, Bool, true, false, ◌≡◌, refl, some, find, count_where, update_where, arith,
}
use biz360_sme_erp_e_tims.Base.Int.{ℤ, pos, ◌≤ℤ◌, leb_ℤ}
use biz360_sme_erp_e_tims.Money.{JsNumber, to_amount}
use biz360_sme_erp_e_tims.Result.{ok}
use biz360_sme_erp_e_tims.Store.{Account, Invoice, SourceType, Db, run, pure, modify, fresh}
use biz360_sme_erp_e_tims.Store.Succeeds.{is_ok, is_ok-bind, is_ok-then, throw_if-ok}
use biz360_sme_erp_e_tims.Ledger.{is_account, already_posted, document}
use biz360_sme_erp_e_tims.Ledger.Documents.{cash, receivable, sale_payment_lines}
use biz360_sme_erp_e_tims.Ledger.Documents.Outcome.{sale_payment_booked}
use biz360_sme_erp_e_tims.Sales.Lifecycle.{
  is_payable, has_paid, pay_read, pay_amount, record_payment, update_one_sale,
}
use biz360_sme_erp_e_tims.Sales.Outcome.{HasRow}

pub positive : (a : ℤ) → pos 1 ≤ℤ a → leb_ℤ a (pos 0) ≡ false
positive a h = ground arith

pub update_one_sale-ok :
    (p : Invoice → Bool) (f : Invoice → Invoice) (db : Db)
    → count_where p db.sales ≡ 1
    → update_one_sale p f db ≡ ok (tt, record db { sales = update_where p f db.sales })
unfolding update_one_sale run
update_one_sale-ok p f db one = ground (arith, one)

-- The rest of the payment, from the row that was read.
pub pay_read-ok :
    (org id : ℕ) (amount : ℤ) (inv : Invoice) (db : Db) {c ar : Account}
    → pos 1 ≤ℤ amount
    → is_payable inv.status ≡ true
    → count_where (has_paid org id inv.amount_paid) db.sales ≡ 1
    → find (is_account org cash) db.accounts ≡ some c
    → find (is_account org receivable) db.accounts ≡ some ar
    → already_posted org
        (document SourceType.sale_payment db.next_id (sale_payment_lines amount))
        db.entries
      ≡ false
    → is_ok (pay_read org id amount inv db) ≡ true
unfolding pay_read fresh modify pure
pay_read-ok org id amount inv db h payable one has_cash has_ar new =
    is_ok-then _ (throw_if-ok _ _ db (rw payable refl)) _ (
      is_ok-bind fresh refl _ (
        is_ok-then (modify _) refl _ (
          is_ok-then _ (update_one_sale-ok _ _ _ one) _ (
            is_ok-then _ (sale_payment_booked org db.next_id _ has_cash has_ar amount new h) _
              refl))))

-- Where the number is an amount of at least a cent, the row of the invoice is found, payable and
-- the only one that the compare-and-set meets, the organization has accounts for cash and
-- receivables, and no entry is posted for the next id as a payment, the payment does not throw.
pub record_payment_succeeds :
    (org id : ℕ) (n : JsNumber) (amount : ℤ) (inv : Invoice) (db : Db) {c ar : Account}
    → to_amount n ≡ ok amount
    → pos 1 ≤ℤ amount
    → HasRow org id inv db.sales
    → is_payable inv.status ≡ true
    → count_where (has_paid org id inv.amount_paid) db.sales ≡ 1
    → find (is_account org cash) db.accounts ≡ some c
    → find (is_account org receivable) db.accounts ≡ some ar
    → already_posted org
        (document SourceType.sale_payment db.next_id (sale_payment_lines amount))
        db.entries
      ≡ false
    → is_ok (record_payment org id n db) ≡ true
unfolding record_payment pay_amount run
record_payment_succeeds org id n amount inv db a h row payable one has_cash has_ar new =
    rw (a, positive amount h, row)
      (pay_read-ok org id amount inv db h payable one has_cash has_ar new)
