-- ===== src/Sales/Contract.antt =====
-- About the row of the invoice after `confirmInvoice`, `voidInvoice` and `recordPayment` of
-- modules/sales/sales.service.ts.
use biz360_sme_erp_e_tims.Base.{ℕ, ◌≡◌, refl, sym, ◌∙◌, some-injective}
use biz360_sme_erp_e_tims.Base.Int.{ℤ}
use biz360_sme_erp_e_tims.Money.{JsNumber, to_amount}
use biz360_sme_erp_e_tims.Result.{ok}
use biz360_sme_erp_e_tims.Store.{Invoice, Db, lift, ◌>>=◌}
use biz360_sme_erp_e_tims.Store.Keeps.{After, Keeps-throw_if}
use biz360_sme_erp_e_tims.Store.Leads.{Leads, Leads-first_then, Leads-find}
use biz360_sme_erp_e_tims.Sales.Lifecycle.{
  confirm_invoice, void_invoice, pay_read, pay_amount, record_payment,
}
use biz360_sme_erp_e_tims.Sales.Outcome.{
  OfSales, HasRow, RowIs, IsConfirmed, IsVoided, confirm_invoice-Leads, void_invoice-Leads,
}
use biz360_sme_erp_e_tims.Sales.Settlement.{IsPaid, pay_read-Leads}

-- Where the row of the invoice is `inv` and the confirmation does not throw, `inv` was a draft,
-- and its row is confirmed afterwards, with the same total and the same amount paid.
pub confirm_invoice_confirms :
    (org id : ℕ) (inv : Invoice) (db : Db)
    → HasRow org id inv db.sales
    → After (λ db'. RowIs org id (IsConfirmed inv) db'.sales) (confirm_invoice org id db)
confirm_invoice_confirms org id inv db h = (confirm_invoice-Leads org id inv).run db h

-- Where the row of the invoice is `inv` and the void does not throw, `inv` was not void, and its
-- row is void afterwards, with the same total and the same amount paid.
pub void_invoice_voids :
    (org id : ℕ) (inv : Invoice) (db : Db)
    → HasRow org id inv db.sales
    → After (λ db'. RowIs org id (IsVoided inv) db'.sales) (void_invoice org id db)
void_invoice_voids org id inv db h = (void_invoice-Leads org id inv).run db h

-- The payment of the row that was found.
pay_found-Leads :
    (org id : ℕ) (amount : ℤ) (inv i : Invoice)
    → Leads
        (λ db. HasRow org id inv db.sales × HasRow org id i db.sales)
        (OfSales (RowIs org id (IsPaid inv inv amount)))
        (pay_read org id amount i)
pay_found-Leads org id amount inv i = record {
  run = λ db h.
      rw (some-injective i inv (sym h.1 ∙ h.0))
        ((pay_read-Leads org id amount inv inv refl).run db h.0);
}

pay_amount-Leads :
    (org id : ℕ) (amount : ℤ) (inv : Invoice)
    → Leads
        (OfSales (HasRow org id inv))
        (OfSales (RowIs org id (IsPaid inv inv amount)))
        (pay_amount org id amount)
unfolding pay_amount
pay_amount-Leads org id amount inv =
    Leads-first_then _ _ (Keeps-throw_if _ _ _)
      (Leads-find _ _ _ _ (pay_found-Leads org id amount inv))

-- Where the row of the invoice is `inv`, the number stands for an amount and the payment does not
-- throw, `inv` was confirmed or partially paid; afterwards its row has the amount added to what
-- was paid and the same total, and is paid if that reaches the total and partially paid if not.
pub record_payment_pays :
    (org id : ℕ) (n : JsNumber) (amount : ℤ) (inv : Invoice) (db : Db)
    → to_amount n ≡ ok amount
    → HasRow org id inv db.sales
    → After (λ db'. RowIs org id (IsPaid inv inv amount) db'.sales) (record_payment org id n db)
unfolding record_payment lift ◌>>=◌
record_payment_pays org id n amount inv db a h =
    rw a ((pay_amount-Leads org id amount inv).run db h)
