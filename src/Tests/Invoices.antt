-- ===== src/Tests/Invoices.antt =====
-- The life of an invoice of the shop.
use biz360_sme_erp_e_tims.Base.{◌≡◌, true, ◌≢◌, refl}
use biz360_sme_erp_e_tims.Base.Int.{◌-ℤ◌, pos, ◌+ℤ◌, int_laws, floor_div, ◌*ℤ◌}
use biz360_sme_erp_e_tims.Money.{finite, of_cents, to_amount, round2}
use biz360_sme_erp_e_tims.Money.Binary.{
  nearest, nearest_pos, round_even, finer, coarser, plus, times, math_round,
}
use biz360_sme_erp_e_tims.Result.{ok}
use biz360_sme_erp_e_tims.Store.{Payment, Db, InvoiceStatus}
use biz360_sme_erp_e_tims.Store.Keeps.{After}
use biz360_sme_erp_e_tims.Sales.Lifecycle.{
  confirm_read, confirm_invoice, void_invoice, pay_read, record_payment,
}
use biz360_sme_erp_e_tims.Sales.Outcome.{RowIs, IsConfirmed, IsVoided}
use biz360_sme_erp_e_tims.Sales.Settlement.{IsPaid}
use biz360_sme_erp_e_tims.Store.Succeeds.{is_ok}
use biz360_sme_erp_e_tims.Ledger.{already_posted}
use biz360_sme_erp_e_tims.Sales.Progress.{record_payment_succeeds}
use biz360_sme_erp_e_tims.Sales.Release.{confirm_invoice_succeeds}
use biz360_sme_erp_e_tims.Stock.{sell_lines, sell_item, item_of_line, move_stock, add_cost}
use biz360_sme_erp_e_tims.Store.{pure, ◌>>=◌}
use biz360_sme_erp_e_tims.Sales.Revival.{pay_revives_void}
use biz360_sme_erp_e_tims.Sales.Contract.{
  confirm_invoice_confirms, void_invoice_voids, record_payment_pays,
}
use biz360_sme_erp_e_tims.Sales.Race.{Never, confirm_once, pay_once}
use biz360_sme_erp_e_tims.Tests.Shop.{sale, shop_with}

confirm_invoice_confirms_example :
    After
      (λ db'. RowIs 1 102 (IsConfirmed (sale InvoiceStatus.draft)) db'.sales)
      (confirm_invoice 1 102 (shop_with InvoiceStatus.draft))
confirm_invoice_confirms_example =
    confirm_invoice_confirms 1 102 (sale InvoiceStatus.draft) (shop_with InvoiceStatus.draft) refl

void_invoice_voids_example :
    After
      (λ db'. RowIs 1 102 (IsVoided (sale InvoiceStatus.confirmed)) db'.sales)
      (void_invoice 1 102 (shop_with InvoiceStatus.confirmed))
void_invoice_voids_example =
    void_invoice_voids 1 102 (sale InvoiceStatus.confirmed) (shop_with InvoiceStatus.confirmed) refl

record_payment_pays_example :
    After
      (λ db'.
        RowIs 1 102
          (IsPaid (sale InvoiceStatus.confirmed) (sale InvoiceStatus.confirmed) (pos 10_000))
          db'.sales)
      (record_payment 1 102 (finite (pos 100) 0) (shop_with InvoiceStatus.confirmed))
unfolding to_amount round2 of_cents nearest nearest_pos round_even finer coarser plus times
    math_round floor_div ◌+ℤ◌ ◌*ℤ◌
record_payment_pays_example =
    record_payment_pays 1 102 (finite (pos 100) 0) (pos 10_000) (sale InvoiceStatus.confirmed)
      (shop_with InvoiceStatus.confirmed) refl refl

confirm_once_example :
    After
      (λ db'. After Never (confirm_read 1 102 (sale InvoiceStatus.draft) db'))
      (confirm_read 1 102 (sale InvoiceStatus.draft) (shop_with InvoiceStatus.draft))
confirm_once_example =
    confirm_once 1 102 (sale InvoiceStatus.draft) (sale InvoiceStatus.draft)
      (shop_with InvoiceStatus.draft)

pay_once_example :
    After
      (λ db'. After Never (pay_read 1 102 (pos 20_000) (sale InvoiceStatus.confirmed) db'))
      (pay_read 1 102
        (pos 10_000)
        (sale InvoiceStatus.confirmed)
        (shop_with InvoiceStatus.confirmed))
pay_once_example =
    pay_once 1 102 (pos 10_000) (pos 20_000) (sale InvoiceStatus.confirmed)
      (shop_with InvoiceStatus.confirmed) (omega int_laws)

record_payment_succeeds_example :
    is_ok (record_payment 1 102 (finite (pos 100) 0) (shop_with InvoiceStatus.confirmed)) ≡ true
unfolding to_amount round2 of_cents nearest nearest_pos round_even finer coarser plus times
    math_round floor_div ◌+ℤ◌ ◌*ℤ◌ already_posted
record_payment_succeeds_example =
    record_payment_succeeds 1 102 (finite (pos 100) 0) (pos 10_000) (sale InvoiceStatus.confirmed)
      (shop_with InvoiceStatus.confirmed) refl (omega int_laws) refl refl refl refl refl refl

confirm_invoice_succeeds_example :
    is_ok (confirm_invoice 1 102 (shop_with InvoiceStatus.draft)) ≡ true
unfolding ◌+ℤ◌ ◌*ℤ◌ ◌-ℤ◌ round2 of_cents nearest nearest_pos round_even finer coarser plus times
    math_round floor_div already_posted sell_lines sell_item item_of_line move_stock add_cost pure
    ◌>>=◌
confirm_invoice_succeeds_example =
    confirm_invoice_succeeds 1 102 (sale InvoiceStatus.draft) (omega int_laws) (omega int_laws)
      (shop_with InvoiceStatus.draft) _ _ refl refl refl refl refl
      (record {
        receivables = (_, refl);
        revenues = (_, refl);
        taxes = (_, refl);
        costs = (_, refl);
        goods = (_, refl);
      })
      (record { sale = refl; cogs = refl }) refl

pay_revives_void_example :
    (p : Payment) × (d : Db) × (pay_read 1 102
        (pos 10_000)
        (sale InvoiceStatus.confirmed)
        (shop_with InvoiceStatus.void)
      ≡ ok (p, d))
    × RowIs 1 102 (λ i. i.status ≢ InvoiceStatus.void) d.sales
unfolding already_posted
pay_revives_void_example =
    pay_revives_void 1 102 (pos 10_000) (sale InvoiceStatus.confirmed) (sale InvoiceStatus.void)
      (shop_with InvoiceStatus.void) (omega int_laws) refl refl refl refl refl refl refl refl
