-- ===== src/Tests/Orders.antt =====
-- Goods receipts against an order of ten of the item.
use biz360_sme_erp_e_tims.Base.{◌≡◌, refl, none, some, List, [], ◌∷◌, arith, find}
use biz360_sme_erp_e_tims.Base.Int.{pos, ◌+ℤ◌, ◌≤ℤ◌, ◌*ℤ◌, floor_div, int_laws}
use biz360_sme_erp_e_tims.Money.{to_amount, round2}
use biz360_sme_erp_e_tims.Money.Binary.{
  nearest, nearest_pos, round_even, finer, coarser, plus, times, math_round,
}
use biz360_sme_erp_e_tims.Result.{ok}
use biz360_sme_erp_e_tims.Store.{
  OrderStatus, OrderLine, PurchaseOrder, ReceiptStatus, ReceiptLine, GoodsReceipt, Db,
}
use biz360_sme_erp_e_tims.Store.Keeps.{After}
use biz360_sme_erp_e_tims.Orders.{has_order_id}
use biz360_sme_erp_e_tims.Receipts.{confirm_receipt, has_line_id, to_qty}
use biz360_sme_erp_e_tims.Receipts.Within.{IsWithin, OnLines}
use biz360_sme_erp_e_tims.Receipts.Contract.{confirm_receipt-IsWithin}
use biz360_sme_erp_e_tims.Receipts.Over.{confirm_receipt_over}
use biz360_sme_erp_e_tims.Tests.Shop.{shop}

abbrev ten_ordered : OrderLine
ten_ordered = record {
  id = 111;
  received = pos 0;
  ordered = record {
    item_id = some 22;
    quantity = pos 10_000;
    unit_price = pos 6000;
    tax_rate = pos 1600;
    discount_pct = pos 0;
    line_discount = pos 0;
    line_amount = pos 60_000;
    line_total = pos 60_000;
    tax_amount = pos 9600;
  };
}

abbrev order : PurchaseOrder
order = record {
  id = 110;
  org = 1;
  number = 1;
  party_id = 21;
  order_date = 20_000;
  status = OrderStatus.approved;
  subtotal = pos 60_000;
  discount_total = pos 0;
  tax_total = pos 9600;
  total = pos 69_600;
  lines = ten_ordered ∷ [];
}

abbrev six : ReceiptLine
six = record { order_line = 111; item_id = some 22; quantity = pos 6000 }

abbrev receipt : List ReceiptLine → GoodsReceipt
receipt lines = record {
  id = 112;
  org = 1;
  number = 1;
  order_id = 110;
  party_id = 21;
  received_date = 20_001;
  status = ReceiptStatus.draft;
  lines = lines;
}

abbrev ordered_shop : List ReceiptLine → Db
ordered_shop lines = record shop {
  next_id = 113;
  orders = order ∷ [];
  receipts = receipt lines ∷ [];
}

six_passes : to_qty (pos 6000) ≡ ok (pos 6000)
unfolding to_qty to_amount round2 nearest nearest_pos round_even finer coarser plus times math_round
    floor_div ◌*ℤ◌ ◌+ℤ◌
six_passes = refl

confirm_receipt-IsWithin_example :
    After (λ d. OnLines IsWithin d.orders) (confirm_receipt 1 112 none (ordered_shop (six ∷ [])))
confirm_receipt-IsWithin_example =
    confirm_receipt-IsWithin 1 112 none (receipt (six ∷ [])) (ordered_shop (six ∷ [])) refl (tt, tt)
      (((omega arith, λ k y e named. ground (arith, e, named)), tt), tt)

confirm_receipt_over_example :
    (d : Db) × (o : PurchaseOrder) × (y : OrderLine) × (confirm_receipt 1 112 none
        (ordered_shop (six ∷ six ∷ []))
      ≡ ok (tt, d))
    × (find (has_order_id 110) d.orders ≡ some o)
    × (find (has_line_id 111) o.lines ≡ some y)
    × (y.received ≡ pos 0 +ℤ pos 6000 +ℤ pos 6000)
    × (y.ordered.quantity +ℤ pos 1 ≤ℤ y.received)
unfolding ◌+ℤ◌
confirm_receipt_over_example =
    confirm_receipt_over 1 112 none (receipt (six ∷ six ∷ [])) six six order ten_ordered
      (ordered_shop (six ∷ six ∷ [])) refl refl refl refl refl refl (six_passes, omega int_laws)
      (six_passes, omega int_laws) (omega int_laws) refl
