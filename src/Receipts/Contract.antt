-- ===== src/Receipts/Contract.antt =====
-- About confirming a goods receipt.
use biz360_sme_erp_e_tims.Base.{ℕ, Bool, ◌≡◌, Option, some, List, find, update_where, All, All-map}
use biz360_sme_erp_e_tims.Store.{OrderLine, PurchaseOrder, GoodsReceipt, Db, modify, run}
use biz360_sme_erp_e_tims.Store.Keeps.{After, Keeps, Keeps-modify, keeps_rules}
use biz360_sme_erp_e_tims.Store.Leads.{
  Leads, Leads-guard, Leads-lift_then, Leads-last_then, Leads-modify,
}
use biz360_sme_erp_e_tims.Orders.{has_order_id}
use biz360_sme_erp_e_tims.Receipts.{
  check_lines, is_receipt, lines_of, update_one_receipt, receipt_read, confirm_receipt,
}
use biz360_sme_erp_e_tims.Receipts.Within.{
  IsWithin, OnLines, Fits, AreDistinct, IsKeyed, rooms_of_checks, receive_all-IsWithin,
}

abbrev pub HasReceipt : ℕ → ℕ → GoodsReceipt → Db → Type 0
HasReceipt org id r db = find (is_receipt org id) db.receipts ≡ some r

-- The lines of the order that the receipt is for.
abbrev pub order_of : GoodsReceipt → Db → List OrderLine
order_of r db = lines_of (find (has_order_id r.order_id) db.orders)

receipts-Keeps :
    (P : List PurchaseOrder → Type 0) (p : GoodsReceipt → Bool) (f : GoodsReceipt → GoodsReceipt)
    → Keeps
        (λ db. P db.orders)
        (modify (λ db. record db { receipts = update_where p f db.receipts }))
receipts-Keeps P p f = Keeps-modify _ _ (λ db h. h)

update_one_receipt-Keeps :
    (P : List PurchaseOrder → Type 0) (org id : ℕ) (f : GoodsReceipt → GoodsReceipt)
    → Keeps (λ db. P db.orders) (update_one_receipt org id f)
unfolding update_one_receipt
update_one_receipt-Keeps P org id f = search (keeps_rules, receipts-Keeps P) depth 12

receipt_read-Leads :
    (org id : ℕ) (date : Option ℕ) (r : GoodsReceipt) (order : List OrderLine)
    → AreDistinct r.lines
    → Leads
        (λ db. OnLines (λ x. IsWithin x × IsKeyed order x) db.orders)
        (λ db. OnLines IsWithin db.orders)
        (receipt_read org id date r order)
unfolding receipt_read
receipt_read-Leads org id date r order distinct = Leads-guard _ _ _ _ λ g.
    Leads-lift_then _ _ (check_lines order r.lines) λ u checked.
      Leads-last_then _ _
        (Leads-modify _ _ _ λ db h. receive_all-IsWithin org id r.lines db distinct (
          All-map (λ (o : PurchaseOrder). All (λ x. IsWithin x × IsKeyed order x) o.lines)
            (λ (o : PurchaseOrder). All (Fits r.lines) o.lines)
            (λ o.
              All-map (λ x. IsWithin x × IsKeyed order x) (Fits r.lines)
                (λ x k. (k.0, rooms_of_checks order r.lines x k.1 checked)) o.lines)
            db.orders h))
        (update_one_receipt-Keeps (OnLines IsWithin) org id _)

-- Where no two lines of a receipt name one order line, and order lines have ids of their own, a
-- confirmation leaves no order line with more received than ordered, if there was none before.
pub confirm_receipt-IsWithin :
    (org id : ℕ) (date : Option ℕ) (r : GoodsReceipt) (db : Db)
    → HasReceipt org id r db
    → AreDistinct r.lines
    → OnLines (λ x. IsWithin x × IsKeyed (order_of r db) x) db.orders
    → After (λ d. OnLines IsWithin d.orders) (confirm_receipt org id date db)
unfolding confirm_receipt run
confirm_receipt-IsWithin org id date r db has distinct h =
    rw has ((receipt_read-Leads org id date r (order_of r db) distinct).run db h)
