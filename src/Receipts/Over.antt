-- ===== src/Receipts/Over.antt =====
-- About a goods receipt that names one order line twice.
use biz360_sme_erp_e_tims.Base.{
  ℕ, true, false, ◌≡◌, refl, ◌∙◌, Option, none, some, List, [], ◌∷◌, find, find-map,
  find-update_any, find_passes, map, update_where, count_where, arith,
}
use biz360_sme_erp_e_tims.Base.Int.{ℤ, pos, ◌+ℤ◌, ◌≤ℤ◌, ltb_ℤ}
use biz360_sme_erp_e_tims.Result.{ok}
use biz360_sme_erp_e_tims.Store.{
  Item, OrderLine, PurchaseOrder, ReceiptLine, GoodsReceipt, Db, run, pure, ◌>>=◌, ◌>>◌, throw_if,
  lift,
}
use biz360_sme_erp_e_tims.Stock.{move_stock}
use biz360_sme_erp_e_tims.Orders.{has_order_id}
use biz360_sme_erp_e_tims.Receipts.{
  has_line_id, to_qty, check_lines, check_line, receive_all, receive_line, stock_in, item_received,
  receive_into, add_received, update_one_receipt, is_draft_receipt, is_still_draft_receipt,
  receipt_read, confirm_receipt, confirm_receipt_row,
}
use biz360_sme_erp_e_tims.Receipts.Within.{receive_line-orders}
use biz360_sme_erp_e_tims.Receipts.Contract.{HasReceipt}

test_of_fits : (a b : ℤ) → a ≤ℤ b → ltb_ℤ b a ≡ false
test_of_fits a b h = ground arith

check_line_passes :
    (order : List OrderLine) (l : ReceiptLine) (y : OrderLine)
    → find (has_line_id l.order_line) order ≡ some y
    → to_qty l.quantity ≡ ok l.quantity
    → y.received +ℤ l.quantity ≤ℤ y.ordered.quantity
    → check_line order l ≡ ok tt
unfolding check_line
check_line_passes order l y e f h = rw (e, f, test_of_fits _ _ h, check_line) refl

stock_in-receipts :
    (org ref : ℕ) (v : ℤ) (it : Option Item) (db : Db)
    → (stock_in org ref v it db).receipts ≡ db.receipts
unfolding stock_in move_stock
stock_in-receipts org ref v none db = refl
stock_in-receipts org ref v (some it) db = refl

receive_line-receipts :
    (org id : ℕ) (l : ReceiptLine) (db : Db) → (receive_line org id l db).receipts ≡ db.receipts
unfolding receive_line
receive_line-receipts org id l db =
    stock_in-receipts org id l.quantity (item_received org l.item_id db) db

receive_all-receipts :
    (org id : ℕ) (ls : List ReceiptLine) (db : Db)
    → (receive_all org id ls db).receipts ≡ db.receipts
unfolding receive_all
receive_all-receipts org id [] db = refl
receive_all-receipts org id (l ∷ ls) db =
    receive_all-receipts org id ls (receive_line org id l db) ∙ receive_line-receipts org id l db

-- The order line is found, with what one line of a receipt adds to it.
received_row :
    (k o : ℕ) (v : ℤ) (order : PurchaseOrder) (x : OrderLine) (orders : List PurchaseOrder)
    → find (has_order_id o) orders ≡ some order
    → find (has_line_id k) order.lines ≡ some x
    → (find (has_order_id o) (map (receive_into k v) orders) ≡ some (receive_into k v order))
      × (find (has_line_id k) ((receive_into k v order).lines) ≡ some (add_received v x))
received_row k o v order x orders e f = (
  find-map (has_order_id o) (receive_into k v) (λ y. refl) order orders e,
  ground (
    arith,
    find-update_any (has_line_id k) (has_line_id k) (add_received v) (λ y. refl) x order.lines f,
    find_passes (has_line_id k) order.lines f,
  ),
)

update_one_receipt-ok :
    (org id : ℕ) (f : GoodsReceipt → GoodsReceipt) (db : Db)
    → count_where (is_still_draft_receipt org id) db.receipts ≡ 1
    → update_one_receipt org id f db
      ≡ ok (tt, record db { receipts = update_where (is_still_draft_receipt org id) f db.receipts })
unfolding update_one_receipt run
update_one_receipt-ok org id f db one = ground (arith, one)

receipt_read_runs :
    (org id : ℕ) (date : Option ℕ) (r : GoodsReceipt) (order : List OrderLine) (db : Db)
    → is_draft_receipt r.status ≡ true
    → check_lines order r.lines ≡ ok tt
    → count_where (is_still_draft_receipt org id) db.receipts ≡ 1
    → receipt_read org id date r order db
      ≡ ok (
        tt,
        record (receive_all org id r.lines db) {
          receipts =
              update_where
                (is_still_draft_receipt org id)
                (confirm_receipt_row date)
                (receive_all org id r.lines db).receipts;
        },
      )
unfolding receipt_read run pure
receipt_read_runs org id date r order db draft checked one =
    rw (draft, checked, ◌>>=◌, ◌>>◌, throw_if, lift)
      (update_one_receipt-ok org id (confirm_receipt_row date) (receive_all org id r.lines db)
        (rw (receive_all-receipts org id r.lines db) one))

-- The line of the receipt passes the check, and fits by itself.
abbrev pub PassesAlone : OrderLine → ReceiptLine → Type 0
PassesAlone x l =
    (to_qty l.quantity ≡ ok l.quantity) × (x.received +ℤ l.quantity ≤ℤ x.ordered.quantity)

orders_of_two :
    (org id : ℕ) (l m : ReceiptLine) (ls : List ReceiptLine) (db : Db)
    → ls ≡ l ∷ m ∷ []
    → m.order_line ≡ l.order_line
    → (receive_all org id ls db).orders
      ≡ map
          (receive_into l.order_line m.quantity)
          (map (receive_into l.order_line l.quantity) db.orders)
unfolding receive_all
orders_of_two org id l m ls db two same =
    rw
      (
        two,
        receive_all,
        receive_line-orders org id m (receive_line org id l db),
        same,
        receive_line-orders org id l db,
      )
      refl

both_pass :
    (order : List OrderLine) (ls : List ReceiptLine) (l m : ReceiptLine) (x : OrderLine)
    → ls ≡ l ∷ m ∷ []
    → m.order_line ≡ l.order_line
    → find (has_line_id l.order_line) order ≡ some x
    → PassesAlone x l
    → PassesAlone x m
    → check_lines order ls ≡ ok tt
unfolding check_lines
both_pass order ls l m x two same has p q =
    rw
      (
        two,
        check_lines,
        check_line_passes order l x has p.0 p.1,
        check_line_passes order m x (rw same has) q.0 q.1,
      )
      refl

-- A draft receipt of two lines that name one order line is confirmed if each line by itself fits
-- what is ordered, and the order line has then received both: more than is ordered, if the two
-- together do not fit.
pub confirm_receipt_over :
    (org id : ℕ) (date : Option ℕ) (r : GoodsReceipt) (l m : ReceiptLine) (order : PurchaseOrder)
    (x : OrderLine) (db : Db)
    → HasReceipt org id r db
    → is_draft_receipt r.status ≡ true
    → r.lines ≡ l ∷ m ∷ []
    → m.order_line ≡ l.order_line
    → find (has_order_id r.order_id) db.orders ≡ some order
    → find (has_line_id l.order_line) order.lines ≡ some x
    → PassesAlone x l
    → PassesAlone x m
    → x.ordered.quantity +ℤ pos 1 ≤ℤ x.received +ℤ l.quantity +ℤ m.quantity
    → count_where (is_still_draft_receipt org id) db.receipts ≡ 1
    → (d : Db) × (o : PurchaseOrder) × (y : OrderLine) × (confirm_receipt org id date db
        ≡ ok (tt, d))
      × (find (has_order_id r.order_id) d.orders ≡ some o)
      × (find (has_line_id l.order_line) o.lines ≡ some y)
      × (y.received ≡ x.received +ℤ l.quantity +ℤ m.quantity)
      × (y.ordered.quantity +ℤ pos 1 ≤ℤ y.received)
unfolding confirm_receipt run receive_all
confirm_receipt_over org id date r l m order x db has draft two same o_has x_has fits fits' over
      one =
    let checked : check_lines order.lines r.lines ≡ ok tt =
      both_pass order.lines r.lines l m x two same x_has fits fits' in
    let once = received_row l.order_line r.order_id l.quantity order x db.orders o_has x_has in
    let twice =
      received_row l.order_line r.order_id m.quantity (receive_into l.order_line l.quantity order)
        (add_received l.quantity x) (map (receive_into l.order_line l.quantity) db.orders) once.0
        once.1 in
    (
      record (receive_all org id r.lines db) {
        receipts =
            update_where (is_still_draft_receipt org id) (confirm_receipt_row date)
              (receive_all org id r.lines db).receipts;
      },
      receive_into l.order_line m.quantity (receive_into l.order_line l.quantity order),
      add_received m.quantity (add_received l.quantity x),
      rw (has, o_has) (receipt_read_runs org id date r order.lines db draft checked one),
      rw (orders_of_two org id l m r.lines db two same) twice.0,
      twice.1,
      refl,
      over,
    )
