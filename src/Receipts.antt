-- ===== src/Receipts.antt =====
-- modules/goods-receipts/goods-receipts.service.ts: a goods receipt is drafted against an approved
-- purchase order, and confirmed or cancelled. A quantity is a number of thousandths, as the dto
-- wants. A receipt refers to an order that is there, and the id of an order line is its own.
pub mod Within
pub mod Contract
pub mod Over
pub mod Safety
use biz360_sme_erp_e_tims.Base.{
  ℕ, suc, Bool, true, false, not, ◌&&◌, Option, none, some, List, [], ◌∷◌, ◌==◌, if◌then◌else◌,
  find, update_where, count_where, or_default, map,
}
use biz360_sme_erp_e_tims.Base.Int.{ℤ, pos, ◌+ℤ◌, ltb_ℤ}
use biz360_sme_erp_e_tims.Result.{
  Result, ok, err, conflict, not_found, bad_request, wrong_status, concurrent_change, order_missing,
  receipt_missing, line_missing, bad_quantity, over_receipt,
}
use biz360_sme_erp_e_tims.Money.{finite, to_amount}
use biz360_sme_erp_e_tims.Store.{
  MovementType, Item, OrderStatus, OrderLine, PurchaseOrder, ReceiptStatus, ReceiptLine,
  GoodsReceipt, Db, Tx, pure, ◌>>=◌, ◌>>◌, gets, modify, throw_if, or_throw, lift, bump,
}
use biz360_sme_erp_e_tims.Stock.{is_item, tracked, move_stock}
use biz360_sme_erp_e_tims.Orders.{is_order, has_order_id, order_code}

-- A line as the client sends it: the order line, and the quantity.
abbrev pub ReceiptLineDto : Type 0
ReceiptLineDto = ℕ × ℤ

-- The quantity passes if its rounding to hundredths is positive, and is kept as it is.
unfoldable pub to_qty : ℤ → Result ℤ
to_qty q = elim (to_amount (finite q 3)) [
  | err e ↦ err (bad_request bad_quantity)
  | ok n ↦ if ltb_ℤ (pos 0) n then ok q else err (bad_request bad_quantity)
]

abbrev pub has_line_id : ℕ → OrderLine → Bool
has_line_id k l = l.id == k

-- Each line is one of the order, and its quantity passes.
unfoldable pub draft_lines : List OrderLine → List ReceiptLineDto → Result (List ReceiptLine)
draft_lines order [] = ok []
draft_lines order ((k, q) ∷ ls) = elim (find (has_line_id k) order) [
  | none ↦ err (bad_request line_missing)
  | some o ↦ elim (to_qty q) [
    | err e ↦ err e
    | ok v ↦ elim (draft_lines order ls) [
      | err e ↦ err e
      | ok rest ↦ ok (record { order_line = k; item_id = o.ordered.item_id; quantity = v } ∷ rest)
    ]
  ]
]

abbrev pub receipt_row : ℕ → ℕ → ℕ → PurchaseOrder → ℕ → List ReceiptLine → GoodsReceipt
receipt_row id org number o date lines = record {
  id = id;
  org = org;
  number = number;
  order_id = o.id;
  party_id = o.party_id;
  received_date = date;
  status = ReceiptStatus.draft;
  lines = lines;
}

unfoldable pub insert_receipt :
    ℕ → PurchaseOrder → Option ℕ → List ReceiptLine → Db → GoodsReceipt × Db
insert_receipt org o date lines db =
    let r : GoodsReceipt =
      receipt_row db.next_id org (suc (db.receipt_seq org)) o (or_default date db.today) lines in
    (
      r,
      record db {
        next_id = suc db.next_id;
        receipt_seq = bump db.receipt_seq org;
        receipts = r ∷ db.receipts;
      },
    )

unfoldable pub create_receipt : ℕ → ℕ → Option ℕ → List ReceiptLineDto → Tx GoodsReceipt
create_receipt org order date dtos = do
  found ← gets (λ db. find (is_order org order) db.orders)
  o ← or_throw found (not_found order_missing)
  throw_if (not (order_code o.status == order_code OrderStatus.approved)) (bad_request wrong_status)
  lines ← lift (draft_lines o.lines dtos)
  λ db. ok (insert_receipt org o date lines db)

abbrev pub is_receipt : ℕ → ℕ → GoodsReceipt → Bool
is_receipt org id r = r.id == id && r.org == org

abbrev pub is_draft_receipt : ReceiptStatus → Bool
is_draft_receipt ReceiptStatus.draft = true
is_draft_receipt _ = false

-- The lines of the order that a receipt refers to.
abbrev pub lines_of : Option PurchaseOrder → List OrderLine
lines_of none = []
lines_of (some o) = o.lines

-- What was received before, with this line, does not pass what was ordered.
unfoldable pub check_line : List OrderLine → ReceiptLine → Result (Unit {0})
check_line order l = elim (find (has_line_id l.order_line) order) [
  | none ↦ err (bad_request line_missing)
  | some o ↦ elim (to_qty l.quantity) [
    | err e ↦ err e
    | ok v ↦
        if ltb_ℤ o.ordered.quantity (o.received +ℤ v) then err (bad_request over_receipt) else ok tt
  ]
]

-- The first loop of `confirm`: every line is checked against the order as it was read.
unfoldable pub check_lines : List OrderLine → List ReceiptLine → Result (Unit {0})
check_lines order [] = ok tt
check_lines order (l ∷ ls) = elim (check_line order l) [
  | err e ↦ err e
  | ok _ ↦ check_lines order ls
]

abbrev pub add_received : ℤ → OrderLine → OrderLine
add_received v l = record l { received = l.received +ℤ v }

abbrev pub receive_into : ℕ → ℤ → PurchaseOrder → PurchaseOrder
receive_into k v o = record o { lines = update_where (has_line_id k) (add_received v) o.lines }

-- The item that a line of the receipt moves.
unfoldable pub item_received : ℕ → Option ℕ → Db → Option Item
item_received org none db = none
item_received org (some k) db = tracked (find (is_item org k) db.items)

unfoldable pub stock_in : ℕ → ℕ → ℤ → Option Item → Db → Db
stock_in org ref v none db = db
stock_in org ref v (some it) db = move_stock org it.id v MovementType.purchase_in (some ref) db

-- The second loop of `confirm`: the stock comes in, and the order line has received more.
unfoldable pub receive_line : ℕ → ℕ → ReceiptLine → Db → Db
receive_line org id l db =
    let d : Db = stock_in org id l.quantity (item_received org l.item_id db) db in
    record d { orders = map (receive_into l.order_line l.quantity) d.orders }

unfoldable pub receive_all : ℕ → ℕ → List ReceiptLine → Db → Db
receive_all org id [] db = db
receive_all org id (l ∷ ls) db = receive_all org id ls (receive_line org id l db)

abbrev pub is_still_draft_receipt : ℕ → ℕ → GoodsReceipt → Bool
is_still_draft_receipt org id r = is_receipt org id r && is_draft_receipt r.status

-- The compare-and-set of the status of a receipt, which must change one row.
unfoldable pub update_one_receipt : ℕ → ℕ → (GoodsReceipt → GoodsReceipt) → Tx (Unit {0})
update_one_receipt org id f = do
  n ← gets (λ db. count_where (is_still_draft_receipt org id) db.receipts)
  throw_if (not (n == 1)) (conflict concurrent_change)
  modify (λ db. record db { receipts = update_where (is_still_draft_receipt org id) f db.receipts })

abbrev pub confirm_receipt_row : Option ℕ → GoodsReceipt → GoodsReceipt
confirm_receipt_row date r = record r {
  status = ReceiptStatus.confirmed;
  received_date = or_default date r.received_date;
}

-- The rest of `confirm`, from the rows that were read.
unfoldable pub receipt_read : ℕ → ℕ → Option ℕ → GoodsReceipt → List OrderLine → Tx (Unit {0})
receipt_read org id date r order = do
  throw_if (not (is_draft_receipt r.status)) (conflict wrong_status)
  lift (check_lines order r.lines)
  modify (receive_all org id r.lines)
  update_one_receipt org id (confirm_receipt_row date)

unfoldable pub confirm_receipt : ℕ → ℕ → Option ℕ → Tx (Unit {0})
confirm_receipt org id date = do
  found ← gets (λ db. find (is_receipt org id) db.receipts)
  r ← or_throw found (not_found receipt_missing)
  order ← gets (λ db. find (has_order_id r.order_id) db.orders)
  receipt_read org id date r (lines_of order)

abbrev pub cancel_receipt_row : GoodsReceipt → GoodsReceipt
cancel_receipt_row r = record r { status = ReceiptStatus.cancelled }

unfoldable pub cancel_receipt : ℕ → ℕ → Tx (Unit {0})
cancel_receipt org id = do
  found ← gets (λ db. find (is_receipt org id) db.receipts)
  r ← or_throw found (not_found receipt_missing)
  throw_if (not (is_draft_receipt r.status)) (conflict wrong_status)
  update_one_receipt org id cancel_receipt_row
