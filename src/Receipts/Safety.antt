-- ===== src/Receipts/Safety.antt =====
-- About the books and the stock after each operation of modules/purchase-orders and
-- modules/goods-receipts.
use biz360_sme_erp_e_tims.Base.{
  ℕ, Bool, Option, none, some, List, [], ◌∷◌, find, update_where, count_where, Bool-cases, inl, inr,
  ◌==◌, Option-cases,
}
use biz360_sme_erp_e_tims.Base.Int.{ℤ}
use biz360_sme_erp_e_tims.Result.{ok}
use biz360_sme_erp_e_tims.Store.{
  Item, OrderedLine, OrderStatus, PurchaseOrder, OrderLine, ReceiptLine, GoodsReceipt, Db, modify,
}
use biz360_sme_erp_e_tims.Store.Keeps.{Keeps, Keeps-modify, keeps_rules}
use biz360_sme_erp_e_tims.Consistency.{IsConsistent, move_stock-IsConsistent}
use biz360_sme_erp_e_tims.Orders.Lines.{OrderLineDto}
use biz360_sme_erp_e_tims.Orders.{
  assert_supplier, load_lines, insert_order, create_order, load_optional, assert_optional,
  update_order, is_order, move_order,
}
use biz360_sme_erp_e_tims.Receipts.{
  ReceiptLineDto, insert_receipt, create_receipt, stock_in, item_received, receive_line,
  receive_all, update_one_receipt, receipt_read, confirm_receipt, cancel_receipt,
}

insert_order-Keeps :
    (org party : ℕ) (date : Option ℕ) (ls : List OrderedLine)
    → Keeps IsConsistent (λ db. ok (insert_order org party date ls db))
unfolding insert_order
insert_order-Keeps org party date ls = record { run = λ db h. h }

insert_receipt-Keeps :
    (org : ℕ) (o : PurchaseOrder) (date : Option ℕ) (ls : List ReceiptLine)
    → Keeps IsConsistent (λ db. ok (insert_receipt org o date ls db))
unfolding insert_receipt
insert_receipt-Keeps org o date ls = record { run = λ db h. h }

assert_supplier-Keeps : (org party : ℕ) → Keeps IsConsistent (assert_supplier org party)
unfolding assert_supplier
assert_supplier-Keeps org party = search keeps_rules depth 12

load_lines-Keeps : (org : ℕ) (dtos : List OrderLineDto) → Keeps IsConsistent (load_lines org dtos)
unfolding load_lines
load_lines-Keeps org dtos = search keeps_rules depth 12

ruleset order_rules =
    (keeps_rules, insert_order-Keeps, insert_receipt-Keeps, assert_supplier-Keeps, load_lines-Keeps)

-- Drafting an order keeps the books and the stock consistent, and editing one, and each change of
-- its status.
pub create_order-IsConsistent :
    (org party : ℕ) (date : Option ℕ) (dtos : List OrderLineDto)
    → Keeps IsConsistent (create_order org party date dtos)
unfolding create_order
create_order-IsConsistent org party date dtos = search order_rules depth 12

load_optional-Keeps :
    (org : ℕ) (dtos : Option (List OrderLineDto)) → Keeps IsConsistent (load_optional org dtos)
unfolding load_optional
load_optional-Keeps org none = search order_rules
load_optional-Keeps org (some ls) = search order_rules depth 10

assert_optional-Keeps :
    (org : ℕ) (party : Option ℕ) → Keeps IsConsistent (assert_optional org party)
unfolding assert_optional
assert_optional-Keeps org none = search order_rules
assert_optional-Keeps org (some p) = search order_rules

orders-Keeps :
    (f : Db → ℕ) (g : Db → List PurchaseOrder)
    → Keeps IsConsistent (modify (λ db. record db { next_id = f db; orders = g db }))
orders-Keeps f g = Keeps-modify IsConsistent _ (λ db h. h)

pub update_order-IsConsistent :
    (org id : ℕ) (party date : Option ℕ) (dtos : Option (List OrderLineDto))
    → Keeps IsConsistent (update_order org id party date dtos)
unfolding update_order
update_order-IsConsistent org id party date dtos =
    search (order_rules, load_optional-Keeps, assert_optional-Keeps, orders-Keeps) depth 20

pub move_order-IsConsistent :
    (org id : ℕ) (p : PurchaseOrder → Bool) (s : OrderStatus) (db : Db)
    → IsConsistent db
    → IsConsistent ((move_order org id p s db).1)
unfolding move_order
move_order-IsConsistent org id p s db h = elim (Bool-cases (count_where p db.orders == 1)) [
  | inl one ↦ rw (one, move_order) h
  | inr none_or_more ↦ elim (Option-cases (find (is_order org id) db.orders)) [
    | inl e ↦ rw (none_or_more, e, move_order) h
    | inr (o, e) ↦ rw (none_or_more, e, move_order) h
  ]
]

stock_in_keeps :
    (org ref : ℕ) (v : ℤ) (it : Option Item) (db : Db)
    → IsConsistent db
    → IsConsistent (stock_in org ref v it db)
unfolding stock_in
stock_in_keeps org ref v none db h = h
stock_in_keeps org ref v (some it) db h = move_stock-IsConsistent org it.id v _ _ db h

receive_line_keeps :
    (org id : ℕ) (l : ReceiptLine) (db : Db)
    → IsConsistent db
    → IsConsistent (receive_line org id l db)
unfolding receive_line
receive_line_keeps org id l db h =
    stock_in_keeps org id l.quantity (item_received org l.item_id db) db h

receive_all_keeps :
    (org id : ℕ) (ls : List ReceiptLine) (db : Db)
    → IsConsistent db
    → IsConsistent (receive_all org id ls db)
unfolding receive_all
receive_all_keeps org id [] db h = h
receive_all_keeps org id (l ∷ ls) db h =
    receive_all_keeps org id ls (receive_line org id l db) (receive_line_keeps org id l db h)

receive_all-Keeps :
    (org id : ℕ) (ls : List ReceiptLine) → Keeps IsConsistent (modify (receive_all org id ls))
receive_all-Keeps org id ls = Keeps-modify IsConsistent _ (receive_all_keeps org id ls)

receipts-Keeps :
    (p : GoodsReceipt → Bool) (f : GoodsReceipt → GoodsReceipt)
    → Keeps IsConsistent (modify (λ db. record db { receipts = update_where p f db.receipts }))
receipts-Keeps p f = Keeps-modify IsConsistent _ (λ db h. h)

update_one_receipt-Keeps :
    (org id : ℕ) (f : GoodsReceipt → GoodsReceipt)
    → Keeps IsConsistent (update_one_receipt org id f)
unfolding update_one_receipt
update_one_receipt-Keeps org id f = search (keeps_rules, receipts-Keeps) depth 12

ruleset receipt_rules = (order_rules, receive_all-Keeps, update_one_receipt-Keeps)

-- Drafting a receipt keeps the books and the stock consistent, and confirming and cancelling one.
pub create_receipt-IsConsistent :
    (org order : ℕ) (date : Option ℕ) (dtos : List ReceiptLineDto)
    → Keeps IsConsistent (create_receipt org order date dtos)
unfolding create_receipt
create_receipt-IsConsistent org order date dtos = search receipt_rules depth 15

receipt_read-Keeps :
    (org id : ℕ) (date : Option ℕ) (r : GoodsReceipt) (order : List OrderLine)
    → Keeps IsConsistent (receipt_read org id date r order)
unfolding receipt_read
receipt_read-Keeps org id date r order = search receipt_rules depth 12

pub confirm_receipt-IsConsistent :
    (org id : ℕ) (date : Option ℕ) → Keeps IsConsistent (confirm_receipt org id date)
unfolding confirm_receipt
confirm_receipt-IsConsistent org id date = search (receipt_rules, receipt_read-Keeps) depth 12

pub cancel_receipt-IsConsistent : (org id : ℕ) → Keeps IsConsistent (cancel_receipt org id)
unfolding cancel_receipt
cancel_receipt-IsConsistent org id = search receipt_rules depth 12
