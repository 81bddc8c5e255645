-- ===== src/Receipts/Within.antt =====
-- About what was received of the order lines, against what they order.
use biz360_sme_erp_e_tims.Base.{
  ℕ, true, false, ◌≡◌, ◌≢◌, refl, ap, Option, Option-cases, none, some, List, [], ◌∷◌, find, map,
  All, All-map, All-over_map, All-update_where, Bool-cases, inl, inr, if◌then◌else◌, arith,
}
use biz360_sme_erp_e_tims.Base.Int.{ℤ, ◌+ℤ◌, ◌≤ℤ◌, ltb_ℤ}
use biz360_sme_erp_e_tims.Result.{Error, Result, Result-cases, ok, err}
use biz360_sme_erp_e_tims.Store.{Item, OrderLine, PurchaseOrder, ReceiptLine, Db}
use biz360_sme_erp_e_tims.Money.{to_amount}
use biz360_sme_erp_e_tims.Stock.{move_stock}
use biz360_sme_erp_e_tims.Receipts.{
  to_qty, has_line_id, check_line, check_lines, add_received, receive_into, stock_in, receive_line,
  item_received, receive_all,
}

-- No more was received than is ordered.
abbrev pub IsWithin : OrderLine → Type 0
IsWithin x = x.received ≤ℤ x.ordered.quantity

abbrev pub OnLines : (OrderLine → Type 0) → List PurchaseOrder → Type 0
OnLines P = All (λ (o : PurchaseOrder). All P o.lines)

-- The order line has room for the receipt line, if it is the one that is named.
abbrev pub HasRoom : OrderLine → ReceiptLine → Type 0
HasRoom x l = has_line_id l.order_line x ≡ true → x.received +ℤ l.quantity ≤ℤ x.ordered.quantity

abbrev pub Fits : List ReceiptLine → OrderLine → Type 0
Fits ls x = IsWithin x × All (HasRoom x) ls

-- No two lines of a receipt name one order line.
abbrev pub AreDistinct : List ReceiptLine → Type 0
AreDistinct [] = Unit
AreDistinct (l ∷ ls) = All (λ (r : ReceiptLine). r.order_line ≢ l.order_line) ls × AreDistinct ls

-- An order line with the id of a line of this order is that line.
abbrev pub IsKeyed : List OrderLine → OrderLine → Type 0
IsKeyed order x =
    (k : ℕ) (y : OrderLine) → find (has_line_id k) order ≡ some y → has_line_id k x ≡ true → x ≡ y

room_of_others :
    (l : ReceiptLine) (x : OrderLine) (ls : List ReceiptLine)
    → has_line_id l.order_line x ≡ true
    → All (λ (r : ReceiptLine). r.order_line ≢ l.order_line) ls
    → All (HasRoom (add_received l.quantity x)) ls
room_of_others l x [] e h = tt
room_of_others l x (r ∷ rs) e h =
    ((λ f. absurd (h.0 (ground (arith, e, f)))), room_of_others l x rs e h.1)

-- One line of the receipt takes its room.
Fits-rest :
    (l : ReceiptLine) (ls : List ReceiptLine)
    → AreDistinct (l ∷ ls)
    → (x : OrderLine) → Fits (l ∷ ls) x
    → Fits ls (if has_line_id l.order_line x then add_received l.quantity x else x)
Fits-rest l ls d x h = elim (Bool-cases (has_line_id l.order_line x)) [
  | inl named ↦ rw named (h.1.0 named, room_of_others l x ls named d.0)
  | inr other ↦ rw other (h.0, h.1.1)
]

stock_in-orders :
    (org ref : ℕ) (v : ℤ) (it : Option Item) (db : Db)
    → (stock_in org ref v it db).orders ≡ db.orders
unfolding stock_in move_stock
stock_in-orders org ref v none db = refl
stock_in-orders org ref v (some it) db = refl

pub receive_line-orders :
    (org id : ℕ) (l : ReceiptLine) (db : Db)
    → (receive_line org id l db).orders ≡ map (receive_into l.order_line l.quantity) db.orders
unfolding receive_line
receive_line-orders org id l db =
    ap (map (receive_into l.order_line l.quantity))
      (stock_in-orders org id l.quantity (item_received org l.item_id db) db)

receive_line-Fits :
    (org id : ℕ) (l : ReceiptLine) (ls : List ReceiptLine) (db : Db)
    → AreDistinct (l ∷ ls)
    → OnLines (Fits (l ∷ ls)) db.orders
    → OnLines (Fits ls) ((receive_line org id l db).orders)
receive_line-Fits org id l ls db d h = rw (receive_line-orders org id l db) (
    All-over_map (λ (o : PurchaseOrder). All (Fits (l ∷ ls)) o.lines)
      (λ (o : PurchaseOrder). All (Fits ls) o.lines) (receive_into l.order_line l.quantity)
      (λ o g.
        All-update_where (Fits (l ∷ ls)) (Fits ls) (has_line_id l.order_line)
          (add_received l.quantity) (Fits-rest l ls d) o.lines g)
      db.orders h)

pub receive_all-IsWithin :
    (org id : ℕ) (ls : List ReceiptLine) (db : Db)
    → AreDistinct ls
    → OnLines (Fits ls) db.orders
    → OnLines IsWithin ((receive_all org id ls db).orders)
unfolding receive_all
receive_all-IsWithin org id [] db d h =
    All-map (λ (o : PurchaseOrder). All (Fits []) o.lines)
      (λ (o : PurchaseOrder). All IsWithin o.lines)
      (λ o. All-map (Fits []) IsWithin (λ x f. f.0) o.lines) db.orders h
receive_all-IsWithin org id (l ∷ ls) db d h =
    receive_all-IsWithin org id ls (receive_line org id l db) d.1
      (receive_line-Fits org id l ls db d h)

not_ok : (x : Error) → ◌≡◌ {A = Result (Unit {0})} (err x) (ok tt) → ⊥
not_ok x h = cc

fits_of_test : (a b : ℤ) → ltb_ℤ b a ≡ false → a ≤ℤ b
fits_of_test a b h = ground arith

-- A quantity that passes is kept.
qty_kept : (q v : ℤ) → to_qty q ≡ ok v → v ≡ q
unfolding to_qty to_amount
qty_kept q v h = ground (arith, h)

-- What a check that was passed has found.
pub check_line_found :
    (order : List OrderLine) (l : ReceiptLine)
    → check_line order l ≡ ok tt
    → (y : OrderLine) × (find (has_line_id l.order_line) order ≡ some y)
      × (y.received +ℤ l.quantity ≤ℤ y.ordered.quantity)
unfolding check_line
check_line_found order l h = elim (Option-cases (find (has_line_id l.order_line) order)) [
  | inl e ↦ absurd (not_ok _ (rw (e, check_line) at h))
  | inr (y, e) ↦ elim (Result-cases (to_qty l.quantity)) [
    | inr (x, f) ↦ absurd (not_ok _ (rw (e, f, check_line) at h))
    | inl (v, f) ↦ elim (Bool-cases (ltb_ℤ y.ordered.quantity (y.received +ℤ v))) [
      | inl over ↦ absurd (not_ok _ (rw (e, f, over, check_line) at h))
      | inr fits ↦ (
        y,
        e,
        rw (← qty_kept l.quantity v f) (fits_of_test (y.received +ℤ v) y.ordered.quantity fits),
      )
    ]
  ]
]

room_of_check :
    (order : List OrderLine) (l : ReceiptLine) (x : OrderLine)
    → IsKeyed order x
    → check_line order l ≡ ok tt
    → HasRoom x l
room_of_check order l x keyed h named =
    let (y, e, fits) = check_line_found order l h in rw (keyed l.order_line y e named) fits

pub rooms_of_checks :
    (order : List OrderLine) (ls : List ReceiptLine) (x : OrderLine)
    → IsKeyed order x
    → check_lines order ls ≡ ok tt
    → All (HasRoom x) ls
unfolding check_lines
rooms_of_checks order [] x keyed h = tt
rooms_of_checks order (l ∷ ls) x keyed h = elim (Result-cases (check_line order l)) [
  | inr (e, f) ↦ absurd (not_ok e (rw (f, check_lines) at h))
  | inl (u, f) ↦
      (room_of_check order l x keyed f, rooms_of_checks order ls x keyed (rw (f, check_lines) at h))
]
