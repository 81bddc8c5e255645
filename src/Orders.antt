-- ===== src/Orders.antt =====
-- modules/purchase-orders/purchase-orders.service.ts: a purchase order is drafted, edited, and moved
-- from status to status. The lines of a row get the ids after its own.
pub mod Lines
use biz360_sme_erp_e_tims.Base.{
  ℕ, suc, ◌+◌, Bool, true, false, not, ◌&&◌, ◌||◌, Option, none, some, List, ◌∷◌, ◌==◌,
  if◌then◌else◌, find, update_where, count_where, length, or_default,
}
use biz360_sme_erp_e_tims.Result.{
  ok, err, conflict, not_found, bad_request, party_missing, wrong_party_type, wrong_status,
  order_missing,
}
use biz360_sme_erp_e_tims.Document.{Totals}
use biz360_sme_erp_e_tims.Store.{
  OrderStatus, OrderedLine, PurchaseOrder, Db, Tx, ◌>>=◌, ◌>>◌, pure, gets, modify, throw_if,
  or_throw, lift, bump, Handler,
}
use biz360_sme_erp_e_tims.Sales.Draft.{is_party, is_setting, tax_rate_of}
use biz360_sme_erp_e_tims.Purchasing.{is_customer}
use biz360_sme_erp_e_tims.Orders.Lines.{
  OrderLineDto, check_order_items, compute_order_lines, order_totals, line_rows,
}

unfoldable pub assert_supplier : ℕ → ℕ → Tx (Unit {0})
assert_supplier org party = do
  found ← gets (λ db. find (is_party org party) db.parties)
  p ← or_throw found (not_found party_missing)
  throw_if (is_customer p.type) (bad_request wrong_party_type)

-- `loadLinesAndItems`, with the tax rate of the organization.
unfoldable pub load_lines : ℕ → List OrderLineDto → Tx (List OrderedLine)
load_lines org dtos = do
  setting ← gets (λ db. find (is_setting org) db.settings)
  items ← gets (λ db. db.items)
  lift (check_order_items items org dtos)
  lift (compute_order_lines items org (tax_rate_of setting) dtos)

abbrev pub order_row : ℕ → ℕ → ℕ → ℕ → ℕ → List OrderedLine → PurchaseOrder
order_row id org number party date lines =
    let t : Totals = order_totals lines in
    record {
      id = id;
      org = org;
      number = number;
      party_id = party;
      order_date = date;
      status = OrderStatus.draft;
      subtotal = t.subtotal;
      discount_total = t.discount_total;
      tax_total = t.tax_total;
      total = t.total;
      lines = line_rows (suc id) lines;
    }

unfoldable pub insert_order : ℕ → ℕ → Option ℕ → List OrderedLine → Db → PurchaseOrder × Db
insert_order org party date lines db =
    let o : PurchaseOrder =
      order_row db.next_id org (suc (db.order_seq org)) party (or_default date db.today) lines in
    (
      o,
      record db {
        next_id = suc (db.next_id + length lines);
        order_seq = bump db.order_seq org;
        orders = o ∷ db.orders;
      },
    )

unfoldable pub create_order : ℕ → ℕ → Option ℕ → List OrderLineDto → Tx PurchaseOrder
create_order org party date dtos = do
  assert_supplier org party
  lines ← load_lines org dtos
  λ db. ok (insert_order org party date lines db)

abbrev pub is_order : ℕ → ℕ → PurchaseOrder → Bool
is_order org id o = o.id == id && o.org == org

abbrev pub has_order_id : ℕ → PurchaseOrder → Bool
has_order_id id o = o.id == id

-- The numbers of the statuses, to test them for equality.
abbrev pub order_code : OrderStatus → ℕ
order_code OrderStatus.draft = 0
order_code OrderStatus.submitted = 1
order_code OrderStatus.approved = 2
order_code OrderStatus.received = 3
order_code OrderStatus.closed = 4
order_code OrderStatus.rejected = 5
order_code OrderStatus.cancelled = 6

abbrev pub is_order_in : ℕ → ℕ → OrderStatus → PurchaseOrder → Bool
is_order_in org id s o = is_order org id o && order_code o.status == order_code s

-- The lines of an order are deleted and made anew, with the totals.
abbrev pub with_lines : ℕ → List OrderedLine → PurchaseOrder → PurchaseOrder
with_lines k lines o =
    let t : Totals = order_totals lines in
    record o {
      subtotal = t.subtotal;
      discount_total = t.discount_total;
      tax_total = t.tax_total;
      total = t.total;
      lines = line_rows k lines;
    }

-- The changes of `update`: a field that is left out stays.
abbrev pub patch_order :
    Option ℕ → Option ℕ → Option (List OrderedLine) → ℕ → PurchaseOrder → PurchaseOrder
patch_order party date lines k o =
    let p : PurchaseOrder = record o {
      party_id = or_default party o.party_id;
      order_date = or_default date o.order_date;
    } in
    elim lines [ none ↦ p | some ls ↦ with_lines k ls p ]

unfoldable pub load_optional : ℕ → Option (List OrderLineDto) → Tx (Option (List OrderedLine))
load_optional org none = pure none
load_optional org (some dtos) = do lines ← load_lines org dtos; pure (some lines)

unfoldable pub assert_optional : ℕ → Option ℕ → Tx (Unit {0})
assert_optional org none = pure tt
assert_optional org (some party) = assert_supplier org party

-- The ids that the new lines take.
abbrev pub id_count : Option (List OrderedLine) → ℕ
id_count none = 0
id_count (some ls) = length ls

unfoldable pub update_order :
    ℕ → ℕ → Option ℕ → Option ℕ → Option (List OrderLineDto) → Tx (Unit {0})
update_order org id party date dtos = do
  assert_optional org party
  lines ← load_optional org dtos
  found ← gets (λ db. find (is_order org id) db.orders)
  o ← or_throw found (not_found order_missing)
  throw_if (not (order_code o.status == order_code OrderStatus.draft)) (conflict wrong_status)
  modify (λ db. record db {
    next_id = db.next_id + id_count lines;
    orders = update_where (has_order_id id) (patch_order party date lines db.next_id) db.orders;
  })

abbrev pub with_order_status : OrderStatus → PurchaseOrder → PurchaseOrder
with_order_status s o = record o { status = s }

-- `updateMany` outside a transaction: what it wrote stays, and the method throws unless it was one
-- row.
unfoldable pub move_order : ℕ → ℕ → (PurchaseOrder → Bool) → OrderStatus → Handler (Unit {0})
move_order org id p next db =
    let written : Db = record db { orders = update_where p (with_order_status next) db.orders } in
    if count_where p db.orders == 1
    then (ok tt, written)
    else elim (find (is_order org id) db.orders) [
      | none ↦ (err (not_found order_missing), written)
      | some _ ↦ (err (conflict wrong_status), written)
    ]

unfoldable pub transition : ℕ → ℕ → OrderStatus → OrderStatus → Handler (Unit {0})
transition org id expected next = move_order org id (is_order_in org id expected) next

abbrev pub submit_order : ℕ → ℕ → Handler (Unit {0})
submit_order org id = transition org id OrderStatus.draft OrderStatus.submitted

abbrev pub approve_order : ℕ → ℕ → Handler (Unit {0})
approve_order org id = transition org id OrderStatus.submitted OrderStatus.approved

abbrev pub reject_order : ℕ → ℕ → Handler (Unit {0})
reject_order org id = transition org id OrderStatus.submitted OrderStatus.rejected

-- `status: { in: [DRAFT, SUBMITTED] }`
abbrev pub is_open_order : ℕ → ℕ → PurchaseOrder → Bool
is_open_order org id o =
    is_order_in org id OrderStatus.draft o || is_order_in org id OrderStatus.submitted o

unfoldable pub cancel_order : ℕ → ℕ → Handler (Unit {0})
cancel_order org id = move_order org id (is_open_order org id) OrderStatus.cancelled
