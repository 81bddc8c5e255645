-- ===== src/Sales/Draft.antt =====
-- `createDraft` and `updateDraft` of modules/sales/sales.service.ts.
use biz360_sme_erp_e_tims.Base.{
  ℕ, suc, Bool, true, false, not, ◌&&◌, Option, none, some, List, [], ◌∷◌, ◌==◌, find, update_where,
  or_default, map,
}
use biz360_sme_erp_e_tims.Base.Int.{pos, ◌*ℤ◌}
use biz360_sme_erp_e_tims.Result.{
  Result, ok, err, conflict, not_found, bad_request, party_missing, wrong_party_type, item_missing,
  invoice_missing, wrong_status,
}
use biz360_sme_erp_e_tims.Money.{JsNumber, finite}
use biz360_sme_erp_e_tims.Document.{LineDto, Priced, ComputedLine, compute_line, Totals, totals}
use biz360_sme_erp_e_tims.Store.{
  PartyType, InvoiceStatus, Item, Party, Setting, InvoiceLine, Invoice, Db, Tx, ◌>>=◌, ◌>>◌, gets,
  modify, throw_if, or_throw, lift, bump,
}
use biz360_sme_erp_e_tims.Stock.{is_item}

abbrev pub is_party : ℕ → ℕ → Party → Bool
is_party org id p = p.id == id && p.org == org && not p.deleted

abbrev pub is_supplier : PartyType → Bool
is_supplier PartyType.supplier = true
is_supplier _ = false

-- `Number(orgSetting?.taxRate ?? 16)`
abbrev pub tax_rate_of : Option Setting → JsNumber
tax_rate_of none = finite (pos 16) 0
tax_rate_of (some s) = finite s.tax_rate 2

abbrev pub is_setting : ℕ → Setting → Bool
is_setting org s = s.org == org

-- Every item that a line names is there.
unfoldable pub check_items : List Item → ℕ → List LineDto → Result (Unit {0})
check_items items org [] = ok tt
check_items items org (l ∷ ls) = elim l.item_id [
  | none ↦ check_items items org ls
  | some k ↦ elim (find (is_item org k) items) [
    | none ↦ err (not_found item_missing)
    | some _ ↦ check_items items org ls
  ]
]

abbrev pub priced : Option Item → Priced
priced none = record { sell_price = none; taxed = false }
priced (some it) = record { sell_price = it.sell_price; taxed = it.taxed }

abbrev pub named_item : List Item → ℕ → Option ℕ → Option Item
named_item items org none = none
named_item items org (some k) = find (is_item org k) items

unfoldable pub compute_lines : List Item → ℕ → JsNumber → List LineDto → Result (List ComputedLine)
compute_lines items org rate [] = ok []
compute_lines items org rate (l ∷ ls) =
    elim (compute_line l (priced (named_item items org l.item_id)) rate) [
      | err e ↦ err e
      | ok c ↦ elim (compute_lines items org rate ls) [ err e ↦ err e | ok cs ↦ ok (c ∷ cs) ]
    ]

-- The lines of a new document, checked and computed.
unfoldable pub new_lines : ℕ → List LineDto → Tx (List ComputedLine)
new_lines org dtos = do
  setting ← gets (λ db. find (is_setting org) db.settings)
  items ← gets (λ db. db.items)
  lift (check_items items org dtos)
  lift (compute_lines items org (tax_rate_of setting) dtos)

-- The stored line: a quantity of hundredths in a column of thousandths.
abbrev pub stored_line : ComputedLine → InvoiceLine
stored_line c = record { item_id = c.item_id; quantity = c.quantity *ℤ pos 10; computed = c }

-- The row of a new invoice.
abbrev pub draft_row : ℕ → ℕ → ℕ → ℕ → ℕ → List ComputedLine → Invoice
draft_row id org number party date lines =
    let t : Totals = totals lines in
    record {
      id = id;
      org = org;
      number = number;
      party_id = party;
      invoice_date = date;
      due_date = none;
      status = InvoiceStatus.draft;
      subtotal = t.subtotal;
      discount_total = t.discount_total;
      tax_total = t.tax_total;
      total = t.total;
      amount_paid = pos 0;
      lines = map stored_line lines;
    }

unfoldable pub insert_draft : ℕ → ℕ → Option ℕ → List ComputedLine → Db → Invoice × Db
insert_draft org party date lines db =
    let inv : Invoice =
      draft_row db.next_id org (suc (db.sale_seq org)) party (or_default date db.today) lines in
    (
      inv,
      record db {
        next_id = suc db.next_id;
        sale_seq = bump db.sale_seq org;
        sales = inv ∷ db.sales;
      },
    )

unfoldable pub create_draft : ℕ → ℕ → Option ℕ → List LineDto → Tx Invoice
create_draft org party date dtos = do
  found ← gets (λ db. find (is_party org party) db.parties)
  p ← or_throw found (not_found party_missing)
  throw_if (is_supplier p.type) (bad_request wrong_party_type)
  lines ← new_lines org dtos
  λ db. ok (insert_draft org party date lines db)

abbrev pub is_invoice : ℕ → ℕ → Invoice → Bool
is_invoice org id i = i.id == id && i.org == org

abbrev pub is_draft : InvoiceStatus → Bool
is_draft InvoiceStatus.draft = true
is_draft _ = false

abbrev pub redate : Option ℕ → Invoice → Invoice
redate date i = record i { invoice_date = or_default date i.invoice_date }

-- `updateDraft`: of the fields that it may change, the date is modelled.
unfoldable pub update_draft : ℕ → ℕ → Option ℕ → Tx (Unit {0})
update_draft org id date = do
  found ← gets (λ db. find (is_invoice org id) db.sales)
  i ← or_throw found (not_found invoice_missing)
  throw_if (not (is_draft i.status)) (conflict wrong_status)
  modify (λ db. record db { sales = update_where (is_invoice org id) (redate date) db.sales })
