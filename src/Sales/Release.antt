-- ===== src/Sales/Release.antt =====
-- When `confirmInvoice` of modules/sales/sales.service.ts does not throw.
use biz360_sme_erp_e_tims.Base.{
  ℕ, Option, none, true, false, ◌≡◌, refl, some, find, count_where, arith, Bool-cases, inl, inr,
  List,
}
use biz360_sme_erp_e_tims.Base.Int.{ℤ, pos, ◌+ℤ◌, ◌≤ℤ◌, ltb_ℤ}
use biz360_sme_erp_e_tims.Result.{ok}
use biz360_sme_erp_e_tims.Store.{
  Account, EntryLine, Invoice, JournalEntry, SourceType, MovementType, OutboxType, AggregateType,
  OutboxEvent, Db, pure, modify, gets, throw_if, ◌>>=◌, or_throw, ◌>>◌,
}
use biz360_sme_erp_e_tims.Store.Succeeds.{is_ok, is_ok-bind, is_ok-then, throw_if-ok}
use biz360_sme_erp_e_tims.Ledger.{is_account, already_posted, document, add_entry}
use biz360_sme_erp_e_tims.Ledger.Documents.{
  receivable, revenue, vat_output, inventory, cost_of_goods, sale_invoice_lines, sale_cogs_lines,
  post_sale_cogs, post_sale_invoice,
}
use biz360_sme_erp_e_tims.Ledger.Documents.Outcome.{sale_invoice_booked, sale_cogs_booked}
use biz360_sme_erp_e_tims.Outbox.{is_in_flight, insert_event, enqueue}
use biz360_sme_erp_e_tims.Stock.{sell_lines, move_stock}
use biz360_sme_erp_e_tims.Stock.Loops.{sell_lines-Keeps}
use biz360_sme_erp_e_tims.Sales.Draft.{is_party, is_draft}
use biz360_sme_erp_e_tims.Sales.Lifecycle.{
  is_still_draft, over_limit, limit_of, outstanding, post_cost, confirm_read, confirm_invoice,
}
use biz360_sme_erp_e_tims.Sales.Outcome.{HasRow}
use biz360_sme_erp_e_tims.Sales.Progress.{update_one_sale-ok}

-- What selling the lines leaves alone.
abbrev SameBooks : Db → Db → Type 0
SameBooks db d =
    (d.sales ≡ db.sales)
    × (d.accounts ≡ db.accounts)
    × (d.entries ≡ db.entries)
    × (d.outbox ≡ db.outbox)

move_stock-SameBooks :
    (db : Db) (org id : ℕ) (delta : ℤ) (t : MovementType) (ref : Option ℕ) (d : Db)
    → SameBooks db d
    → SameBooks db (move_stock org id delta t ref d)
unfolding move_stock
move_stock-SameBooks db org id delta t ref d h = h

sell_lines-SameBooks :
    (org id : ℕ) (inv : Invoice) (db d : Db) (cost : ℤ)
    → sell_lines org id inv.lines (pos 0) db ≡ ok (cost, d)
    → SameBooks db d
sell_lines-SameBooks org id inv db d cost sold = rw sold at (
    (sell_lines-Keeps (SameBooks db) (move_stock-SameBooks db) org id inv.lines (pos 0)).run db
      (refl, refl, refl, refl))

post_cost-ok :
    (org id : ℕ) (cost : ℤ) (db : Db) {g i : Account}
    → find (is_account org cost_of_goods) db.accounts ≡ some g
    → find (is_account org inventory) db.accounts ≡ some i
    → already_posted org (document SourceType.sale_cogs id (sale_cogs_lines cost)) db.entries
      ≡ false
    → is_ok (post_cost (post_sale_cogs org id) cost db) ≡ true
unfolding pure
post_cost-ok org id cost db has_cost has_stock new = elim (Bool-cases (ltb_ℤ (pos 0) cost)) [
  | inl t ↦
      rw t (
        is_ok-then _ (sale_cogs_booked org id db has_cost has_stock cost new (ground arith)) _ refl)
  | inr f ↦ rw f refl
]

abbrev pub HasAccount : ℕ → ℕ → List Account → Type 0
HasAccount org code accounts = (a : Account) × (find (is_account org code) accounts ≡ some a)

-- The accounts that a confirmation posts to.
pub record HasChart (org : ℕ) (accounts : List Account) : Type 0 where
  pub receivables : HasAccount org receivable accounts
  pub revenues : HasAccount org revenue accounts
  pub taxes : HasAccount org vat_output accounts
  pub costs : HasAccount org cost_of_goods accounts
  pub goods : HasAccount org inventory accounts

-- No entry is there for the sale, nor for its cost of goods.
pub record IsUnposted (org id : ℕ) (inv : Invoice) (cost : ℤ) (entries : List JournalEntry)
    : Type 0 where
  pub sale :
      already_posted org
        (document SourceType.sale_invoice id (sale_invoice_lines inv.total inv.tax_total))
        entries
      ≡ false
  pub cogs :
      already_posted org (document SourceType.sale_cogs id (sale_cogs_lines cost)) entries ≡ false

-- A new entry of a sale is none of its cost of goods.
cogs_after_sale :
    (org id : ℕ) (total tax cost : ℤ) (rows : List EntryLine) (db : Db)
    → already_posted org (document SourceType.sale_cogs id (sale_cogs_lines cost)) db.entries
      ≡ false
    → already_posted org
        (document SourceType.sale_cogs id (sale_cogs_lines cost))
        (add_entry org
          (document SourceType.sale_invoice id (sale_invoice_lines total tax))
          rows
          db).1.entries
      ≡ false
unfolding add_entry already_posted
cogs_after_sale org id total tax cost rows db h = ground (arith, h)

-- No submission of the sale is in flight.
abbrev pub IsUnsubmitted : ℕ → ℕ → List OutboxEvent → Type 0
IsUnsubmitted org id events =
    count_where (is_in_flight OutboxType.etims_invoice_submit AggregateType.sale_invoice id org)
      events
    ≡ 0

enqueue-ok :
    (org id : ℕ) (limit : Option ℕ) (db : Db)
    → IsUnsubmitted org id db.outbox
    → enqueue OutboxType.etims_invoice_submit AggregateType.sale_invoice id org limit db
      ≡ ok (
        tt,
        insert_event OutboxType.etims_invoice_submit AggregateType.sale_invoice id org limit db,
      )
unfolding enqueue ◌>>=◌ ◌>>◌ gets throw_if pure modify
enqueue-ok org id limit db h = rw (h, enqueue) refl

module _ (org id : ℕ) (inv : Invoice) (taxed : pos 1 ≤ℤ inv.tax_total)
    (netted : inv.tax_total +ℤ pos 1 ≤ℤ inv.total) where
  -- The postings, on the database whose stock has left.
  postings-ok :
      (cost : ℤ) (d : Db)
      → HasChart org d.accounts
      → IsUnposted org id inv cost d.entries
      → is_ok (
          (post_sale_invoice org id inv.total inv.tax_total
              >> post_cost (post_sale_cogs org id) cost)
            d)
        ≡ true
  unfolding add_entry
  postings-ok cost d chart new =
      is_ok-then _
        (sale_invoice_booked org id d chart.receivables.1 chart.revenues.1 chart.taxes.1 inv.total
          inv.tax_total new.sale taxed netted)
        _
        (post_cost-ok org id cost _ chart.costs.1 chart.goods.1
          (cogs_after_sale org id inv.total inv.tax_total cost _ d new.cogs))

  -- The confirmation of the row that was read.
  confirm_read-ok :
      (db d : Db) (cost : ℤ)
      → is_draft inv.status ≡ true
      → count_where (is_still_draft org id) db.sales ≡ 1
      → over_limit
          (limit_of (find (is_party org inv.party_id) db.parties))
          (outstanding org inv.party_id db.sales +ℤ inv.total)
        ≡ false
      → sell_lines org id inv.lines (pos 0) db ≡ ok (cost, d)
      → HasChart org db.accounts
      → IsUnposted org id inv cost db.entries
      → IsUnsubmitted org id db.outbox
      → is_ok (confirm_read org id inv db) ≡ true
  unfolding confirm_read gets modify
  confirm_read-ok db d cost draft one within sold chart new unsent =
      let (sales, accounts, entries, outbox) = sell_lines-SameBooks org id inv db d cost sold in
      is_ok-then _ (throw_if-ok _ _ db (rw draft refl)) _ (
        is_ok-bind (gets _) refl _ (
          is_ok-bind (gets _) refl _ (
            is_ok-bind (gets _) refl _ (
              is_ok-then _ (throw_if-ok _ _ db within) _ (
                is_ok-bind _ sold _ (
                  is_ok-then _ (update_one_sale-ok _ _ d (rw sales one)) _ (
                    is_ok-then _ (enqueue-ok org id none _ (rw outbox unsent)) _
                      (postings-ok cost _ (rw accounts chart) (rw entries new)))))))))

  -- Where the row of the invoice is a draft and the only one that the compare-and-set meets, the
  -- customer stays within the limit, the stock covers the lines, the organization has the accounts
  -- of a sale and no entry of this one, no submission of this sale is pending or processed, and the
  -- invoice has a tax and a net amount of at least a cent, the confirmation does not throw.
  pub confirm_invoice_succeeds :
      (db d : Db) (cost : ℤ)
      → HasRow org id inv db.sales
      → is_draft inv.status ≡ true
      → count_where (is_still_draft org id) db.sales ≡ 1
      → over_limit
          (limit_of (find (is_party org inv.party_id) db.parties))
          (outstanding org inv.party_id db.sales +ℤ inv.total)
        ≡ false
      → sell_lines org id inv.lines (pos 0) db ≡ ok (cost, d)
      → HasChart org db.accounts
      → IsUnposted org id inv cost db.entries
      → IsUnsubmitted org id db.outbox
      → is_ok (confirm_invoice org id db) ≡ true
  unfolding confirm_invoice gets or_throw pure
  confirm_invoice_succeeds db d cost row draft one within sold chart new unsent =
      is_ok-bind (gets _) refl _ (
        is_ok-bind (or_throw _ _) (rw row refl) _
          (confirm_read-ok db d cost draft one within sold chart new unsent))
