-- ===== src/Quotations.antt =====
-- modules/quotations/quotations.service.ts: a quotation is drafted, sent, accepted and converted to
-- a draft invoice. `send`, `accept` and `convertToInvoice` first expire an overdue quotation, in a
-- write that stays though the method throws.
pub mod Requests
pub mod Expiry
pub mod Safety
pub mod Life
pub mod Moves
pub mod Refines
pub mod Contract
pub mod Once
use biz360_sme_erp_e_tims.Base.{
  ℕ, suc, Bool, true, false, not, ◌&&◌, ◌||◌, Option, none, some, List, ◌∷◌, ◌==◌, if◌then◌else◌,
  leb, find, update_where, count_where, or_default, map,
}
use biz360_sme_erp_e_tims.Base.Int.{pos}
use biz360_sme_erp_e_tims.Result.{
  ok, err, conflict, not_found, bad_request, party_missing, wrong_party_type, wrong_status,
  concurrent_change, quotation_missing, expired,
}
use biz360_sme_erp_e_tims.Document.{LineDto, ComputedLine, Totals, totals}
use biz360_sme_erp_e_tims.Store.{
  InvoiceStatus, Invoice, QuotationStatus, Quotation, Db, Tx, ◌>>=◌, ◌>>◌, pure, gets, modify,
  throw_if, or_throw, bump, Handler, transact,
}
use biz360_sme_erp_e_tims.Sales.Draft.{is_party, is_supplier, new_lines, stored_line}

abbrev pub quote_row : ℕ → ℕ → ℕ → ℕ → ℕ → Option ℕ → List ComputedLine → Quotation
quote_row id org number party date until lines =
    let t : Totals = totals lines in
    record {
      id = id;
      org = org;
      number = number;
      party_id = party;
      quote_date = date;
      valid_until = until;
      status = QuotationStatus.draft;
      subtotal = t.subtotal;
      discount_total = t.discount_total;
      tax_total = t.tax_total;
      total = t.total;
      lines = map stored_line lines;
      converted_to = none;
    }

unfoldable pub insert_quote : ℕ → ℕ → Option ℕ → Option ℕ → List ComputedLine → Db → Quotation × Db
insert_quote org party date until lines db =
    let q : Quotation =
      quote_row db.next_id org (suc (db.quote_seq org)) party (or_default date db.today) until
        lines in
    (
      q,
      record db {
        next_id = suc db.next_id;
        quote_seq = bump db.quote_seq org;
        quotations = q ∷ db.quotations;
      },
    )

-- `createDraft`, which makes no check of the dates.
unfoldable pub create_quote : ℕ → ℕ → Option ℕ → Option ℕ → List LineDto → Tx Quotation
create_quote org party date until dtos = do
  found ← gets (λ db. find (is_party org party) db.parties)
  p ← or_throw found (not_found party_missing)
  throw_if (is_supplier p.type) (bad_request wrong_party_type)
  lines ← new_lines org dtos
  λ db. ok (insert_quote org party date until lines db)

abbrev pub is_quotation : ℕ → ℕ → Quotation → Bool
is_quotation org id q = q.id == id && q.org == org

-- The numbers of the statuses, to test them for equality.
abbrev pub quote_code : QuotationStatus → ℕ
quote_code QuotationStatus.draft = 0
quote_code QuotationStatus.sent = 1
quote_code QuotationStatus.accepted = 2
quote_code QuotationStatus.converted = 3
quote_code QuotationStatus.expired = 4
quote_code QuotationStatus.cancelled = 5

-- `where: { id, organizationId, status }`
abbrev pub is_quote_in : ℕ → ℕ → QuotationStatus → Quotation → Bool
is_quote_in org id s q = is_quotation org id q && quote_code q.status == quote_code s

abbrev pub with_quote_status : QuotationStatus → Quotation → Quotation
with_quote_status s q = record q { status = s }

abbrev pub is_expirable : QuotationStatus → Bool
is_expirable QuotationStatus.expired = false
is_expirable QuotationStatus.converted = false
is_expirable QuotationStatus.cancelled = false
is_expirable _ = true

-- Its last moment is not after the clock, and it is not done with.
abbrev pub is_past : ℕ → Quotation → Bool
is_past now q = (elim q.valid_until [ none ↦ false | some t ↦ leb t now ]) && is_expirable q.status

unfoldable pub expire_rows : ℕ → ℕ → QuotationStatus → Db → Db
expire_rows org id s db = record db {
  quotations =
      update_where (is_quote_in org id s) (with_quote_status QuotationStatus.expired) db.quotations;
}

-- The quotation is read, and `expireIfPast` runs on it before the transaction.
unfoldable pub unless_past : {A : Type 0} → ℕ → ℕ → Tx A → Handler A
unless_past org id next db = elim (find (is_quotation org id) db.quotations) [
  | none ↦ (err (not_found quotation_missing), db)
  | some q ↦
      if is_past db.now q
      then (err (conflict expired), expire_rows org id q.status db)
      else transact next db
]

-- The compare-and-set of the status, which must change one row.
unfoldable pub flip_quote : (Quotation → Bool) → QuotationStatus → Tx (Unit {0})
flip_quote p s = do
  n ← gets (λ db. count_where p db.quotations)
  throw_if (not (n == 1)) (conflict wrong_status)
  modify (λ db. record db { quotations = update_where p (with_quote_status s) db.quotations })

unfoldable pub send_quote : ℕ → ℕ → Handler (Unit {0})
send_quote org id =
    unless_past org id (flip_quote (is_quote_in org id QuotationStatus.draft) QuotationStatus.sent)

unfoldable pub accept_quote : ℕ → ℕ → Handler (Unit {0})
accept_quote org id =
    unless_past org id
      (flip_quote (is_quote_in org id QuotationStatus.sent) QuotationStatus.accepted)

-- `status: { in: ['DRAFT', 'SENT'] }`
abbrev pub is_cancellable : ℕ → ℕ → Quotation → Bool
is_cancellable org id q =
    is_quote_in org id QuotationStatus.draft q || is_quote_in org id QuotationStatus.sent q

unfoldable pub cancel_quote : ℕ → ℕ → Tx (Unit {0})
cancel_quote org id = do
  found ← gets (λ db. find (is_quotation org id) db.quotations)
  or_throw found (not_found quotation_missing)
  flip_quote (is_cancellable org id) QuotationStatus.cancelled

-- The draft invoice that a quotation becomes; it takes its number from the sequence of the sales.
abbrev pub invoice_of : ℕ → ℕ → ℕ → Quotation → Invoice
invoice_of id org number q = record {
  id = id;
  org = org;
  number = number;
  party_id = q.party_id;
  invoice_date = q.quote_date;
  due_date = none;
  status = InvoiceStatus.draft;
  subtotal = q.subtotal;
  discount_total = q.discount_total;
  tax_total = q.tax_total;
  total = q.total;
  amount_paid = pos 0;
  lines = q.lines;
}

unfoldable pub insert_invoice_of : ℕ → Quotation → Db → Invoice × Db
insert_invoice_of org q db =
    let i : Invoice = invoice_of db.next_id org (suc (db.sale_seq org)) q in
    (
      i,
      record db { next_id = suc db.next_id; sale_seq = bump db.sale_seq org; sales = i ∷ db.sales },
    )

abbrev pub is_accepted : QuotationStatus → Bool
is_accepted QuotationStatus.accepted = true
is_accepted _ = false

abbrev pub has_quote_id : ℕ → Quotation → Bool
has_quote_id id q = q.id == id

abbrev pub link_invoice : ℕ → Quotation → Quotation
link_invoice k q = record q { converted_to = some k }

-- The rest of the transaction of `convertToInvoice`, from the row that was read.
unfoldable pub convert_read : ℕ → ℕ → Quotation → Tx Invoice
convert_read org id q = do
  throw_if (not (is_accepted q.status)) (conflict wrong_status)
  flip_quote (is_quote_in org id QuotationStatus.accepted) QuotationStatus.converted
  i ← (λ db. ok (insert_invoice_of org q db))
  modify (λ db. record db {
    quotations = update_where (has_quote_id id) (link_invoice i.id) db.quotations;
  })
  pure i

unfoldable pub convert_accepted : ℕ → ℕ → Tx Invoice
convert_accepted org id = do
  found ← gets (λ db. find (is_quotation org id) db.quotations)
  q ← or_throw found (not_found quotation_missing)
  convert_read org id q

unfoldable pub convert_quote : ℕ → ℕ → Handler Invoice
convert_quote org id = unless_past org id (convert_accepted org id)

abbrev pub is_quote_draft : QuotationStatus → Bool
is_quote_draft QuotationStatus.draft = true
is_quote_draft _ = false

-- The changes of `updateDraft`: a date, and a last moment that may be taken away.
abbrev pub redate_quote : Option ℕ → Option (Option ℕ) → Quotation → Quotation
redate_quote date until q = record q {
  quote_date = or_default date q.quote_date;
  valid_until = or_default until q.valid_until;
}

unfoldable pub update_quote : ℕ → ℕ → Option ℕ → Option (Option ℕ) → Tx (Unit {0})
update_quote org id date until = do
  found ← gets (λ db. find (is_quotation org id) db.quotations)
  q ← or_throw found (not_found quotation_missing)
  throw_if (not (is_quote_draft q.status)) (conflict wrong_status)
  modify (λ db. record db {
    quotations = update_where (has_quote_id id) (redate_quote date until) db.quotations;
  })
