-- ===== src/CreditNotes.antt =====
-- modules/credit-notes/credit-notes.service.ts: a credit note is drafted, and issued or cancelled.
-- What `issue` does after it has read the note is a function of the row that was read.
pub mod Safety
pub mod Unwind
use biz360_sme_erp_e_tims.Base.{
  ℕ, suc, Bool, true, false, not, ◌&&◌, Option, none, some, List, [], ◌∷◌, ◌==◌, if◌then◌else◌,
  find, update_where, count_where, or_default, map,
}
use biz360_sme_erp_e_tims.Base.Int.{ℤ, pos, ◌-ℤ◌, ltb_ℤ, leb_ℤ}
use biz360_sme_erp_e_tims.Result.{
  ok, conflict, not_found, bad_request, party_missing, wrong_party_type, invoice_missing,
  wrong_status, concurrent_change, note_missing, wrong_party,
}
use biz360_sme_erp_e_tims.Document.{LineDto, ComputedLine, Totals, totals}
use biz360_sme_erp_e_tims.Store.{
  InvoiceStatus, MovementType, SourceType, OutboxType, AggregateType, Item, InvoiceLine, Invoice,
  CreditNoteStatus, CreditNote, Db, Tx, pure, ◌>>=◌, ◌>>◌, gets, modify, throw_if, or_throw, bump,
}
use biz360_sme_erp_e_tims.Ledger.{PostLine, Posting, post, document, debit_line, credit_line}
use biz360_sme_erp_e_tims.Ledger.Documents.{receivable, revenue, vat_output}
use biz360_sme_erp_e_tims.Stock.{move_stock, item_of_line}
use biz360_sme_erp_e_tims.Outbox.{enqueue}
use biz360_sme_erp_e_tims.Sales.Draft.{is_party, is_supplier, is_invoice, new_lines, stored_line}
use biz360_sme_erp_e_tims.Sales.Lifecycle.{is_void, update_one_sale, has_paid, pay_row}

-- The invoice that a note refers to: there, of the same party, and not void.
unfoldable pub check_reference : ℕ → ℕ → Option ℕ → Tx (Unit {0})
check_reference org party none = pure tt
check_reference org party (some k) = do
  found ← gets (λ db. find (is_invoice org k) db.sales)
  i ← or_throw found (not_found invoice_missing)
  throw_if (not (i.party_id == party)) (bad_request wrong_party)
  throw_if (is_void i.status) (conflict wrong_status)

abbrev pub note_row : ℕ → ℕ → ℕ → ℕ → Option ℕ → ℕ → List ComputedLine → CreditNote
note_row id org number party reference date lines =
    let t : Totals = totals lines in
    record {
      id = id;
      org = org;
      number = number;
      party_id = party;
      reference = reference;
      note_date = date;
      status = CreditNoteStatus.draft;
      subtotal = t.subtotal;
      discount_total = t.discount_total;
      tax_total = t.tax_total;
      total = t.total;
      lines = map stored_line lines;
    }

unfoldable pub insert_note : ℕ → ℕ → Option ℕ → Option ℕ → List ComputedLine → Db → CreditNote × Db
insert_note org party reference date lines db =
    let note : CreditNote =
      note_row db.next_id org (suc (db.note_seq org)) party reference (or_default date db.today)
        lines in
    (
      note,
      record db {
        next_id = suc db.next_id;
        note_seq = bump db.note_seq org;
        credit_notes = note ∷ db.credit_notes;
      },
    )

unfoldable pub create_note : ℕ → ℕ → Option ℕ → Option ℕ → List LineDto → Tx CreditNote
create_note org party reference date dtos = do
  found ← gets (λ db. find (is_party org party) db.parties)
  p ← or_throw found (not_found party_missing)
  throw_if (is_supplier p.type) (bad_request wrong_party_type)
  check_reference org party reference
  lines ← new_lines org dtos
  λ db. ok (insert_note org party reference date lines db)

abbrev pub is_note : ℕ → ℕ → CreditNote → Bool
is_note org id n = n.id == id && n.org == org

abbrev pub is_draft_note : CreditNoteStatus → Bool
is_draft_note CreditNoteStatus.draft = true
is_draft_note _ = false

-- A line of the note puts its goods back.
unfoldable pub restore_item : ℕ → ℕ → ℤ → Option Item → Db → Db
restore_item org ref qty none db = db
restore_item org ref qty (some it) db = move_stock org it.id qty MovementType.void (some ref) db

unfoldable pub restore_lines : ℕ → ℕ → List InvoiceLine → Db → Db
restore_lines org ref [] db = db
restore_lines org ref (l ∷ ls) db =
    restore_lines org ref ls (restore_item org ref l.quantity (item_of_line org l db) db)

-- `Math.max(0, currentPaid - Number(note.total))`
abbrev pub unwound : ℤ → ℤ → ℤ
unwound paid credited = if leb_ℤ (pos 0) (paid -ℤ credited) then paid -ℤ credited else pos 0

abbrev pub unwound_status : InvoiceStatus → ℤ → ℤ → InvoiceStatus
unwound_status s total paid =
    if leb_ℤ total paid
    then s
    else if ltb_ℤ (pos 0) paid
    then InvoiceStatus.partially_paid
    else InvoiceStatus.confirmed

-- The invoice of the note, from the row that was read.
unfoldable pub unwind_read : ℕ → ℕ → ℤ → Invoice → Tx (Unit {0})
unwind_read org k credited inv =
    let paid : ℤ = unwound inv.amount_paid credited in
    update_one_sale (has_paid org k inv.amount_paid)
      (pay_row paid (unwound_status inv.status inv.total paid))

unfoldable pub unwind_invoice : ℕ → ℤ → Option ℕ → Tx (Unit {0})
unwind_invoice org credited none = pure tt
unwind_invoice org credited (some k) = do
  found ← gets (λ db. find (is_invoice org k) db.sales)
  inv ← or_throw found (not_found invoice_missing)
  unwind_read org k credited inv

abbrev pub is_still_draft_note : ℕ → ℕ → CreditNote → Bool
is_still_draft_note org id n = is_note org id n && is_draft_note n.status

abbrev pub with_note_status : CreditNoteStatus → CreditNote → CreditNote
with_note_status s n = record n { status = s }

-- The compare-and-set of the status of a note, which must change one row.
unfoldable pub update_one_note : ℕ → ℕ → CreditNoteStatus → Tx (Unit {0})
update_one_note org id s = do
  n ← gets (λ db. count_where (is_still_draft_note org id) db.credit_notes)
  throw_if (not (n == 1)) (conflict concurrent_change)
  modify (λ db. record db {
    credit_notes = update_where (is_still_draft_note org id) (with_note_status s) db.credit_notes;
  })

-- A submission to the tax authority reverses an invoice, so that it needs a reference.
unfoldable pub submit_note : ℕ → ℕ → Option ℕ → Tx (Unit {0})
submit_note org id none = pure tt
submit_note org id (some k) =
    enqueue OutboxType.etims_credit_note_submit AggregateType.credit_note id org none

abbrev pub credit_note_lines : ℤ → ℤ → List PostLine
credit_note_lines total tax =
    debit_line vat_output tax
    ∷ debit_line revenue (total -ℤ tax)
    ∷ credit_line receivable total
    ∷ []

abbrev pub credit_note_posting : ℕ → CreditNote → Posting
credit_note_posting id note =
    record (document SourceType.credit_note id (credit_note_lines note.total note.tax_total)) {
      entry_date = some note.note_date;
    }

-- The rest of `issue`, from the row that was read.
unfoldable pub issue_read : ℕ → ℕ → CreditNote → Tx (Unit {0})
issue_read org id note = do
  throw_if (not (is_draft_note note.status)) (conflict wrong_status)
  modify (restore_lines org (or_default note.reference id) note.lines)
  unwind_invoice org note.total note.reference
  update_one_note org id CreditNoteStatus.issued
  submit_note org id note.reference
  post org (credit_note_posting id note)
  pure tt

unfoldable pub issue_note : ℕ → ℕ → Tx (Unit {0})
issue_note org id = do
  found ← gets (λ db. find (is_note org id) db.credit_notes)
  note ← or_throw found (not_found note_missing)
  issue_read org id note

unfoldable pub cancel_note : ℕ → ℕ → Tx (Unit {0})
cancel_note org id = do
  found ← gets (λ db. find (is_note org id) db.credit_notes)
  note ← or_throw found (not_found note_missing)
  throw_if (not (is_draft_note note.status)) (conflict wrong_status)
  update_one_note org id CreditNoteStatus.cancelled
