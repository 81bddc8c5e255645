-- ===== src/CreditNotes/Safety.antt =====
-- About the database after each operation of modules/credit-notes/credit-notes.service.ts.
use biz360_sme_erp_e_tims.Base.{ℕ, Bool, Option, none, some, List, [], ◌∷◌, update_where}
use biz360_sme_erp_e_tims.Base.Int.{ℤ}
use biz360_sme_erp_e_tims.Result.{ok}
use biz360_sme_erp_e_tims.Document.{LineDto, ComputedLine}
use biz360_sme_erp_e_tims.Store.{
  MovementType, Item, InvoiceLine, CreditNote, CreditNoteStatus, Db, modify,
}
use biz360_sme_erp_e_tims.Store.Keeps.{Keeps, Keeps-modify, keeps_rules}
use biz360_sme_erp_e_tims.Stock.{move_stock, item_of_line}
use biz360_sme_erp_e_tims.Consistency.{IsConsistent, post-IsConsistent, move_stock-IsConsistent}
use biz360_sme_erp_e_tims.Sales.Lines.{new_lines-Keeps}
use biz360_sme_erp_e_tims.Sales.Safety.{update_one-Keeps, enqueue-Keeps}
use biz360_sme_erp_e_tims.CreditNotes.{
  check_reference, insert_note, create_note, restore_item, restore_lines, unwind_read,
  unwind_invoice, update_one_note, submit_note, issue_read, issue_note, cancel_note,
}

module _ (P : Db → Type 0)
    (move : (org id : ℕ) (delta : ℤ) (t : MovementType) (ref : Option ℕ) (db : Db)
      → P db
      → P (move_stock org id delta t ref db)) where
  restore_item-keeps :
      (org ref : ℕ) (qty : ℤ) (found : Option Item) (db : Db)
      → P db
      → P (restore_item org ref qty found db)
  unfolding restore_item
  restore_item-keeps org ref qty none db h = h
  restore_item-keeps org ref qty (some it) db h = move org it.id qty _ _ db h

  pub restore_lines-keeps :
      (org ref : ℕ) (ls : List InvoiceLine) (db : Db) → P db → P (restore_lines org ref ls db)
  unfolding restore_lines
  restore_lines-keeps org ref [] db h = h
  restore_lines-keeps org ref (l ∷ ls) db h =
      restore_lines-keeps org ref ls (restore_item org ref l.quantity (item_of_line org l db) db)
        (restore_item-keeps org ref l.quantity (item_of_line org l db) db h)

  pub restore_lines-Keeps :
      (org ref : ℕ) (ls : List InvoiceLine) → Keeps P (modify (restore_lines org ref ls))
  restore_lines-Keeps org ref ls = Keeps-modify P _ (restore_lines-keeps org ref ls)

notes-Keeps :
    (p : CreditNote → Bool) (f : CreditNote → CreditNote)
    → Keeps IsConsistent
        (modify (λ db. record db { credit_notes = update_where p f db.credit_notes }))
notes-Keeps p f = Keeps-modify IsConsistent _ (λ db h. h)

insert_note-Keeps :
    (org party : ℕ) (reference date : Option ℕ) (ls : List ComputedLine)
    → Keeps IsConsistent (λ db. ok (insert_note org party reference date ls db))
unfolding insert_note
insert_note-Keeps org party reference date ls = record { run = λ db h. h }

ruleset note_rules = (
  keeps_rules, notes-Keeps, insert_note-Keeps, update_one-Keeps, enqueue-Keeps, post-IsConsistent,
)

check_reference-Keeps :
    (org party : ℕ) (reference : Option ℕ)
    → Keeps IsConsistent (check_reference org party reference)
unfolding check_reference
check_reference-Keeps org party none = search note_rules
check_reference-Keeps org party (some k) = search note_rules depth 15

-- A new note keeps the database consistent.
pub create_note-IsConsistent :
    (org party : ℕ) (reference date : Option ℕ) (dtos : List LineDto)
    → Keeps IsConsistent (create_note org party reference date dtos)
unfolding create_note
create_note-IsConsistent org party reference date dtos =
    search (note_rules, check_reference-Keeps, new_lines-Keeps) depth 20

unwind_invoice-Keeps :
    (org : ℕ) (credited : ℤ) (reference : Option ℕ)
    → Keeps IsConsistent (unwind_invoice org credited reference)
unfolding unwind_invoice unwind_read
unwind_invoice-Keeps org credited none = search note_rules
unwind_invoice-Keeps org credited (some k) = search note_rules depth 15

update_one_note-Keeps :
    (org id : ℕ) (s : CreditNoteStatus) → Keeps IsConsistent (update_one_note org id s)
unfolding update_one_note
update_one_note-Keeps org id s = search note_rules depth 15

submit_note-Keeps :
    (org id : ℕ) (reference : Option ℕ) → Keeps IsConsistent (submit_note org id reference)
unfolding submit_note
submit_note-Keeps org id none = search note_rules
submit_note-Keeps org id (some k) = search note_rules

ruleset issue_rules = (note_rules, unwind_invoice-Keeps, update_one_note-Keeps, submit_note-Keeps)

issue_read-Keeps : (org id : ℕ) (note : CreditNote) → Keeps IsConsistent (issue_read org id note)
unfolding issue_read
issue_read-Keeps org id note =
    search (issue_rules, restore_lines-Keeps IsConsistent move_stock-IsConsistent) depth 20

-- Issuing a note keeps the books and the stock consistent, and cancelling one.
pub issue_note-IsConsistent : (org id : ℕ) → Keeps IsConsistent (issue_note org id)
unfolding issue_note
issue_note-IsConsistent org id = search (issue_rules, issue_read-Keeps) depth 15

pub cancel_note-IsConsistent : (org id : ℕ) → Keeps IsConsistent (cancel_note org id)
unfolding cancel_note
cancel_note-IsConsistent org id = search issue_rules depth 15
