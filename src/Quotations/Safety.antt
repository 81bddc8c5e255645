-- ===== src/Quotations/Safety.antt =====
-- About the books and the stock after each request that changes quotations.
use biz360_sme_erp_e_tims.Base.{ℕ, Bool, Option, List, update_where}
use biz360_sme_erp_e_tims.Result.{ok}
use biz360_sme_erp_e_tims.Document.{LineDto, ComputedLine}
use biz360_sme_erp_e_tims.Store.{Quotation, QuotationStatus, Db, modify}
use biz360_sme_erp_e_tims.Store.Keeps.{Keeps, Keeps-commit, Keeps-modify, keeps_rules}
use biz360_sme_erp_e_tims.Consistency.{IsConsistent}
use biz360_sme_erp_e_tims.Sales.Lines.{new_lines-Keeps}
use biz360_sme_erp_e_tims.Quotations.{
  insert_quote, create_quote, expire_rows, flip_quote, send_quote, accept_quote, cancel_quote,
  insert_invoice_of, convert_accepted, convert_read, convert_quote, update_quote,
}
use biz360_sme_erp_e_tims.Quotations.Requests.{
  Request, create, update, send, accept, cancel, convert, serve,
}
use biz360_sme_erp_e_tims.Quotations.Expiry.{unless_past_keeps}

quotes-Keeps :
    (p : Quotation → Bool) (f : Quotation → Quotation)
    → Keeps IsConsistent (modify (λ db. record db { quotations = update_where p f db.quotations }))
quotes-Keeps p f = Keeps-modify IsConsistent _ (λ db h. h)

flip_quote-Keeps :
    (p : Quotation → Bool) (s : QuotationStatus) → Keeps IsConsistent (flip_quote p s)
unfolding flip_quote
flip_quote-Keeps p s = search (keeps_rules, quotes-Keeps) depth 15

insert_quote-Keeps :
    (org party : ℕ) (date until : Option ℕ) (ls : List ComputedLine)
    → Keeps IsConsistent (λ db. ok (insert_quote org party date until ls db))
unfolding insert_quote
insert_quote-Keeps org party date until ls = record { run = λ db h. h }

insert_invoice_of-Keeps :
    (org : ℕ) (q : Quotation) → Keeps IsConsistent (λ db. ok (insert_invoice_of org q db))
unfolding insert_invoice_of
insert_invoice_of-Keeps org q = record { run = λ db h. h }

expire_rows_keeps :
    (org id : ℕ) (s : QuotationStatus) (db : Db)
    → IsConsistent db
    → IsConsistent (expire_rows org id s db)
unfolding expire_rows
expire_rows_keeps org id s db h = h

ruleset quote_rules =
    (keeps_rules, quotes-Keeps, flip_quote-Keeps, insert_quote-Keeps, insert_invoice_of-Keeps)

create_quote-Keeps :
    (org party : ℕ) (date until : Option ℕ) (dtos : List LineDto)
    → Keeps IsConsistent (create_quote org party date until dtos)
unfolding create_quote
create_quote-Keeps org party date until dtos = search (quote_rules, new_lines-Keeps) depth 20

update_quote-Keeps :
    (org id : ℕ) (date : Option ℕ) (until : Option (Option ℕ))
    → Keeps IsConsistent (update_quote org id date until)
unfolding update_quote
update_quote-Keeps org id date until = search quote_rules depth 15

cancel_quote-Keeps : (org id : ℕ) → Keeps IsConsistent (cancel_quote org id)
unfolding cancel_quote
cancel_quote-Keeps org id = search quote_rules depth 15

convert_accepted-Keeps : (org id : ℕ) → Keeps IsConsistent (convert_accepted org id)
unfolding convert_accepted convert_read
convert_accepted-Keeps org id = search quote_rules depth 20

-- Every request that changes quotations keeps the database consistent.
pub serve-IsConsistent :
    (org : ℕ) (r : Request) (db : Db) → IsConsistent db → IsConsistent (serve org r db)
unfolding serve send_quote accept_quote convert_quote
serve-IsConsistent org (create party date until lines) =
    Keeps-commit IsConsistent (create_quote-Keeps org party date until lines)
serve-IsConsistent org (update id date until) =
    Keeps-commit IsConsistent (update_quote-Keeps org id date until)
serve-IsConsistent org (cancel id) = Keeps-commit IsConsistent (cancel_quote-Keeps org id)
serve-IsConsistent org (send id) =
    unless_past_keeps IsConsistent org id (flip_quote-Keeps _ _)
      (λ db q e past. expire_rows_keeps org id q.status db)
serve-IsConsistent org (accept id) =
    unless_past_keeps IsConsistent org id (flip_quote-Keeps _ _)
      (λ db q e past. expire_rows_keeps org id q.status db)
serve-IsConsistent org (convert id) =
    unless_past_keeps IsConsistent org id (convert_accepted-Keeps org id)
      (λ db q e past. expire_rows_keeps org id q.status db)
