-- ===== src/Purchasing/Safety.antt =====
-- About the database after each operation of modules/purchasing/purchasing.service.ts.
use biz360_sme_erp_e_tims.Base.{ℕ, Option, List, [], ◌∷◌, Bool, update_where}
use biz360_sme_erp_e_tims.Money.{JsNumber}
use biz360_sme_erp_e_tims.Result.{ok}
use biz360_sme_erp_e_tims.Document.{LineDto, ComputedLine}
use biz360_sme_erp_e_tims.Store.{Invoice, Payment, InvoiceLine, modify, fresh}
use biz360_sme_erp_e_tims.Store.Keeps.{Keeps, Keeps-then, Keeps-modify, keeps_rules}
use biz360_sme_erp_e_tims.Ledger.Documents.{
  post_purchase_invoice, post_purchase_payment, post_purchase_payment_reversal, post_purchase_void,
}
use biz360_sme_erp_e_tims.Stock.{receive_lines, take_back_lines}
use biz360_sme_erp_e_tims.Stock.Loops.{receive_lines-keeps, take_back_lines-keeps}
use biz360_sme_erp_e_tims.Consistency.{IsConsistent, post-IsConsistent, move_stock-IsConsistent}
use biz360_sme_erp_e_tims.Purchasing.{
  insert_purchase, create_purchase, update_one_purchase, confirm_purchase, reverse_payments,
  undo_purchase, void_purchase, pay_purchase, update_purchase,
}

purchases-Keeps :
    (p : Invoice → Bool) (f : Invoice → Invoice)
    → Keeps IsConsistent (modify (λ db. record db { purchases = update_where p f db.purchases }))
purchases-Keeps p f = Keeps-modify IsConsistent _ (λ db h. h)

fresh-Keeps : Keeps IsConsistent fresh
unfolding fresh
fresh-Keeps = record { run = λ db h. h }

payment-Keeps :
    (p : Payment) → Keeps IsConsistent (modify (λ db. record db { payments = p ∷ db.payments }))
payment-Keeps p = Keeps-modify IsConsistent _ (λ db h. h)

insert-Keeps :
    (org party : ℕ) (date : Option ℕ) (ls : List ComputedLine)
    → Keeps IsConsistent (λ db. ok (insert_purchase org party date ls db))
unfolding insert_purchase
insert-Keeps org party date ls = record { run = λ db h. h }

receive-Keeps :
    (org id : ℕ) (ls : List InvoiceLine) → Keeps IsConsistent (modify (receive_lines org id ls))
receive-Keeps org id ls =
    Keeps-modify IsConsistent _ (receive_lines-keeps IsConsistent move_stock-IsConsistent org id ls)

take_back-Keeps :
    (org id : ℕ) (ls : List InvoiceLine) → Keeps IsConsistent (modify (take_back_lines org id ls))
take_back-Keeps org id ls =
    Keeps-modify IsConsistent _
      (take_back_lines-keeps IsConsistent move_stock-IsConsistent org id ls)

update_one-Keeps :
    (p : Invoice → Bool) (f : Invoice → Invoice) → Keeps IsConsistent (update_one_purchase p f)
unfolding update_one_purchase
update_one-Keeps p f = search (keeps_rules, purchases-Keeps) depth 12

ruleset table_rules = (
  keeps_rules, purchases-Keeps, fresh-Keeps, payment-Keeps, insert-Keeps, receive-Keeps,
  take_back-Keeps, update_one-Keeps, post-IsConsistent,
)

-- A new draft of a purchase keeps the books and the stock consistent.
pub create_purchase-IsConsistent :
    (org party : ℕ) (date : Option ℕ) (dtos : List LineDto)
    → Keeps IsConsistent (create_purchase org party date dtos)
unfolding create_purchase
create_purchase-IsConsistent org party date dtos = search table_rules depth 20

-- Confirming a purchase keeps the database consistent.
pub confirm_purchase-IsConsistent : (org id : ℕ) → Keeps IsConsistent (confirm_purchase org id)
unfolding confirm_purchase post_purchase_invoice
confirm_purchase-IsConsistent org id = search table_rules depth 30

reverse_payments-Keeps :
    (org id : ℕ) (ps : List Payment) → Keeps IsConsistent (reverse_payments org id ps)
unfolding reverse_payments post_purchase_payment_reversal
reverse_payments-Keeps org id [] = search table_rules
reverse_payments-Keeps org id (p ∷ ps) =
    Keeps-then IsConsistent (search table_rules depth 10) (reverse_payments-Keeps org id ps)

undo_purchase-Keeps : (org id : ℕ) (inv : Invoice) → Keeps IsConsistent (undo_purchase org id inv)
unfolding undo_purchase post_purchase_void
undo_purchase-Keeps org id inv = search (table_rules, reverse_payments-Keeps) depth 15

-- Voiding a purchase keeps the database consistent.
pub void_purchase-IsConsistent : (org id : ℕ) → Keeps IsConsistent (void_purchase org id)
unfolding void_purchase
void_purchase-IsConsistent org id = search (table_rules, undo_purchase-Keeps) depth 20

-- Paying a purchase keeps the database consistent.
pub pay_purchase-IsConsistent :
    (org id : ℕ) (n : JsNumber) → Keeps IsConsistent (pay_purchase org id n)
unfolding pay_purchase post_purchase_payment
pay_purchase-IsConsistent org id n = search table_rules depth 30

pub update_purchase-IsConsistent :
    (org id : ℕ) (date : Option ℕ) → Keeps IsConsistent (update_purchase org id date)
unfolding update_purchase
update_purchase-IsConsistent org id date = search table_rules depth 15
