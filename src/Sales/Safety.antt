-- ===== src/Sales/Safety.antt =====
-- About the database after each operation of modules/sales/sales.service.ts.
use biz360_sme_erp_e_tims.Base.{ℕ, Bool, Option, List, [], ◌∷◌, update_where}
use biz360_sme_erp_e_tims.Base.Int.{ℤ}
use biz360_sme_erp_e_tims.Money.{JsNumber}
use biz360_sme_erp_e_tims.Store.{modify, fresh, OutboxType, AggregateType, Invoice, Payment}
use biz360_sme_erp_e_tims.Store.Keeps.{Keeps, Keeps-then, Keeps-modify, keeps_rules}
use biz360_sme_erp_e_tims.Ledger.Documents.{
  post_sale_invoice, post_sale_cogs, post_sale_cogs_reversal, post_sale_payment,
  post_sale_payment_reversal, post_sale_void,
}
use biz360_sme_erp_e_tims.Stock.Loops.{sell_lines-Keeps, return_lines-Keeps}
use biz360_sme_erp_e_tims.Outbox.{insert_event, enqueue}
use biz360_sme_erp_e_tims.Consistency.{IsConsistent, post-IsConsistent, move_stock-IsConsistent}
use biz360_sme_erp_e_tims.Result.{ok}
use biz360_sme_erp_e_tims.Document.{LineDto, ComputedLine}
use biz360_sme_erp_e_tims.Sales.Draft.{insert_draft, create_draft, update_draft}
use biz360_sme_erp_e_tims.Sales.Lines.{new_lines-Keeps}
use biz360_sme_erp_e_tims.Sales.Lifecycle.{
  confirm_read, update_one_sale, confirm_invoice, reverse_payments, undo_release, void_read,
  void_invoice, pay_read, pay_amount, record_payment,
}

sales-Keeps :
    (p : Invoice → Bool) (f : Invoice → Invoice)
    → Keeps IsConsistent (modify (λ db. record db { sales = update_where p f db.sales }))
sales-Keeps p f = Keeps-modify IsConsistent _ (λ db h. h)

insert_event-Keeps :
    (t : OutboxType) (k : AggregateType) (a org : ℕ) (limit : Option ℕ)
    → Keeps IsConsistent (modify (insert_event t k a org limit))
insert_event-Keeps t k a org limit = Keeps-modify IsConsistent _ (λ db h. h)

pub enqueue-Keeps :
    (t : OutboxType) (k : AggregateType) (a org : ℕ) (limit : Option ℕ)
    → Keeps IsConsistent (enqueue t k a org limit)
unfolding enqueue
enqueue-Keeps t k a org limit = search (keeps_rules, insert_event-Keeps) depth 10

fresh-Keeps : Keeps IsConsistent fresh
unfolding fresh
fresh-Keeps = record { run = λ db h. h }

payment-Keeps :
    (p : Payment) → Keeps IsConsistent (modify (λ db. record db { payments = p ∷ db.payments }))
payment-Keeps p = Keeps-modify IsConsistent _ (λ db h. h)

insert_draft-Keeps :
    (org party : ℕ) (date : Option ℕ) (ls : List ComputedLine)
    → Keeps IsConsistent (λ db. ok (insert_draft org party date ls db))
unfolding insert_draft
insert_draft-Keeps org party date ls = record { run = λ db h. h }

pub update_one-Keeps :
    (p : Invoice → Bool) (f : Invoice → Invoice) → Keeps IsConsistent (update_one_sale p f)
unfolding update_one_sale
update_one-Keeps p f = search (keeps_rules, sales-Keeps) depth 12

ruleset table_rules = (
  keeps_rules, sales-Keeps, enqueue-Keeps, fresh-Keeps, payment-Keeps, insert_draft-Keeps,
  update_one-Keeps, post-IsConsistent,
)

confirm_read-Keeps : (org id : ℕ) (inv : Invoice) → Keeps IsConsistent (confirm_read org id inv)
unfolding confirm_read post_sale_invoice post_sale_cogs
confirm_read-Keeps org id inv =
    search (table_rules, sell_lines-Keeps IsConsistent move_stock-IsConsistent) depth 30

-- Confirming an invoice keeps the books and the stock consistent.
pub confirm_invoice-IsConsistent : (org id : ℕ) → Keeps IsConsistent (confirm_invoice org id)
unfolding confirm_invoice
confirm_invoice-IsConsistent org id = search (table_rules, confirm_read-Keeps) depth 12

reverse_payments-Keeps :
    (org id : ℕ) (ps : List Payment) → Keeps IsConsistent (reverse_payments org id ps)
unfolding reverse_payments post_sale_payment_reversal
reverse_payments-Keeps org id [] = search table_rules
reverse_payments-Keeps org id (p ∷ ps) =
    Keeps-then IsConsistent (search table_rules depth 10) (reverse_payments-Keeps org id ps)

undo_release-Keeps :
    (org id : ℕ) (inv : Invoice) (cost : ℤ) → Keeps IsConsistent (undo_release org id inv cost)
unfolding undo_release post_sale_void post_sale_cogs_reversal
undo_release-Keeps org id inv cost = search (table_rules, reverse_payments-Keeps) depth 20

void_read-Keeps : (org id : ℕ) (inv : Invoice) → Keeps IsConsistent (void_read org id inv)
unfolding void_read
void_read-Keeps org id inv =
    search
      (table_rules, undo_release-Keeps, return_lines-Keeps IsConsistent move_stock-IsConsistent)
      depth 20

-- Voiding an invoice keeps the books and the stock consistent.
pub void_invoice-IsConsistent : (org id : ℕ) → Keeps IsConsistent (void_invoice org id)
unfolding void_invoice
void_invoice-IsConsistent org id = search (table_rules, void_read-Keeps) depth 12

pay_read-Keeps :
    (org id : ℕ) (amount : ℤ) (inv : Invoice) → Keeps IsConsistent (pay_read org id amount inv)
unfolding pay_read post_sale_payment
pay_read-Keeps org id amount inv = search table_rules depth 20

-- A payment keeps the books and the stock consistent.
pub record_payment-IsConsistent :
    (org id : ℕ) (n : JsNumber) → Keeps IsConsistent (record_payment org id n)
unfolding record_payment pay_amount
record_payment-IsConsistent org id n = search (table_rules, pay_read-Keeps) depth 15

-- A new draft keeps the database consistent, and a change of one.
pub create_draft-IsConsistent :
    (org party : ℕ) (date : Option ℕ) (dtos : List LineDto)
    → Keeps IsConsistent (create_draft org party date dtos)
unfolding create_draft
create_draft-IsConsistent org party date dtos = search (table_rules, new_lines-Keeps) depth 20

pub update_draft-IsConsistent :
    (org id : ℕ) (date : Option ℕ) → Keeps IsConsistent (update_draft org id date)
unfolding update_draft
update_draft-IsConsistent org id date = search table_rules depth 15
