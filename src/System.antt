-- ===== src/System.antt =====
-- The services together: the operations that a controller can call on the database, each in a
-- transaction of its own, in the order in which they commit.
pub mod Safety
use biz360_sme_erp_e_tims.Base.{ℕ, Bool, Option, List, [], ◌∷◌}
use biz360_sme_erp_e_tims.Base.Int.{ℤ}
use biz360_sme_erp_e_tims.Money.{JsNumber}
use biz360_sme_erp_e_tims.Document.{LineDto}
use biz360_sme_erp_e_tims.Store.{Db, commit}
use biz360_sme_erp_e_tims.Stock.{adjust_stock}
use biz360_sme_erp_e_tims.Accounting.Chart.{
  AccountDto, AccountPatch, create_account, update_account, remove_account,
}
use biz360_sme_erp_e_tims.Accounting.Journal.{
  ManualLine, create_entry, approve_entry, reverse_entry,
}
use biz360_sme_erp_e_tims.Sales.Draft.{create_draft, update_draft}
use biz360_sme_erp_e_tims.Sales.Lifecycle.{confirm_invoice, void_invoice, record_payment}
use biz360_sme_erp_e_tims.Purchasing.{
  create_purchase, update_purchase, confirm_purchase, void_purchase, pay_purchase,
}
use biz360_sme_erp_e_tims.CreditNotes.{create_note, issue_note, cancel_note}
use biz360_sme_erp_e_tims.Quotations.Requests.{Request, serve}
use biz360_sme_erp_e_tims.Orders.Lines.{OrderLineDto}
use biz360_sme_erp_e_tims.Orders.{
  create_order, update_order, submit_order, approve_order, reject_order, cancel_order, transition,
}
use biz360_sme_erp_e_tims.Receipts.{ReceiptLineDto, create_receipt, confirm_receipt, cancel_receipt}
use biz360_sme_erp_e_tims.Banking.{create_bank_account, update_bank_account, remove_bank_account}
use biz360_sme_erp_e_tims.Banking.Statements.{StatementDto, import_statement, reconcile}

-- A request that changes the sales, purchasing, credit note, quotation, purchase order,
-- goods receipt, bank, inventory or accounting tables.
pub data Operation : Type 0 where
  draft_sale : ℕ → Option ℕ → List LineDto → Operation
  edit_sale : ℕ → Option ℕ → Operation
  confirm_sale : ℕ → Operation
  void_sale : ℕ → Operation
  pay_sale : ℕ → JsNumber → Operation
  draft_purchase : ℕ → Option ℕ → List LineDto → Operation
  edit_purchase : ℕ → Option ℕ → Operation
  receive_purchase : ℕ → Operation
  cancel_purchase : ℕ → Operation
  settle_purchase : ℕ → JsNumber → Operation
  adjust : ℕ → ℤ → Operation
  add_account : AccountDto → Operation
  edit_account : ℕ → AccountPatch → Operation
  drop_account : ℕ → Operation
  enter : Option ℕ → List ManualLine → Operation
  approve : ℕ → Operation
  reverse : ℕ → Operation
  draft_note : ℕ → Option ℕ → Option ℕ → List LineDto → Operation
  issue drop_note : ℕ → Operation
  quote : Request → Operation
  draft_order : ℕ → Option ℕ → List OrderLineDto → Operation
  edit_order : ℕ → Option ℕ → Option ℕ → Option (List OrderLineDto) → Operation
  submit approve_order_of reject drop_order : ℕ → Operation
  draft_receipt : ℕ → Option ℕ → List ReceiptLineDto → Operation
  receive : ℕ → Option ℕ → Operation
  drop_receipt : ℕ → Operation
  add_bank : Option ℕ → Option ℤ → Option Bool → Operation
  edit_bank : ℕ → Option (Option ℕ) → Option ℤ → Option Bool → Operation
  drop_bank_account : ℕ → Operation
  import_lines : ℕ → List StatementDto → Operation
  match_lines : ℕ → ℕ → ℕ → List ℕ → Operation

-- The database after the request of an organization; a refused one rolls back.
unfoldable pub perform : ℕ → Operation → Db → Db
perform org (draft_sale party date lines) = commit (create_draft org party date lines)
perform org (edit_sale id date) = commit (update_draft org id date)
perform org (confirm_sale id) = commit (confirm_invoice org id)
perform org (void_sale id) = commit (void_invoice org id)
perform org (pay_sale id amount) = commit (record_payment org id amount)
perform org (draft_purchase party date lines) = commit (create_purchase org party date lines)
perform org (edit_purchase id date) = commit (update_purchase org id date)
perform org (receive_purchase id) = commit (confirm_purchase org id)
perform org (cancel_purchase id) = commit (void_purchase org id)
perform org (settle_purchase id amount) = commit (pay_purchase org id amount)
perform org (adjust id delta) = commit (adjust_stock org id delta)
perform org (add_account dto) = commit (create_account org dto)
perform org (edit_account id dto) = commit (update_account org id dto)
perform org (drop_account id) = commit (remove_account org id)
perform org (enter date lines) = commit (create_entry org date lines)
perform org (approve id) = commit (approve_entry org id)
perform org (reverse id) = commit (reverse_entry org id)
perform org (draft_note party reference date lines) =
    commit (create_note org party reference date lines)
perform org (issue id) = commit (issue_note org id)
perform org (drop_note id) = commit (cancel_note org id)
perform org (quote r) = serve org r
perform org (draft_order party date lines) = commit (create_order org party date lines)
perform org (edit_order id party date lines) = commit (update_order org id party date lines)
perform org (submit id) = λ db. (submit_order org id db).1
perform org (approve_order_of id) = λ db. (approve_order org id db).1
perform org (reject id) = λ db. (reject_order org id db).1
perform org (drop_order id) = λ db. (cancel_order org id db).1
perform org (draft_receipt order date lines) = commit (create_receipt org order date lines)
perform org (receive id date) = commit (confirm_receipt org id date)
perform org (drop_receipt id) = commit (cancel_receipt org id)
perform org (add_bank code opening active) = commit (create_bank_account org code opening active)
perform org (edit_bank id code opening active) =
    commit (update_bank_account org id code opening active)
perform org (drop_bank_account id) = commit (remove_bank_account org id)
perform org (import_lines account lines) = commit (import_statement org account lines)
perform org (match_lines account start end ids) = commit (reconcile org account start end ids)

-- The requests of all organizations, in the order of their commits.
unfoldable pub perform_all : List (ℕ × Operation) → Db → Db
perform_all [] db = db
perform_all ((org, o) ∷ os) db = perform_all os (perform org o db)
