-- ===== src/System/Safety.antt =====
-- About the database after any sequence of requests.
use biz360_sme_erp_e_tims.Base.{ℕ, List, [], ◌∷◌}
use biz360_sme_erp_e_tims.Store.{OrderStatus, Db}
use biz360_sme_erp_e_tims.Store.Keeps.{Keeps-commit}
use biz360_sme_erp_e_tims.Consistency.{IsConsistent}
use biz360_sme_erp_e_tims.Accounting.Safety.{
  create_account-IsConsistent, update_account-IsConsistent, remove_account-IsConsistent,
  create_entry-IsConsistent, approve_entry-IsConsistent, reverse_entry-IsConsistent,
  adjust_stock-IsConsistent,
}
use biz360_sme_erp_e_tims.Sales.Safety.{
  confirm_invoice-IsConsistent, void_invoice-IsConsistent, record_payment-IsConsistent,
  create_draft-IsConsistent, update_draft-IsConsistent,
}
use biz360_sme_erp_e_tims.Purchasing.Safety.{
  create_purchase-IsConsistent, confirm_purchase-IsConsistent, void_purchase-IsConsistent,
  pay_purchase-IsConsistent, update_purchase-IsConsistent,
}
use biz360_sme_erp_e_tims.CreditNotes.Safety.{
  create_note-IsConsistent, issue_note-IsConsistent, cancel_note-IsConsistent,
}
use biz360_sme_erp_e_tims.Quotations.Safety.{serve-IsConsistent}
use biz360_sme_erp_e_tims.Orders.{transition, cancel_order}
use biz360_sme_erp_e_tims.Receipts.Safety.{
  create_order-IsConsistent, update_order-IsConsistent, move_order-IsConsistent,
  create_receipt-IsConsistent, confirm_receipt-IsConsistent, cancel_receipt-IsConsistent,
}
use biz360_sme_erp_e_tims.Banking.Safety.{
  create_bank_account-IsConsistent, update_bank_account-IsConsistent,
  remove_bank_account-IsConsistent, import_statement-IsConsistent, reconcile-IsConsistent,
}
use biz360_sme_erp_e_tims.System.{
  Operation, draft_sale, edit_sale, confirm_sale, void_sale, pay_sale, draft_purchase,
  edit_purchase, receive_purchase, cancel_purchase, settle_purchase, adjust, add_account,
  edit_account, drop_account, enter, approve, reverse, draft_note, issue, drop_note, quote,
  draft_order, edit_order, submit, approve_order_of, reject, drop_order, draft_receipt, receive,
  drop_receipt, add_bank, edit_bank, drop_bank_account, import_lines, match_lines, perform,
  perform_all,
}

pub perform-IsConsistent :
    (org : ℕ) (o : Operation) (db : Db) → IsConsistent db → IsConsistent (perform org o db)
unfolding perform transition cancel_order
perform-IsConsistent org (draft_sale party date lines) =
    Keeps-commit IsConsistent (create_draft-IsConsistent org party date lines)
perform-IsConsistent org (edit_sale id date) =
    Keeps-commit IsConsistent (update_draft-IsConsistent org id date)
perform-IsConsistent org (confirm_sale id) =
    Keeps-commit IsConsistent (confirm_invoice-IsConsistent org id)
perform-IsConsistent org (void_sale id) =
    Keeps-commit IsConsistent (void_invoice-IsConsistent org id)
perform-IsConsistent org (pay_sale id amount) =
    Keeps-commit IsConsistent (record_payment-IsConsistent org id amount)
perform-IsConsistent org (draft_purchase party date lines) =
    Keeps-commit IsConsistent (create_purchase-IsConsistent org party date lines)
perform-IsConsistent org (edit_purchase id date) =
    Keeps-commit IsConsistent (update_purchase-IsConsistent org id date)
perform-IsConsistent org (receive_purchase id) =
    Keeps-commit IsConsistent (confirm_purchase-IsConsistent org id)
perform-IsConsistent org (cancel_purchase id) =
    Keeps-commit IsConsistent (void_purchase-IsConsistent org id)
perform-IsConsistent org (settle_purchase id amount) =
    Keeps-commit IsConsistent (pay_purchase-IsConsistent org id amount)
perform-IsConsistent org (adjust id delta) =
    Keeps-commit IsConsistent (adjust_stock-IsConsistent org id delta)
perform-IsConsistent org (add_account dto) =
    Keeps-commit IsConsistent (create_account-IsConsistent org dto)
perform-IsConsistent org (edit_account id dto) =
    Keeps-commit IsConsistent (update_account-IsConsistent org id dto)
perform-IsConsistent org (drop_account id) =
    Keeps-commit IsConsistent (remove_account-IsConsistent org id)
perform-IsConsistent org (enter date lines) =
    Keeps-commit IsConsistent (create_entry-IsConsistent org date lines)
perform-IsConsistent org (approve id) =
    Keeps-commit IsConsistent (approve_entry-IsConsistent org id)
perform-IsConsistent org (reverse id) =
    Keeps-commit IsConsistent (reverse_entry-IsConsistent org id)
perform-IsConsistent org (draft_note party reference date lines) =
    Keeps-commit IsConsistent (create_note-IsConsistent org party reference date lines)
perform-IsConsistent org (issue id) = Keeps-commit IsConsistent (issue_note-IsConsistent org id)
perform-IsConsistent org (drop_note id) =
    Keeps-commit IsConsistent (cancel_note-IsConsistent org id)
perform-IsConsistent org (quote r) = serve-IsConsistent org r
perform-IsConsistent org (draft_order party date lines) =
    Keeps-commit IsConsistent (create_order-IsConsistent org party date lines)
perform-IsConsistent org (edit_order id party date lines) =
    Keeps-commit IsConsistent (update_order-IsConsistent org id party date lines)
perform-IsConsistent org (submit id) = move_order-IsConsistent org id _ OrderStatus.submitted
perform-IsConsistent org (approve_order_of id) =
    move_order-IsConsistent org id _ OrderStatus.approved
perform-IsConsistent org (reject id) = move_order-IsConsistent org id _ OrderStatus.rejected
perform-IsConsistent org (drop_order id) = move_order-IsConsistent org id _ OrderStatus.cancelled
perform-IsConsistent org (draft_receipt order date lines) =
    Keeps-commit IsConsistent (create_receipt-IsConsistent org order date lines)
perform-IsConsistent org (receive id date) =
    Keeps-commit IsConsistent (confirm_receipt-IsConsistent org id date)
perform-IsConsistent org (drop_receipt id) =
    Keeps-commit IsConsistent (cancel_receipt-IsConsistent org id)
perform-IsConsistent org (add_bank code opening active) =
    Keeps-commit IsConsistent (create_bank_account-IsConsistent org code opening active)
perform-IsConsistent org (edit_bank id code opening active) =
    Keeps-commit IsConsistent (update_bank_account-IsConsistent org id code opening active)
perform-IsConsistent org (drop_bank_account id) =
    Keeps-commit IsConsistent (remove_bank_account-IsConsistent org id)
perform-IsConsistent org (import_lines account lines) =
    Keeps-commit IsConsistent (import_statement-IsConsistent org account lines)
perform-IsConsistent org (match_lines account start end ids) =
    Keeps-commit IsConsistent (reconcile-IsConsistent org account start end ids)

-- Whatever list of requests of whatever organizations is performed on a consistent database, the
-- result is consistent: every journal entry balances and its lines are one-sided, no source but
-- a manual one is booked twice, the entry numbers of an organization are distinct and none is
-- above its sequence, and the stock on hand of every item that is not deleted is the sum of its movements.
pub perform_all-IsConsistent :
    (os : List (ℕ × Operation)) (db : Db) → IsConsistent db → IsConsistent (perform_all os db)
unfolding perform_all
perform_all-IsConsistent [] db h = h
perform_all-IsConsistent ((org, o) ∷ os) db h =
    perform_all-IsConsistent os (perform org o db) (perform-IsConsistent org o db h)
