-- ===== src/Sales/Race.antt =====
-- Two transactions that read the same row of an invoice and commit one after the other.
use biz360_sme_erp_e_tims.Base.{
  ℕ, ◌+◌, Bool, true, false, ◌≡◌, List, count_where, count_where-update, arith,
}
use biz360_sme_erp_e_tims.Base.Int.{ℤ, pos, ◌+ℤ◌, ◌≤ℤ◌}
use biz360_sme_erp_e_tims.Store.{Invoice, InvoiceStatus, Db, Tx, run}
use biz360_sme_erp_e_tims.Result.{Result, ok, err}
use biz360_sme_erp_e_tims.Store.Keeps.{
  After, After-map, Keeps, keeps_rules, Keeps-gets, Keeps-throw_if,
}
use biz360_sme_erp_e_tims.Store.Leads.{
  Leads, Leads-first, Leads-first_then, Leads-last_then, Leads-modify,
}
use biz360_sme_erp_e_tims.Ledger.Documents.{post_sale_invoice, post_sale_cogs, post_sale_payment}
use biz360_sme_erp_e_tims.Stock.Loops.{sell_lines-Keeps}
use biz360_sme_erp_e_tims.Sales.Lifecycle.{
  is_still_draft, confirm_row, has_paid, pay_row, paid_status, confirm_read, update_one_sale,
  pay_read, terms,
}
use biz360_sme_erp_e_tims.Sales.Outcome.{
  OfSales, post-Keeps, move-keeps, enqueue-Keeps, fresh-Keeps, payment-Keeps,
}

-- No row is left for a compare-and-set.
abbrev NoRow : (Invoice → Bool) → List Invoice → Type 0
NoRow p sales = count_where p sales ≡ 0

abbrev pub Never : Db → Type 0
Never db = ⊥

update_one-NoRow :
    (p : Invoice → Bool) (f : Invoice → Invoice)
    → ((i : Invoice) → p i ≡ true → p (f i) ≡ false)
    → Leads (λ db. Unit {0}) (OfSales (NoRow p)) (update_one_sale p f)
unfolding update_one_sale
update_one-NoRow p f away = Leads-first _ _ (Keeps-gets _ _) λ n.
    Leads-first_then _ _ (Keeps-throw_if _ _ _)
      (Leads-modify _ _ _ λ db h. count_where-update p f away db.sales)

update_one_refused :
    (p : Invoice → Bool) (f : Invoice → Invoice)
    → Leads (OfSales (NoRow p)) Never (update_one_sale p f)
unfolding update_one_sale run
update_one_refused p f = record { run = λ db h. rw h tt }

not_draft_now : (org id due : ℕ) (i : Invoice) → is_still_draft org id (confirm_row due i) ≡ false
not_draft_now org id due i = ground arith

paid_more :
    (org id : ℕ) (v amount : ℤ) (s : InvoiceStatus) (i : Invoice)
    → pos 1 ≤ℤ amount
    → has_paid org id v (pay_row (v +ℤ amount) s i) ≡ false
unfolding ◌+ℤ◌
paid_more org id v amount s i h = ground arith

abbrev Anything : Db → Type 0
Anything db = Unit

anything : {A : Type 0} (m : Tx A) → Keeps Anything m
anything m = record { run = λ db h. go (m db) }
  where
    go : {A : Type 0} (r : Result (A × Db)) → After Anything r
    go (ok r) = tt
    go (err e) = tt

confirm_read-NoRow :
    (org id : ℕ) (inv : Invoice)
    → Leads Anything (OfSales (NoRow (is_still_draft org id))) (confirm_read org id inv)
unfolding confirm_read post_sale_invoice post_sale_cogs
confirm_read-NoRow org id inv = Leads-first_then _ _ (anything _) (
    Leads-first _ _ (anything _) λ party. Leads-first _ _ (anything _) λ setting.
      Leads-first _ _ (anything _) λ owed. Leads-first_then _ _ (anything _) (
        Leads-first _ _ (anything _) λ cost.
          Leads-last_then _ _
            (update_one-NoRow (is_still_draft org id) (confirm_row _)
              (λ i _. not_draft_now org id (inv.invoice_date + terms party setting) i))
            (search (keeps_rules, post-Keeps, enqueue-Keeps) depth 15)))

confirm_read_refused :
    (org id : ℕ) (inv : Invoice)
    → Leads (OfSales (NoRow (is_still_draft org id))) Never (confirm_read org id inv)
unfolding confirm_read
confirm_read_refused org id inv = Leads-first_then _ _ (Keeps-throw_if _ _ _) (
    Leads-first _ _ (Keeps-gets _ _) λ party. Leads-first _ _ (Keeps-gets _ _) λ setting.
      Leads-first _ _ (Keeps-gets _ _) λ owed. Leads-first_then _ _ (Keeps-throw_if _ _ _) (
        Leads-first _ _
          (sell_lines-Keeps _ (move-keeps (NoRow (is_still_draft org id))) org id inv.lines (pos 0))
          λ cost.
            Leads-last_then _ _ (update_one_refused (is_still_draft org id) (confirm_row _))
              (record { run = λ db h. absurd h })))

pay_read-NoRow :
    (org id : ℕ) (amount : ℤ) (inv : Invoice)
    → pos 1 ≤ℤ amount
    → Leads Anything
        (OfSales (NoRow (has_paid org id inv.amount_paid)))
        (pay_read org id amount inv)
unfolding pay_read post_sale_payment
pay_read-NoRow org id amount inv h = Leads-first_then _ _ (anything _) (
    Leads-first _ _ (anything _) λ k. Leads-first_then _ _ (anything _) (
      Leads-last_then _ _
        (update_one-NoRow (has_paid org id inv.amount_paid) (pay_row _ _) (λ i _.
          paid_more org id inv.amount_paid amount
            (paid_status (inv.amount_paid +ℤ amount) inv.total) i h))
        (search (keeps_rules, post-Keeps) depth 10)))

pay_read_refused :
    (org id : ℕ) (amount : ℤ) (inv : Invoice)
    → Leads (OfSales (NoRow (has_paid org id inv.amount_paid))) Never (pay_read org id amount inv)
unfolding pay_read
pay_read_refused org id amount inv = Leads-first_then _ _ (Keeps-throw_if _ _ _) (
    Leads-first _ _ (fresh-Keeps _) λ k. Leads-first_then _ _ (payment-Keeps _ _) (
      Leads-last_then _ _ (update_one_refused (has_paid org id inv.amount_paid) (pay_row _ _))
        (record { run = λ db h. absurd h })))

-- Of two confirmations of the same invoice that have both read it, the second to commit throws if
-- the first did not, whatever rows the two have read.
pub confirm_once :
    (org id : ℕ) (first second : Invoice) (db : Db)
    → After (λ db'. After Never (confirm_read org id second db')) (confirm_read org id first db)
confirm_once org id first second db =
    After-map _ _ (λ d h. (confirm_read_refused org id second).run d h)
      (confirm_read org id first db) ((confirm_read-NoRow org id first).run db tt)

-- Of two payments that have read the same row of an invoice, the second to be written throws if
-- the first did not and was of at least a cent.
pub pay_once :
    (org id : ℕ) (amount other : ℤ) (inv : Invoice) (db : Db)
    → pos 1 ≤ℤ amount
    → After (λ db'. After Never (pay_read org id other inv db')) (pay_read org id amount inv db)
pay_once org id amount other inv db h =
    After-map _ _ (λ d q. (pay_read_refused org id other inv).run d q)
      (pay_read org id amount inv db) ((pay_read-NoRow org id amount inv h).run db tt)
