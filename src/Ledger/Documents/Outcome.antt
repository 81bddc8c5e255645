-- ===== src/Ledger/Documents/Outcome.antt =====
-- About the branches of `post` that the postings of the documents take.
use biz360_sme_erp_e_tims.Base.{ℕ, ◌≡◌, List, [], ◌∷◌, some, true, false, arith, find}
use biz360_sme_erp_e_tims.Base.Int.{leb_ℤ, ℤ, pos, ◌+ℤ◌, ◌-ℤ◌, ◌≤ℤ◌, ◌==ℤ◌, int_laws, eq_of_parts}
use biz360_sme_erp_e_tims.Result.{ok, err, bad_request, not_one_side}
use biz360_sme_erp_e_tims.Store.{Account, EntryLine, SourceType, Db}
use biz360_sme_erp_e_tims.Ledger.{
  Posting, Resolved, is_account, already_posted, resolve_line, resolve_lines, take_line,
  nothing_resolved, add_entry, post, document, debit_line, credit_line,
}
use biz360_sme_erp_e_tims.Ledger.Documents.{
  cost_of_goods, inventory, sale_cogs_lines, post_sale_cogs, cash, sale_payment_lines,
  post_sale_payment, receivable, revenue, vat_output, sale_invoice_lines, post_sale_invoice,
}

-- The rows of the two kinds of line at an account.
abbrev pub debit_row : Account → ℤ → EntryLine
debit_row a v = record { account_id = a.id; account_code = a.code; debit = v; credit = pos 0 }

abbrev pub credit_row : Account → ℤ → EntryLine
credit_row a v = record { account_id = a.id; account_code = a.code; debit = pos 0; credit = v }

module _ (accounts : List Account) (org code : ℕ) {a : Account}
    (found : find (is_account org code) accounts ≡ some a) (v : ℤ) where
  pub resolve_debit :
      pos 1 ≤ℤ v → resolve_line accounts org (debit_line code v) ≡ ok (debit_row a v)
  unfolding resolve_line
  resolve_debit h = ground arith

  pub resolve_credit :
      pos 1 ≤ℤ v → resolve_line accounts org (credit_line code v) ≡ ok (credit_row a v)
  unfolding resolve_line
  resolve_credit h = ground arith

  pub resolve_credit_nothing :
      v ≡ pos 0 → resolve_line accounts org (credit_line code v) ≡ err (bad_request not_one_side)
  unfolding resolve_line
  resolve_credit_nothing h = ground arith

eq→test : (a b : ℤ) → a ≡ b → (a ==ℤ b) ≡ true
eq→test a b h = ground arith

-- A new posting whose lines resolve to two equal sums books them.
pub post_booked :
    (org : ℕ) (p : Posting) (db : Db) (r : Resolved)
    → already_posted org p db.entries ≡ false
    → resolve_lines db.accounts org p.lines nothing_resolved ≡ ok r
    → r.total_debit ≡ r.total_credit
    → post org p db ≡ ok (some (add_entry org p r.resolved db).0, (add_entry org p r.resolved db).1)
unfolding post
post_booked org p db r new q e = rw (new, q, post, eq→test _ _ e)

-- The chart's accounts for a sale, and a sale that is not posted yet.
module _ (org id : ℕ) (db : Db) {ar rev vat : Account}
    (has_ar : find (is_account org receivable) db.accounts ≡ some ar)
    (has_rev : find (is_account org revenue) db.accounts ≡ some rev)
    (has_vat : find (is_account org vat_output) db.accounts ≡ some vat) (total tax : ℤ)
    (new : already_posted org
        (document SourceType.sale_invoice id (sale_invoice_lines total tax))
        db.entries
      ≡ false) where
  -- Where the organization has accounts for receivables, revenue and output tax and the sale is
  -- not posted yet, a posting of a sale with a tax of at least a cent and a total above the tax
  -- books one entry: a debit of the receivables by the total, a credit of the revenue by the rest
  -- and a credit of the tax account by the tax.
  pub sale_invoice_booked :
      pos 1 ≤ℤ tax
      → tax +ℤ pos 1 ≤ℤ total
      → post_sale_invoice org id total tax db ≡ (
          let (e, db') =
            add_entry org
              (document SourceType.sale_invoice id (sale_invoice_lines total tax))
              (debit_row ar total ∷ credit_row rev (total -ℤ tax) ∷ credit_row vat tax ∷ [])
              db in
          ok (some e, db'))
  unfolding post_sale_invoice resolve_lines
  sale_invoice_booked h k =
      post_booked org _ db
        (take_line
          (take_line (take_line nothing_resolved (debit_row ar total))
            (credit_row rev (total -ℤ tax)))
          (credit_row vat tax))
        new
        (rw (
          resolve_debit db.accounts org receivable has_ar total (omega int_laws),
          resolve_credit db.accounts org revenue has_rev (total -ℤ tax) (omega int_laws),
          resolve_credit db.accounts org vat_output has_vat tax h,
          resolve_lines,
        ))
        (eq_of_parts _ _ (omega int_laws))

  -- Where the organization has accounts for receivables, revenue and output tax and the sale is
  -- not posted yet, a posting of a sale with a positive total and a tax of nothing is refused as a
  -- line without one side.
  pub sale_invoice_untaxed :
      pos 1 ≤ℤ total
      → tax ≡ pos 0
      → post_sale_invoice org id total tax db ≡ err (bad_request not_one_side)
  unfolding post_sale_invoice post resolve_lines
  sale_invoice_untaxed h z =
      let positive : pos 1 ≤ℤ total -ℤ tax = rw z (omega int_laws) in
      rw (
        new,
        resolve_debit db.accounts org receivable has_ar total h,
        resolve_credit db.accounts org revenue has_rev (total -ℤ tax) positive,
        resolve_credit_nothing db.accounts org vat_output has_vat tax z,
      )

-- The chart's accounts for a payment received, and a payment that is not posted yet.
pub sale_payment_booked :
    (org k : ℕ) (db : Db) {c ar : Account}
    → find (is_account org cash) db.accounts ≡ some c
    → find (is_account org receivable) db.accounts ≡ some ar
    → (amount : ℤ)
    → already_posted org (document SourceType.sale_payment k (sale_payment_lines amount)) db.entries
      ≡ false
    → pos 1 ≤ℤ amount
    → post_sale_payment org k amount db ≡ (
        let (e, db') =
          add_entry org
            (document SourceType.sale_payment k (sale_payment_lines amount))
            (debit_row c amount ∷ credit_row ar amount ∷ [])
            db in
        ok (some e, db'))
unfolding post_sale_payment resolve_lines
sale_payment_booked org k db {c} {ar} has_cash has_ar amount new h =
    post_booked org _ db
      (take_line (take_line nothing_resolved (debit_row c amount)) (credit_row ar amount)) new
      (rw (
        resolve_debit db.accounts org cash has_cash amount h,
        resolve_credit db.accounts org receivable has_ar amount h,
        resolve_lines,
      ))
      (eq_of_parts _ _ (omega int_laws))

-- The cost of goods sold, where it is positive and not posted yet.
pub sale_cogs_booked :
    (org k : ℕ) (db : Db) {g i : Account}
    → find (is_account org cost_of_goods) db.accounts ≡ some g
    → find (is_account org inventory) db.accounts ≡ some i
    → (cost : ℤ)
    → already_posted org (document SourceType.sale_cogs k (sale_cogs_lines cost)) db.entries ≡ false
    → pos 1 ≤ℤ cost
    → post_sale_cogs org k cost db ≡ (
        let (e, db') =
          add_entry org
            (document SourceType.sale_cogs k (sale_cogs_lines cost))
            (debit_row g cost ∷ credit_row i cost ∷ [])
            db in
        ok (some e, db'))
unfolding post_sale_cogs resolve_lines
sale_cogs_booked org k db {g} {i} has_cost has_stock cost new h =
    let some_cost : leb_ℤ cost (pos 0) ≡ false = ground arith in
    rw some_cost (
      post_booked org _ db
        (take_line (take_line nothing_resolved (debit_row g cost)) (credit_row i cost)) new
        (rw (
          resolve_debit db.accounts org cost_of_goods has_cost cost h,
          resolve_credit db.accounts org inventory has_stock cost h,
          resolve_lines,
        ))
        (eq_of_parts _ _ (omega int_laws)))
