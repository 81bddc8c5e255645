-- ===== src/Sales/Settlement.antt =====
-- About the row of the invoice after a payment.
use biz360_sme_erp_e_tims.Base.{
  inl, inr, ◌⊎◌, Bool-cases, ℕ, true, ◌≡◌, refl, find-update_where, arith,
}
use biz360_sme_erp_e_tims.Base.Int.{ℤ, ◌≤ℤ◌, leb_ℤ, pos, ◌+ℤ◌, ◌==ℤ◌}
use biz360_sme_erp_e_tims.Store.{Invoice, InvoiceStatus}
use biz360_sme_erp_e_tims.Store.Keeps.{Keeps-gets, Keeps-throw_if, keeps_rules}
use biz360_sme_erp_e_tims.Store.Leads.{
  Leads, Leads-first, Leads-first_then, Leads-last_then, Leads-guard, Leads-modify,
}
use biz360_sme_erp_e_tims.Ledger.Documents.{post_sale_payment}
use biz360_sme_erp_e_tims.Sales.Draft.{is_invoice}
use biz360_sme_erp_e_tims.Sales.Lifecycle.{
  has_paid, pay_row, paid_status, is_payable, update_one_sale, pay_read,
}
use biz360_sme_erp_e_tims.Sales.Outcome.{
  OfSales, HasRow, RowIs, found-is_invoice, post-Keeps, fresh-Keeps, payment-Keeps,
}

is_invoice_of_paid :
    (org id : ℕ) (v : ℤ) (j : Invoice) → has_paid org id v j ≡ true → is_invoice org id j ≡ true
is_invoice_of_paid org id v j h = ground arith

-- Paid if what was paid reaches the total, and partially paid if not.
abbrev pub IsSettledAs : ℤ → ℤ → InvoiceStatus → Type 0
IsSettledAs p t s =
    ((s ≡ InvoiceStatus.paid) × (t ≤ℤ p)) ⊎ ((s ≡ InvoiceStatus.partially_paid) × (p +ℤ pos 1 ≤ℤ t))

paid_status-IsSettledAs : (p t : ℤ) → IsSettledAs p t (paid_status p t)
unfolding ◌+ℤ◌
paid_status-IsSettledAs p t = elim (Bool-cases (leb_ℤ t p)) [
  | inl reached ↦ inl (rw reached, ground arith)
  | inr under ↦ inr (rw under, ground arith)
]

-- The row `v` with the amount added to what the row that was read had been paid.
abbrev pub IsPaid : Invoice → Invoice → ℤ → Invoice → Type 0
IsPaid v inv amount i =
    (i.amount_paid ≡ v.amount_paid +ℤ amount)
    × IsSettledAs (v.amount_paid +ℤ amount) inv.total i.status
    × (i.total ≡ v.total)
    × (is_payable inv.status ≡ true)

eq-test_ℤ : (a b : ℤ) → a ≡ b → (a ==ℤ b) ≡ true
eq-test_ℤ a b h = ground arith

pay_row-Leads :
    (org id : ℕ) (amount : ℤ) (inv v : Invoice)
    → is_payable inv.status ≡ true
    → v.amount_paid ≡ inv.amount_paid
    → Leads (OfSales (HasRow org id v)) (OfSales (RowIs org id (IsPaid v inv amount))) (
        update_one_sale
          (has_paid org id inv.amount_paid)
          (pay_row (inv.amount_paid +ℤ amount) (paid_status (inv.amount_paid +ℤ amount) inv.total)))
unfolding update_one_sale
pay_row-Leads org id amount inv v payable same = Leads-first _ _ (Keeps-gets _ _) (λ n.
    Leads-first_then _ _ (Keeps-throw_if _ _ _) (
      Leads-modify _ _ _ (λ db h. (
        pay_row (inv.amount_paid +ℤ amount) (paid_status (inv.amount_paid +ℤ amount) inv.total) v,
        find-update_where (is_invoice org id) (has_paid org id inv.amount_paid)
            (pay_row (inv.amount_paid +ℤ amount)
              (paid_status (inv.amount_paid +ℤ amount) inv.total))
            v db.sales (is_invoice_of_paid org id inv.amount_paid)
            (is_invoice_of_paid org id inv.amount_paid)
            (ground (
              arith,
              found-is_invoice org id v db.sales h,
              eq-test_ℤ v.amount_paid inv.amount_paid same,
            ))
            h,
        (
          rw same,
          rw same (paid_status-IsSettledAs (inv.amount_paid +ℤ amount) inv.total),
          refl,
          payable,
        ),
      ))))

-- From a row that was read to the row that is there when the payment is written.
pub pay_read-Leads :
    (org id : ℕ) (amount : ℤ) (inv v : Invoice)
    → v.amount_paid ≡ inv.amount_paid
    → Leads
        (OfSales (HasRow org id v))
        (OfSales (RowIs org id (IsPaid v inv amount)))
        (pay_read org id amount inv)
unfolding pay_read post_sale_payment
pay_read-Leads org id amount inv v same = Leads-guard _ _ _ _ λ g.
    Leads-first _ _ (fresh-Keeps (HasRow org id v)) λ k.
      Leads-first_then _ _ (payment-Keeps (HasRow org id v) _) (
        Leads-last_then _ _ (pay_row-Leads org id amount inv v (ground (arith, g)) same)
          (search (keeps_rules, post-Keeps) depth 10))
