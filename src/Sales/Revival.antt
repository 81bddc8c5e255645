-- ===== src/Sales/Revival.antt =====
-- A payment of modules/sales/sales.service.ts that has read its invoice before a void committed.
use biz360_sme_erp_e_tims.Base.{
  inl, inr, ℕ, Bool, Bool-cases, true, false, ◌&&◌, ◌≡◌, ◌≢◌, refl, some, List, [], ◌∷◌, find,
  count_where, arith,
}
use biz360_sme_erp_e_tims.Base.Int.{ℤ, pos, ◌≤ℤ◌, ◌==ℤ◌}
use biz360_sme_erp_e_tims.Store.{Account, Invoice, InvoiceStatus, Payment, SourceType, Db}
use biz360_sme_erp_e_tims.Result.{Result, ok, err}
use biz360_sme_erp_e_tims.Store.Keeps.{After}
use biz360_sme_erp_e_tims.Store.Succeeds.{is_ok}
use biz360_sme_erp_e_tims.Ledger.{is_account, already_posted, document}
use biz360_sme_erp_e_tims.Ledger.Documents.{cash, receivable, sale_payment_lines}
use biz360_sme_erp_e_tims.Sales.Draft.{is_invoice}
use biz360_sme_erp_e_tims.Sales.Lifecycle.{is_payable, pay_read}
use biz360_sme_erp_e_tims.Sales.Outcome.{HasRow, RowIs}
use biz360_sme_erp_e_tims.Sales.Settlement.{IsSettledAs, pay_read-Leads}
use biz360_sme_erp_e_tims.Sales.Progress.{pay_read-ok}

module _ {A : Type 0} (p q : A → Bool) where
  count_neither : (xs : List A) → count_where p xs ≡ 0 → count_where (λ x. p x && q x) xs ≡ 0
  count_neither [] h = refl
  count_neither (x ∷ xs) h = elim (Bool-cases (p x)) [
    | inl t ↦ absurd (ground (arith, h, t))
    | inr f ↦
        let rest : count_where p xs ≡ 0 = ground (arith, h, f) in rw (f, count_neither xs rest) refl
  ]

  -- The only element that passes the first test, and the second one too, is the only one of both.
  count_both :
      (v : A) (xs : List A)
      → find p xs ≡ some v
      → count_where p xs ≡ 1
      → q v ≡ true
      → count_where (λ x. p x && q x) xs ≡ 1
  count_both v [] e h k = cc
  count_both v (x ∷ xs) e h k = elim (Bool-cases (p x)) [
    | inr f ↦
        let e' : find p xs ≡ some v = rw f at e in
        let h' : count_where p xs ≡ 1 = ground (arith, h, f) in rw (f, count_both v xs e' h' k) refl
    | inl t ↦
        let same : x ≡ v = ground (arith, e, t) in
        let rest : count_where p xs ≡ 0 = ground (arith, h, t) in
        rw (t, same, k, count_neither xs rest) refl
  ]

succeeded :
    {A : Type 0} (P : Db → Type 0) (r : Result (A × Db))
    → is_ok r ≡ true
    → After P r
    → (a : A) × (d : Db) × (r ≡ ok (a, d)) × P d
succeeded P (ok (a, d)) h k = (a, d, refl, k)
succeeded P (err e) h k = cc

same_amount : (a b : ℤ) → a ≡ b → (a ==ℤ b) ≡ true
same_amount a b h = ground (arith, h)

IsSettledAs-not_void : (p t : ℤ) (s : InvoiceStatus) → IsSettledAs p t s → s ≢ InvoiceStatus.void
IsSettledAs-not_void p t s (inl h) q = ground (arith, h.0)
IsSettledAs-not_void p t s (inr h) q = ground (arith, h.0)

-- Where a payment of at least a cent has read its invoice while it was payable, and the row of the
-- invoice, the only one of its id, is void since and has the amount paid that was read, and the
-- organization has accounts for cash and receivables and no entry for the next id as a payment:
-- the payment succeeds, and the row of the invoice has a status that is not void afterwards.
pub pay_revives_void :
    (org id : ℕ) (amount : ℤ) (inv v : Invoice) (db : Db) {c ar : Account}
    → pos 1 ≤ℤ amount
    → is_payable inv.status ≡ true
    → HasRow org id v db.sales
    → count_where (is_invoice org id) db.sales ≡ 1
    → v.status ≡ InvoiceStatus.void
    → v.amount_paid ≡ inv.amount_paid
    → find (is_account org cash) db.accounts ≡ some c
    → find (is_account org receivable) db.accounts ≡ some ar
    → already_posted org
        (document SourceType.sale_payment db.next_id (sale_payment_lines amount))
        db.entries
      ≡ false
    → (p : Payment) × (d : Db) × (pay_read org id amount inv db ≡ ok (p, d))
      × RowIs org id (λ i. i.status ≢ InvoiceStatus.void) d.sales
pay_revives_void org id amount inv v db h payable row only void same has_cash has_ar new =
    let one =
      count_both (is_invoice org id) (λ i. i.amount_paid ==ℤ inv.amount_paid) v db.sales row only
        (same_amount v.amount_paid inv.amount_paid same) in
    let (p, d, done, settled) =
      succeeded _ (pay_read org id amount inv db)
        (pay_read-ok org id amount inv db h payable one has_cash has_ar new)
        ((pay_read-Leads org id amount inv v same).run db row) in
    (p, d, done, (settled.0, settled.1, IsSettledAs-not_void _ _ _ settled.2.1))
