-- ===== src/Quotations/Contract.antt =====
-- About expiring and converting a quotation.
use biz360_sme_erp_e_tims.Base.{
  ℕ, suc, ◌≤◌, Bool, true, false, ◌≡◌, refl, ◌∙◌, some, List, ◌∷◌, find, find_passes,
  find-update_any, update_where, count_where, arith,
}
use biz360_sme_erp_e_tims.Base.Int.{pos}
use biz360_sme_erp_e_tims.Result.{ok, err, conflict, expired}
use biz360_sme_erp_e_tims.Store.{
  Invoice, InvoiceStatus, Quotation, QuotationStatus, Db, ◌>>=◌, ◌>>◌, throw_if, transact, run,
  pure,
}
use biz360_sme_erp_e_tims.Quotations.{
  is_quotation, is_quote_in, is_expirable, is_past, with_quote_status, link_invoice, has_quote_id,
  expire_rows, flip_quote, send_quote, accept_quote, convert_accepted, convert_read, convert_quote,
  insert_invoice_of, invoice_of,
}
use biz360_sme_erp_e_tims.Quotations.Expiry.{unless_past-past, unless_past-live}
use biz360_sme_erp_e_tims.Quotations.Moves.{HasQuote}

-- The row found is as `P` says.
abbrev pub QuoteIs : ℕ → ℕ → (Quotation → Type 0) → Db → Type 0
QuoteIs org id P db = (q : Quotation) × HasQuote org id q db × P q

past_of :
    (now t : ℕ) (q : Quotation)
    → q.valid_until ≡ some t
    → t ≤ now
    → is_expirable q.status ≡ true
    → is_past now q ≡ true
past_of now t q e h live = ground arith

expire_row_found :
    (org id : ℕ) (q : Quotation) (db : Db)
    → HasQuote org id q db
    → HasQuote org id (with_quote_status QuotationStatus.expired q) (expire_rows org id q.status db)
unfolding expire_rows
expire_row_found org id q db has = ground (
  arith,
  find-update_any (is_quotation org id) (is_quote_in org id q.status)
      (with_quote_status QuotationStatus.expired) (λ y. refl) q db.quotations has,
  find_passes (is_quotation org id) db.quotations has,
)

-- A quotation whose last moment is not after the clock, and that is a draft, sent or accepted, is
-- neither sent nor accepted nor converted: each of the three methods throws, leaves the row expired
-- all the same, and makes no invoice.
past_expires :
    (org id t : ℕ) (q : Quotation) (db : Db)
    → HasQuote org id q db
    → q.valid_until ≡ some t
    → t ≤ db.now
    → is_expirable q.status ≡ true
    → (d : Db) × HasQuote org id (with_quote_status QuotationStatus.expired q) d
      × (d.sales ≡ db.sales)
      × (send_quote org id db ≡ (err (conflict expired), d))
      × (accept_quote org id db ≡ (err (conflict expired), d))
      × (convert_quote org id db ≡ (err (conflict expired), d))
unfolding send_quote accept_quote convert_quote expire_rows
past_expires org id t q db has e h live =
    let past : is_past db.now q ≡ true = past_of db.now t q e h live in
    (
      expire_rows org id q.status db,
      expire_row_found org id q db has,
      refl,
      unless_past-past org id q _ db has past,
      unless_past-past org id q _ db has past,
      unless_past-past org id q _ db has past,
    )

-- The invoice has the terms of the quotation.
pub record IsCopy (q : Quotation) (i : Invoice) : Type 0 where
  pub party : i.party_id ≡ q.party_id
  pub date : i.invoice_date ≡ q.quote_date
  pub subtotal : i.subtotal ≡ q.subtotal
  pub discount : i.discount_total ≡ q.discount_total
  pub tax : i.tax_total ≡ q.tax_total
  pub total : i.total ≡ q.total
  pub lines : i.lines ≡ q.lines
  pub status : i.status ≡ InvoiceStatus.draft
  pub paid : i.amount_paid ≡ pos 0

pub flipped_row :
    (org id : ℕ) (q : Quotation) (db : Db)
    → HasQuote org id q db
    → q.status ≡ QuotationStatus.accepted
    → HasQuote org id (with_quote_status QuotationStatus.converted q) (record db {
      quotations =
          update_where
            (is_quote_in org id QuotationStatus.accepted)
            (with_quote_status QuotationStatus.converted)
            db.quotations;
    })
flipped_row org id q db has e = ground (
  arith,
  find-update_any (is_quotation org id) (is_quote_in org id QuotationStatus.accepted)
      (with_quote_status QuotationStatus.converted) (λ y. refl) q db.quotations has,
  find_passes (is_quotation org id) db.quotations has,
  e,
)

pub linked_row :
    (org id k : ℕ) (q : Quotation) (qs : List Quotation)
    → find (is_quotation org id) qs ≡ some q
    → find (is_quotation org id) (update_where (has_quote_id id) (link_invoice k) qs)
      ≡ some (link_invoice k q)
linked_row org id k q qs has = ground (
  arith,
  find-update_any (is_quotation org id) (has_quote_id id) (link_invoice k) (λ y. refl) q qs has,
  find_passes (is_quotation org id) qs has,
)

-- The database after the conversion.
abbrev converted_db : ℕ → ℕ → Quotation → Db → Db
converted_db org id q db =
    let d : Db =
      (insert_invoice_of org q (record db {
        quotations =
            update_where (is_quote_in org id QuotationStatus.accepted)
              (with_quote_status QuotationStatus.converted) db.quotations;
      })).1 in
    record d { quotations = update_where (has_quote_id id) (link_invoice db.next_id) d.quotations }

flip_quote-ok :
    (p : Quotation → Bool) (s : QuotationStatus) (db : Db)
    → count_where p db.quotations ≡ 1
    → flip_quote p s db
      ≡ ok (tt, record db { quotations = update_where p (with_quote_status s) db.quotations })
unfolding flip_quote run
flip_quote-ok p s db one = ground (arith, one)

convert_accepted_runs :
    (org id : ℕ) (q : Quotation) (db : Db)
    → HasQuote org id q db
    → q.status ≡ QuotationStatus.accepted
    → count_where (is_quote_in org id QuotationStatus.accepted) db.quotations ≡ 1
    → convert_accepted org id db
      ≡ ok (invoice_of db.next_id org (suc (db.sale_seq org)) q, converted_db org id q db)
unfolding convert_accepted convert_read run pure insert_invoice_of
convert_accepted_runs org id q db has e one =
    rw (has, e, ◌>>=◌, ◌>>◌, throw_if, flip_quote-ok _ QuotationStatus.converted db one) refl

-- An accepted quotation that is not past, and whose row is the only one that the compare-and-set
-- meets, is converted: one draft invoice is added, unpaid, with the party, the date, the totals and
-- the lines of the quotation, under the next number of the sales, and the row of the quotation is
-- converted and refers to it.
pub convert_quote_copies :
    (org id : ℕ) (q : Quotation) (db : Db)
    → HasQuote org id q db
    → q.status ≡ QuotationStatus.accepted
    → is_past db.now q ≡ false
    → count_where (is_quote_in org id QuotationStatus.accepted) db.quotations ≡ 1
    → (i : Invoice) × (d : Db) × (convert_quote org id db ≡ (ok i, d))
      × IsCopy q i
      × (d.sales ≡ i ∷ db.sales)
      × (i.number ≡ suc (db.sale_seq org))
      × (d.sale_seq org ≡ i.number)
      × QuoteIs org id
          (λ r. (r.status ≡ QuotationStatus.converted) × (r.converted_to ≡ some i.id))
          d
unfolding convert_quote transact insert_invoice_of
convert_quote_copies org id q db has e live one = (
  invoice_of db.next_id org (suc (db.sale_seq org)) q,
  converted_db org id q db,
  unless_past-live org id q _ db has live
      ∙ rw (convert_accepted_runs org id q db has e one, transact) refl,
  record {
    party = refl;
    date = refl;
    subtotal = refl;
    discount = refl;
    tax = refl;
    total = refl;
    lines = refl;
    status = refl;
    paid = refl;
  },
  refl,
  refl,
  ground arith,
  (
    link_invoice db.next_id (with_quote_status QuotationStatus.converted q),
    linked_row org id db.next_id _ _ (flipped_row org id q db has e),
    (refl, refl),
  ),
)
