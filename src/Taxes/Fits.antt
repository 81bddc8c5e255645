-- ===== src/Taxes/Fits.antt =====
-- Requests to the withheld taxes, the receipts and the credit notes: each keeps the offsets within
-- the taxes.
use biz360_sme_erp_e_tims.Base.{
  ℕ, suc, ◌<◌, ◌≤◌, Bool, true, false, ◌≡◌, refl, Option, Option-cases, none, some, List, [], ◌∷◌,
  ◌==◌, All, All-map, All-find, All-update_where, find, update_where, keep_where, sum_of,
  if◌then◌else◌, Bool-cases, inl, inr, arith,
}
use biz360_sme_erp_e_tims.Base.Int.{ℤ, pos, negsuc, ◌≤ℤ◌, int_laws}
use biz360_sme_erp_e_tims.Result.{Result-cases, ok}
use biz360_sme_erp_e_tims.Store.{Payment, Db}
use biz360_sme_erp_e_tims.Taxes.{
  PaymentType, Residency, TaxRate, Certificate, Deduction, SupplierNote, Taxes,
}
use biz360_sme_erp_e_tims.Taxes.Rates.{
  RateDto, resolve_rate, upsert_rate, insert_rate, is_rate_at, latest,
}
use biz360_sme_erp_e_tims.Taxes.Withholding.{
  Calendar, is_payment, is_deduction, is_deduction_of, has_deduction_id, with_certificate,
  issue_certificate, withheld_of, deduction_row, record_deduction, insert_deduction,
  supplier_payment,
}
use biz360_sme_erp_e_tims.Taxes.Shares.{withheld_pos}
use biz360_sme_erp_e_tims.Taxes.Offsets.{
  offset_of, IsOffset, IsNote, IsTax, Covers, OffsetsFit, AreApart-update_where,
}

later-IsOffset : (a b : ℕ) (o : Option (ℕ × ℤ)) → a ≤ b → IsOffset a o → IsOffset b o
later-IsOffset a b none h k = tt
later-IsOffset a b (some (i, x)) h k = (omega (arith, k.0), k.1)

pub later-IsNote :
    (a b : ℕ) (ns : List SupplierNote) → a ≤ b → All (IsNote a) ns → All (IsNote b) ns
later-IsNote a b ns h k =
    All-map _ _ (λ n t. (omega (arith, t.0), later-IsOffset a b n.offset h t.1)) ns k

pub later-IsTax : (a b : ℕ) (ds : List Deduction) → a ≤ b → All (IsTax a) ds → All (IsTax b) ds
later-IsTax a b ds h k = All-map _ _ (λ d t. (omega (arith, t.0), t.1)) ds k

-- A change that keeps the taxes and the notes, and gives out ids, keeps the offsets within the taxes.
pub fit_kept :
    (st st' : Taxes)
    → st.next_id ≤ st'.next_id
    → st'.deductions ≡ st.deductions
    → st'.notes ≡ st.notes
    → OffsetsFit st
    → OffsetsFit st'
fit_kept st st' h d n fit = record {
  taxes = rw d (later-IsTax st.next_id st'.next_id st.deductions h fit.taxes);
  notes = rw n (later-IsNote st.next_id st'.next_id st.notes h fit.notes);
  apart = rw n fit.apart;
  taxes_apart = rw d fit.taxes_apart;
  covers = rw (d, n) fit.covers;
}

pub are_new :
    {A : Type 0} (id : A → ℕ) (next : ℕ) (xs : List A)
    → All (λ x. id x < next) xs
    → All (λ x. (id x == next) ≡ false) xs
are_new id next xs h = All-map _ _ (λ x k. ground (arith, k)) xs h

not_yet :
    (d : Deduction) (n : SupplierNote) (next : ℕ) (o : Option (ℕ × ℤ))
    → d.id ≡ next
    → n.offset ≡ o
    → IsOffset next o
    → offset_of d n ≡ pos 0
not_yet d n next none same e h = rw e refl
not_yet d n next (some (k, a)) same e h =
    let differs : (d.id == k) ≡ false = ground (arith, h.0, same) in ground (arith, e, differs)

-- No note takes anything off a tax that is only now recorded.
none_of_new :
    (d : Deduction) (next : ℕ) (ns : List SupplierNote)
    → d.id ≡ next
    → All (IsNote next) ns
    → sum_of (offset_of d) ns ≡ pos 0
none_of_new d next [] same h = refl
none_of_new d next (n ∷ ns) same h =
    rw (not_yet d n next n.offset same refl h.0.1, none_of_new d next ns same h.1) (omega int_laws)

insert_deduction-OffsetsFit :
    (d : Deduction) (st : Taxes)
    → d.id ≡ st.next_id
    → pos 0 ≤ℤ d.withheld
    → OffsetsFit st
    → OffsetsFit (insert_deduction d st)
unfolding insert_deduction
insert_deduction-OffsetsFit d st same h fit = record {
  taxes = (
    (omega (arith, same), h),
    later-IsTax st.next_id (suc st.next_id) st.deductions (omega arith) fit.taxes,
  );
  notes = later-IsNote st.next_id (suc st.next_id) st.notes (omega arith) fit.notes;
  apart = fit.apart;
  taxes_apart = (
    rw same (
        are_new (λ (x : Deduction). x.id) st.next_id st.deductions
          (All-map _ _ (λ x t. t.0) st.deductions fit.taxes)),
    fit.taxes_apart,
  );
  covers = (rw (none_of_new d st.next_id st.notes same fit.notes) h, fit.covers);
}

pub upsert_rate-OffsetsFit :
    (org : ℕ) (dto : RateDto) (st : Taxes) → OffsetsFit st → OffsetsFit (upsert_rate org dto st)
unfolding upsert_rate insert_rate
upsert_rate-OffsetsFit org dto st fit = elim (Bool-cases dto.defaults) [
  | inr f ↦ rw (f, upsert_rate) (fit_kept st (insert_rate org dto st) (omega arith) refl refl fit)
  | inl t ↦
      rw (t, upsert_rate)
        (elim (Option-cases (latest (keep_where (is_rate_at org dto st.now) st.rates))) [
          | inl missing ↦
              rw missing (fit_kept st (insert_rate org dto st) (omega arith) refl refl fit)
          | inr (x, there) ↦ rw there (fit_kept st _ (omega arith) refl refl fit)
        ])
]

payment_pos :
    (db : Db) (org id : ℕ) (p : Payment)
    → All (λ (q : Payment). pos 0 ≤ℤ q.amount) db.payments
    → supplier_payment org id db ≡ ok p
    → pos 0 ≤ℤ p.amount
unfolding supplier_payment
payment_pos db org id p h e = elim (Option-cases (find (is_payment org id) db.payments)) [
  | inl missing ↦ absurd (ground (arith, missing, e))
  | inr (q, there) ↦
      let same : q ≡ p = ground (arith, there, e) in
      rw (← same)
        (All-find (λ (q : Payment). pos 0 ≤ℤ q.amount) (is_payment org id) db.payments h there).0
]

taxed_pos : (g : ℤ) (percent : ℕ) → pos 0 ≤ℤ g → pos 0 ≤ℤ withheld_of g percent
taxed_pos (pos n) percent h = withheld_pos n percent
taxed_pos (negsuc n) percent h = absurd (omega arith)

row_id :
    (org : ℕ) (p : Payment) (x : TaxRate) (st : Taxes) → (deduction_row org p x st).id ≡ st.next_id
unfolding deduction_row
row_id org p x st = refl

row-pos :
    (org : ℕ) (p : Payment) (x : TaxRate) (st : Taxes)
    → pos 0 ≤ℤ p.amount
    → pos 0 ≤ℤ (deduction_row org p x st).withheld
unfolding deduction_row
row-pos org p x st h = taxed_pos p.amount x.percent h

pub record_deduction-OffsetsFit :
    (db : Db) (org payment : ℕ) (st : Taxes)
    → All (λ (q : Payment). pos 0 ≤ℤ q.amount) db.payments
    → OffsetsFit st
    → OffsetsFit (record_deduction db org payment st).1
unfolding record_deduction
record_deduction-OffsetsFit db org payment st h fit =
    elim (Result-cases (supplier_payment org payment db)) [
      | inr (e, refused) ↦ rw (refused, record_deduction) fit
      | inl (p, there) ↦
          rw (there, record_deduction)
            (elim (Option-cases (find (is_deduction_of org p.id) st.deductions)) [
              | inr (d, again) ↦ rw again fit
              | inl new ↦
                  rw new
                    (elim (Result-cases (
                      resolve_rate org PaymentType.professional_fees Residency.resident st.now
                        st)) [
                          | inr (e, refused) ↦ rw refused fit
                          | inl (rate, found) ↦ rw found (
                              insert_deduction-OffsetsFit (deduction_row org p rate st) st
                                (row_id org p rate st)
                                (row-pos org p rate st (payment_pos db org payment p h there)) fit)
                        ])
            ])
    ]

same-IsTax :
    (b : Bool) (n : Certificate) (d : Deduction) (next : ℕ)
    → IsTax next d
    → IsTax next (if b then with_certificate n d else d)
same-IsTax true n d next h = h
same-IsTax false n d next h = h

same-Covers :
    (b : Bool) (n : Certificate) (d : Deduction) (ns : List SupplierNote)
    → Covers ns d
    → Covers ns (if b then with_certificate n d else d)
same-Covers true n d ns h = h
same-Covers false n d ns h = h

certified-OffsetsFit :
    (k : ℕ) (n : Certificate) (st : Taxes)
    → OffsetsFit st
    → OffsetsFit record st {
      deductions = update_where (has_deduction_id k) (with_certificate n) st.deductions;
    }
certified-OffsetsFit k n st fit = record {
  taxes =
      All-update_where (IsTax st.next_id) (IsTax st.next_id) (has_deduction_id k)
        (with_certificate n) (λ d h. same-IsTax (d.id == k) n d st.next_id h) st.deductions
        fit.taxes;
  notes = fit.notes;
  apart = fit.apart;
  taxes_apart =
      AreApart-update_where (λ (d : Deduction). d.id) (has_deduction_id k) (with_certificate n)
        st.deductions (λ d. refl) fit.taxes_apart;
  covers =
      All-update_where (Covers st.notes) (Covers st.notes) (has_deduction_id k) (with_certificate n)
        (λ d h. same-Covers (d.id == k) n d st.notes h) st.deductions fit.covers;
}

pub issue_certificate-OffsetsFit :
    (c : Calendar) (org id : ℕ) (st : Taxes)
    → OffsetsFit st
    → OffsetsFit (issue_certificate c org id st).1
unfolding issue_certificate
issue_certificate-OffsetsFit c org id st fit =
    elim (Option-cases (find (is_deduction org id) st.deductions)) [
      | inl missing ↦ rw (missing, issue_certificate) fit
      | inr (d, there) ↦
          rw (there, issue_certificate)
            (elim (Option-cases d.certificate) [
              | inr (n, again) ↦ rw again fit
              | inl new ↦ rw new (certified-OffsetsFit d.id _ st fit)
            ])
    ]
