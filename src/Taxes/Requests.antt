-- ===== src/Taxes/Requests.antt =====
-- The requests to the withheld taxes, the receipts and the credit notes, served one after another.
use biz360_sme_erp_e_tims.Base.{
  ℕ, suc, ◌≡◌, refl, Option-cases, none, List, [], ◌∷◌, All, All-map, find, ◌==◌, Bool-cases, inl,
  inr, arith,
}
use biz360_sme_erp_e_tims.Base.Int.{ℤ, pos, ◌≤ℤ◌, int_laws}
use biz360_sme_erp_e_tims.Result.{Result-cases}
use biz360_sme_erp_e_tims.Store.{Payment, Db}
use biz360_sme_erp_e_tims.Taxes.{Deduction, SupplierNote, Taxes}
use biz360_sme_erp_e_tims.Taxes.Rates.{RateDto, upsert_rate}
use biz360_sme_erp_e_tims.Taxes.Withholding.{
  Calendar, issue_certificate, record_deduction, remittance_summary,
}
use biz360_sme_erp_e_tims.Taxes.Suppliers.{
  ReceiptDto, supplier_or_throw, create_receipt, insert_receipt, has_receipt_number, is_receipt,
  is_purchase, match_receipt, match_transaction,
}
use biz360_sme_erp_e_tims.Taxes.Credits.{
  NoteDto, MatchNoteDto, supplier_note_row, has_note_number, create_supplier_note, match_note,
}
use biz360_sme_erp_e_tims.Taxes.Shares.{Divides}
use biz360_sme_erp_e_tims.Taxes.Offsets.{Covers, OffsetsFit, remittable_pos}
use biz360_sme_erp_e_tims.Taxes.Matching.{match_note-OffsetsFit}
use biz360_sme_erp_e_tims.Taxes.Fits.{
  fit_kept, later-IsTax, later-IsNote, are_new, upsert_rate-OffsetsFit, record_deduction-OffsetsFit,
  issue_certificate-OffsetsFit,
}

-- A request of an organization, with the rows of the other components that it finds, or time passes.
pub data Request : Type 0 where
  sets_rate : ℕ → RateDto → Request
  records : Db → ℕ → ℕ → Request
  certifies : ℕ → ℕ → Request
  adds_receipt : Db → ℕ → ReceiptDto → Request
  matches_receipt : Db → ℕ → ℕ → ℕ → Request
  adds_note : Db → ℕ → NoteDto → Request
  matches_note : Db → ℕ → ℕ → MatchNoteDto → Request
  passes : ℕ → Request

module _ (quotient : ℤ → ℤ → ℕ × ℕ) (c : Calendar) where
  unfoldable pub serve : Request → Taxes → Taxes
  serve (sets_rate org dto) st = upsert_rate org dto st
  serve (records db org payment) st = (record_deduction db org payment st).1
  serve (certifies org id) st = (issue_certificate c org id st).1
  serve (adds_receipt db org dto) st = (create_receipt db org dto st).1
  serve (matches_receipt db org id purchase) st = (match_receipt db org id purchase st).1
  serve (adds_note db org dto) st = (create_supplier_note db org dto st).1
  serve (matches_note db org id dto) st = (match_note quotient db org id dto st).1
  serve (passes t) st = record st { now = t }

  unfoldable pub serve_all : List Request → Taxes → Taxes
  unfolding serve
  serve_all [] st = st
  serve_all (r ∷ rs) st = serve_all rs (serve r st)

-- The payments that a request records a deduction of are not negative.
abbrev pub IsPaying : Request → Type 0
IsPaying (records db org payment) = All (λ (p : Payment). pos 0 ≤ℤ p.amount) db.payments
IsPaying _ = Unit

create_receipt-OffsetsFit :
    (db : Db) (org : ℕ) (dto : ReceiptDto) (st : Taxes)
    → OffsetsFit st
    → OffsetsFit (create_receipt db org dto st).1
unfolding create_receipt insert_receipt
create_receipt-OffsetsFit db org dto st fit =
    elim (Result-cases (supplier_or_throw org dto.supplier_id db)) [
      | inr (e, refused) ↦ rw (refused, create_receipt) fit
      | inl (p, there) ↦
          rw (there, create_receipt)
            (elim (Option-cases (find (has_receipt_number org dto.number) st.receipts)) [
              | inr (d, taken) ↦ rw taken fit
              | inl new ↦ rw new (fit_kept st _ (omega arith) refl refl fit)
            ])
    ]

match_receipt-OffsetsFit :
    (db : Db) (org id purchase : ℕ) (st : Taxes)
    → OffsetsFit st
    → OffsetsFit (match_receipt db org id purchase st).1
unfolding match_receipt match_transaction
match_receipt-OffsetsFit db org id purchase st fit =
    elim (Option-cases (find (is_receipt org id) st.receipts)) [
      | inl missing ↦ rw (missing, match_receipt) fit
      | inr (r, there) ↦
          rw (there, match_receipt)
            (elim (Option-cases (find (is_purchase org purchase) db.purchases)) [
              | inl missing ↦ rw missing fit
              | inr (p, found) ↦ rw found (elim (Bool-cases (p.party_id == r.supplier_id)) [
                | inr foreign ↦ rw foreign fit
                | inl own ↦ rw own (fit_kept st _ (omega arith) refl refl fit)
              ])
            ])
    ]

-- A new note offsets nothing.
Covers-new :
    (n : SupplierNote) (d : Deduction) (ns : List SupplierNote)
    → n.offset ≡ none
    → Covers ns d
    → Covers (n ∷ ns) d
Covers-new n d ns e h = rw e (omega (int_laws, h))

create_note-OffsetsFit :
    (db : Db) (org : ℕ) (dto : NoteDto) (st : Taxes)
    → OffsetsFit st
    → OffsetsFit (create_supplier_note db org dto st).1
unfolding create_supplier_note
create_note-OffsetsFit db org dto st fit =
    elim (Result-cases (supplier_or_throw org dto.supplier_id db)) [
      | inr (e, refused) ↦ rw (refused, create_supplier_note) fit
      | inl (p, there) ↦
          rw (there, create_supplier_note)
            (elim (Option-cases (find (has_note_number org dto.number) st.notes)) [
              | inr (d, taken) ↦ rw taken fit
              | inl new ↦ rw new record {
                taxes =
                    later-IsTax st.next_id (suc st.next_id) st.deductions (omega arith) fit.taxes;
                notes = (
                  (omega arith, tt),
                  later-IsNote st.next_id (suc st.next_id) st.notes (omega arith) fit.notes,
                );
                apart = (
                  are_new (λ (n : SupplierNote). n.id) st.next_id st.notes
                      (All-map _ _ (λ n t. t.0) st.notes fit.notes),
                  fit.apart,
                );
                taxes_apart = fit.taxes_apart;
                covers =
                    All-map _ _
                      (λ d h. Covers-new (supplier_note_row org st.next_id dto) d st.notes refl h)
                      st.deductions fit.covers;
              }
            ])
    ]

module _ (quotient : ℤ → ℤ → ℕ × ℕ) (c : Calendar) (division : Divides quotient) where
  serve-OffsetsFit :
      (r : Request) (st : Taxes) → IsPaying r → OffsetsFit st → OffsetsFit (serve quotient c r st)
  unfolding serve
  serve-OffsetsFit (sets_rate org dto) st h fit = upsert_rate-OffsetsFit org dto st fit
  serve-OffsetsFit (records db org payment) st h fit =
      record_deduction-OffsetsFit db org payment st h fit
  serve-OffsetsFit (certifies org id) st h fit = issue_certificate-OffsetsFit c org id st fit
  serve-OffsetsFit (adds_receipt db org dto) st h fit = create_receipt-OffsetsFit db org dto st fit
  serve-OffsetsFit (matches_receipt db org id k) st h fit =
      match_receipt-OffsetsFit db org id k st fit
  serve-OffsetsFit (adds_note db org dto) st h fit = create_note-OffsetsFit db org dto st fit
  serve-OffsetsFit (matches_note db org id dto) st h fit =
      match_note-OffsetsFit quotient division db org id dto st fit
  serve-OffsetsFit (passes t) st h fit = fit_kept st _ (omega arith) refl refl fit

  serve_all-OffsetsFit :
      (rs : List Request) (st : Taxes)
      → All IsPaying rs
      → OffsetsFit st
      → OffsetsFit (serve_all quotient c rs st)
  unfolding serve_all serve
  serve_all-OffsetsFit [] st h fit = fit
  serve_all-OffsetsFit (r ∷ rs) st h fit =
      serve_all-OffsetsFit rs (serve quotient c r st) h.1 (serve-OffsetsFit r st h.0 fit)

  -- Whatever requests are served, one after another, to a state with ids that are given out and
  -- unique, in which no offset is negative and the credit notes take no more off a tax than was
  -- withheld: what is left to remit, of any organization and any time, is not negative, where
  -- payments are not negative and a quotient of a number by a larger one, or by itself, is no more
  -- than one.
  pub remittable_after :
      (rs : List Request) (st : Taxes) (org from to : ℕ)
      → All IsPaying rs
      → OffsetsFit st
      → pos 0 ≤ℤ (remittance_summary org from to (serve_all quotient c rs st)).remittable
  remittable_after rs st org from to h fit =
      remittable_pos org from to (serve_all quotient c rs st) (serve_all-OffsetsFit rs st h fit)
