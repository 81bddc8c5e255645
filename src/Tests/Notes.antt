-- ===== src/Tests/Notes.antt =====
-- A credit note of one of the item against the paid invoice of three.
use biz360_sme_erp_e_tims.Base.{refl, some, [], ◌∷◌, arith}
use biz360_sme_erp_e_tims.Base.Int.{pos}
use biz360_sme_erp_e_tims.Document.{ComputedLine}
use biz360_sme_erp_e_tims.Store.{InvoiceStatus, CreditNoteStatus, CreditNote, Db}
use biz360_sme_erp_e_tims.Store.Keeps.{After}
use biz360_sme_erp_e_tims.Sales.Draft.{stored_line}
use biz360_sme_erp_e_tims.Sales.Outcome.{OfSales, RowIs}
use biz360_sme_erp_e_tims.CreditNotes.{issue_note}
use biz360_sme_erp_e_tims.CreditNotes.Unwind.{IsTakenFrom, issue_note_unwinds}
use biz360_sme_erp_e_tims.Tests.Shop.{sale, shop_with}

abbrev one_of_flour : ComputedLine
one_of_flour = record {
  item_id = some 22;
  quantity = pos 100;
  unit_price = pos 10_000;
  tax_rate = pos 1600;
  discount_pct = pos 0;
  line_discount = pos 0;
  line_amount = pos 10_000;
  line_total = pos 10_000;
  tax_amount = pos 1600;
}

abbrev credit_of_one : CreditNote
credit_of_one = record {
  id = 103;
  org = 1;
  number = 1;
  party_id = 20;
  reference = some 102;
  note_date = 20_001;
  status = CreditNoteStatus.draft;
  subtotal = pos 10_000;
  discount_total = pos 0;
  tax_total = pos 1600;
  total = pos 11_600;
  lines = stored_line one_of_flour ∷ [];
}

-- The invoice is paid in full, and the note is a draft.
abbrev noted_shop : Db
noted_shop = record (shop_with InvoiceStatus.paid) {
  next_id = 104;
  sales = record (sale InvoiceStatus.paid) { amount_paid = pos 34_800 } ∷ [];
  credit_notes = credit_of_one ∷ [];
}

issue_note_unwinds_example :
    After
      (OfSales (
        RowIs 1 102 (
          IsTakenFrom
            (record (sale InvoiceStatus.paid) { amount_paid = pos 34_800 })
            (pos 11_600))))
      (issue_note 1 103 noted_shop)
issue_note_unwinds_example =
    issue_note_unwinds 1 103 102 credit_of_one
      (record (sale InvoiceStatus.paid) { amount_paid = pos 34_800 }) (omega arith) (omega arith)
      refl noted_shop refl refl
