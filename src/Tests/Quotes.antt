-- ===== src/Tests/Quotes.antt =====
-- A quotation of three of the item, accepted and converted.
use biz360_sme_erp_e_tims.Base.{ℕ, ◌≡◌, refl, none, some, List, [], ◌∷◌, arith}
use biz360_sme_erp_e_tims.Base.Int.{pos}
use biz360_sme_erp_e_tims.Result.{ok, err, conflict, wrong_status}
use biz360_sme_erp_e_tims.Store.{Invoice, QuotationStatus, Quotation, Db, transact, run, pure}
use biz360_sme_erp_e_tims.Sales.Draft.{stored_line}
use biz360_sme_erp_e_tims.Quotations.{
  convert_quote, convert_accepted, convert_read, unless_past, flip_quote, insert_invoice_of,
  invoice_of,
}
use biz360_sme_erp_e_tims.Quotations.Requests.{Request, send, accept, cancel, convert, serve_all}
use biz360_sme_erp_e_tims.Quotations.Moves.{Lives}
use biz360_sme_erp_e_tims.Quotations.Refines.{serve_all_refines}
use biz360_sme_erp_e_tims.Quotations.Contract.{QuoteIs, IsCopy, convert_quote_copies}
use biz360_sme_erp_e_tims.Quotations.Once.{convert_once}
use biz360_sme_erp_e_tims.Tests.Shop.{shop, three_of_flour}

abbrev quote : QuotationStatus → Quotation
quote s = record {
  id = 104;
  org = 1;
  number = 1;
  party_id = 20;
  quote_date = 20_000;
  valid_until = some 1_728_000_100_000;
  status = s;
  subtotal = pos 30_000;
  discount_total = pos 0;
  tax_total = pos 4800;
  total = pos 34_800;
  lines = stored_line three_of_flour ∷ [];
  converted_to = none;
}

abbrev quoted_shop : QuotationStatus → Db
quoted_shop s = record shop { next_id = 105; quotations = quote s ∷ [] }

-- A minute later the quotation is past.
abbrev later_shop : Db
later_shop = record (quoted_shop QuotationStatus.accepted) { now = 1_728_000_160_000 }

abbrev requests : List (ℕ × Request)
requests = (1, send 104) ∷ (1, accept 104) ∷ (1, convert 104) ∷ (1, cancel 104) ∷ []

serve_all_refines_example :
    Lives 1 104
      (quote QuotationStatus.draft)
      (serve_all requests (quoted_shop QuotationStatus.draft))
serve_all_refines_example =
    serve_all_refines 1 104 (quote QuotationStatus.draft) requests
      (quoted_shop QuotationStatus.draft) refl (omega arith)

convert_quote_copies_example :
    (i : Invoice) × (d : Db) × (convert_quote 1 104 (quoted_shop QuotationStatus.accepted)
      ≡ (ok i, d))
    × IsCopy (quote QuotationStatus.accepted) i
    × (d.sales ≡ i ∷ [])
    × (i.number ≡ 1)
    × (d.sale_seq 1 ≡ i.number)
    × QuoteIs 1 104 (λ r. (r.status ≡ QuotationStatus.converted) × (r.converted_to ≡ some i.id)) d
convert_quote_copies_example =
    convert_quote_copies 1 104 (quote QuotationStatus.accepted)
      (quoted_shop QuotationStatus.accepted) refl refl refl refl

abbrev new_invoice : Invoice
new_invoice = invoice_of 105 1 1 (quote QuotationStatus.accepted)

abbrev invoiced_shop : Db
invoiced_shop = (convert_quote 1 104 (quoted_shop QuotationStatus.accepted)).1

convert_once_example :
    convert_quote 1 104 (serve_all requests invoiced_shop)
    ≡ (err (conflict wrong_status), serve_all requests invoiced_shop)
unfolding convert_quote unless_past transact convert_accepted convert_read flip_quote
    insert_invoice_of run pure
convert_once_example =
    convert_once 1 104 (quote QuotationStatus.accepted) requests
      (quoted_shop QuotationStatus.accepted) invoiced_shop new_invoice refl (omega arith) refl
