-- ===== src/Quotations/Refines.antt =====
-- About the row of a quotation under any requests, against the machine of Quotations/Life.
use biz360_sme_erp_e_tims.Base.{
  ℕ, ◌<◌, Bool, true, ◌≡◌, refl, Option, some, List, [], ◌∷◌, find, update_where, arith,
}
use biz360_sme_erp_e_tims.Result.{ok}
use biz360_sme_erp_e_tims.Document.{LineDto, ComputedLine}
use biz360_sme_erp_e_tims.Store.{Quotation, QuotationStatus, Db, modify}
use biz360_sme_erp_e_tims.Store.Keeps.{
  Keeps, Keeps-commit, Keeps-modify, Keeps-bind, Keeps-then, Keeps-gets, Keeps-throw_if,
  keeps_rules,
}
use biz360_sme_erp_e_tims.Sales.Lines.{new_lines-Keeps}
use biz360_sme_erp_e_tims.Quotations.{
  is_quotation, is_quote_in, is_cancellable, is_past, with_quote_status, has_quote_id, link_invoice,
  redate_quote, insert_quote, create_quote, expire_rows, flip_quote, send_quote, accept_quote,
  cancel_quote, insert_invoice_of, convert_accepted, convert_read, convert_quote, update_quote,
}
use biz360_sme_erp_e_tims.Quotations.Requests.{
  Request, create, update, send, accept, cancel, convert, serve, serve_all,
}
use biz360_sme_erp_e_tims.Quotations.Expiry.{unless_past_keeps}
use biz360_sme_erp_e_tims.Quotations.Life.{Action, act, start}
use biz360_sme_erp_e_tims.Quotations.Moves.{
  HasQuote, same-SameTerms, Lives, stays, to_status, from_draft, from_sent, from_accepted,
  from_cancellable, from_live, update_moves,
}

module _ (org id : ℕ) (q : Quotation) where
  flip-Lives :
      (p : Quotation → Bool) (s : QuotationStatus)
      → ((y : Quotation) → p y ≡ true → (a : Action) × (act a y.status ≡ some s))
      → Keeps (Lives org id q) (flip_quote p s)
  unfolding flip_quote
  flip-Lives p s h = Keeps-bind _ (Keeps-gets _ _) λ n. Keeps-then _ (Keeps-throw_if _ _ _) (
      Keeps-modify _ _
        (update_moves org id q p (with_quote_status s) (λ y t. to_status y s (h y t)) (λ y. refl)))

  to_cancelled :
      (o i : ℕ) → Keeps (Lives org id q) (flip_quote (is_cancellable o i) QuotationStatus.cancelled)
  to_cancelled o i = flip-Lives _ _ (from_cancellable o i)

  to_converted :
      (o i : ℕ)
      → Keeps
          (Lives org id q)
          (flip_quote (is_quote_in o i QuotationStatus.accepted) QuotationStatus.converted)
  to_converted o i = flip-Lives _ _ (from_accepted o i)

  insert-Lives :
      (o party : ℕ) (date until : Option ℕ) (ls : List ComputedLine)
      → Keeps (Lives org id q) (λ db. ok (insert_quote o party date until ls db))
  unfolding insert_quote
  insert-Lives o party date until ls = record {
    run = λ db l. record {
      row = l.row;
      found = ground (arith, l.found, l.old);
      terms = l.terms;
      life = l.life;
      old = omega (arith, l.old);
    };
  }

  insert_invoice-Lives :
      (o : ℕ) (r : Quotation) → Keeps (Lives org id q) (λ db. ok (insert_invoice_of o r db))
  unfolding insert_invoice_of
  insert_invoice-Lives o r = record {
    run = λ db l. record {
      row = l.row;
      found = l.found;
      terms = l.terms;
      life = l.life;
      old = omega (arith, l.old);
    };
  }

  link-Lives :
      (i k : ℕ)
      → Keeps (Lives org id q) (
          modify (λ db. record db {
            quotations = update_where (has_quote_id i) (link_invoice k) db.quotations;
          }))
  link-Lives i k = Keeps-modify _ _ (
      update_moves org id q (has_quote_id i) (link_invoice k)
        (λ y t.
          stays y (link_invoice k y) (λ o j. refl)
            (record { party = refl; number = refl; total = refl; tax = refl; lines = refl }) refl)
        (λ y. refl))

  redate-Lives :
      (i : ℕ) (date : Option ℕ) (until : Option (Option ℕ))
      → Keeps (Lives org id q) (
          modify (λ db. record db {
            quotations = update_where (has_quote_id i) (redate_quote date until) db.quotations;
          }))
  redate-Lives i date until = Keeps-modify _ _ (
      update_moves org id q (has_quote_id i) (redate_quote date until)
        (λ y t.
          stays y (redate_quote date until y) (λ o j. refl)
            (record { party = refl; number = refl; total = refl; tax = refl; lines = refl }) refl)
        (λ y. refl))

  expire-Lives :
      (o i : ℕ) (db : Db) (r : Quotation)
      → find (is_quotation o i) db.quotations ≡ some r
      → is_past db.now r ≡ true
      → Lives org id q db
      → Lives org id q (expire_rows o i r.status db)
  unfolding expire_rows
  expire-Lives o i db r e past =
      update_moves org id q (is_quote_in o i r.status) (with_quote_status QuotationStatus.expired)
        (λ y t. to_status y QuotationStatus.expired (from_live o i db.now r past y t)) (λ y. refl)
        db

  ruleset live_rules =
      (keeps_rules, new_lines-Keeps, insert-Lives, insert_invoice-Lives, link-Lives, redate-Lives)

  create-Lives :
      (o party : ℕ) (date until : Option ℕ) (dtos : List LineDto)
      → Keeps (Lives org id q) (create_quote o party date until dtos)
  unfolding create_quote
  create-Lives o party date until dtos = search live_rules depth 20

  update-Lives :
      (o i : ℕ) (date : Option ℕ) (until : Option (Option ℕ))
      → Keeps (Lives org id q) (update_quote o i date until)
  unfolding update_quote
  update-Lives o i date until = search live_rules depth 15

  cancel-Lives : (o i : ℕ) → Keeps (Lives org id q) (cancel_quote o i)
  unfolding cancel_quote
  cancel-Lives o i = search (live_rules, to_cancelled) depth 15

  convert-Lives : (o i : ℕ) → Keeps (Lives org id q) (convert_accepted o i)
  unfolding convert_accepted convert_read
  convert-Lives o i = search (live_rules, to_converted) depth 20

  serve-Lives : (o : ℕ) (r : Request) (db : Db) → Lives org id q db → Lives org id q (serve o r db)
  unfolding serve send_quote accept_quote convert_quote
  serve-Lives o (create party date until lines) =
      Keeps-commit _ (create-Lives o party date until lines)
  serve-Lives o (update i date until) = Keeps-commit _ (update-Lives o i date until)
  serve-Lives o (cancel i) = Keeps-commit _ (cancel-Lives o i)
  serve-Lives o (send i) =
      unless_past_keeps _ o i (flip-Lives _ _ (from_draft o i)) (expire-Lives o i)
  serve-Lives o (accept i) =
      unless_past_keeps _ o i (flip-Lives _ _ (from_sent o i)) (expire-Lives o i)
  serve-Lives o (convert i) = unless_past_keeps _ o i (convert-Lives o i) (expire-Lives o i)

  pub serve_all-Lives :
      (rs : List (ℕ × Request)) (db : Db) → Lives org id q db → Lives org id q (serve_all rs db)
  unfolding serve_all
  serve_all-Lives [] db l = l
  serve_all-Lives ((o, r) ∷ rs) db l = serve_all-Lives rs (serve o r db) (serve-Lives o r db l)

-- Whatever requests of whatever organizations are served, a quotation whose id was handed out is
-- still there, with its party, number, total, tax and lines as they were, and its status is one
-- that the machine of Quotations/Life reaches from the status that it had.
pub serve_all_refines :
    (org id : ℕ) (q : Quotation) (rs : List (ℕ × Request)) (db : Db)
    → HasQuote org id q db
    → id < db.next_id
    → Lives org id q (serve_all rs db)
serve_all_refines org id q rs db has old =
    serve_all-Lives org id q rs db
      (record { row = q; found = has; terms = same-SameTerms q; life = start; old = old })
