-- ===== src/Quotations/Once.antt =====
-- About a quotation after its conversion.
use biz360_sme_erp_e_tims.Base.{
  ℕ, ◌<◌, false, not, ◌≡◌, refl, sym, ap, ◌∙◌, some, some-injective, List, update_where, Bool-cases,
  inl, inr, arith,
}
use biz360_sme_erp_e_tims.Result.{Result, Error, ok, err, conflict, wrong_status, expired}
use biz360_sme_erp_e_tims.Store.{
  Invoice, Quotation, QuotationStatus, Db, ◌>>=◌, ◌>>◌, throw_if, transact, run, modify,
}
use biz360_sme_erp_e_tims.Store.Keeps.{
  After, Keeps, Keeps-gets, Keeps-throw_if, Keeps-modify, keeps_rules,
}
use biz360_sme_erp_e_tims.Store.Leads.{
  Leads, Leads-first, Leads-first_then, Leads-last_then, Leads-guard, Leads-find, Leads-modify,
}
use biz360_sme_erp_e_tims.Quotations.{
  is_quote_in, is_accepted, is_past, with_quote_status, link_invoice, has_quote_id, flip_quote,
  convert_accepted, convert_read, convert_quote, insert_invoice_of,
}
use biz360_sme_erp_e_tims.Quotations.Requests.{Request, serve_all}
use biz360_sme_erp_e_tims.Quotations.Life.{Action, act, Reaches, start, then_act}
use biz360_sme_erp_e_tims.Quotations.Expiry.{unless_past-past, unless_past-live}
use biz360_sme_erp_e_tims.Quotations.Moves.{HasQuote, Lives}
use biz360_sme_erp_e_tims.Quotations.Refines.{serve_all_refines}
use biz360_sme_erp_e_tims.Quotations.Contract.{flipped_row, linked_row}

no_way_out : (a : Action) (t : QuotationStatus) → act a QuotationStatus.converted ≡ some t → ⊥
no_way_out Action.send t e = cc
no_way_out Action.accept t e = cc
no_way_out Action.cancel t e = cc
no_way_out Action.convert t e = cc
no_way_out Action.expire t e = cc

-- A converted quotation stays converted.
converted_stays :
    {s t : QuotationStatus}
    → s ≡ QuotationStatus.converted
    → Reaches s t
    → t ≡ QuotationStatus.converted
converted_stays c start = c
converted_stays c (then_act {t} {u} a r e) = absurd (no_way_out a u (rw (converted_stays c r) at e))

-- The row is converted, and its id was handed out.
abbrev IsConverted : ℕ → ℕ → Db → Type 0
IsConverted org id db =
    (q : Quotation) × HasQuote org id q db
    × (q.status ≡ QuotationStatus.converted)
    × (id < db.next_id)

not_ok : {A : Type 0} (x : Error) (a : A) → ◌≡◌ {A = Result A} (err x) (ok a) → ⊥
not_ok x a h = cc

accepted_of : (s : QuotationStatus) → not (is_accepted s) ≡ false → s ≡ QuotationStatus.accepted
accepted_of s h = ground arith

module _ (org id : ℕ) (q : Quotation) where
  flip-Leads :
      q.status ≡ QuotationStatus.accepted
      → Leads
          (λ db. HasQuote org id q db × (id < db.next_id))
          (IsConverted org id)
          (flip_quote (is_quote_in org id QuotationStatus.accepted) QuotationStatus.converted)
  unfolding flip_quote
  flip-Leads e = Leads-first _ _ (Keeps-gets _ _) λ n. Leads-first_then _ _ (Keeps-throw_if _ _ _) (
      Leads-modify _ _ _ λ db h.
        (with_quote_status QuotationStatus.converted q, flipped_row org id q db h.0 e, refl, h.1))

  insert-Keeps :
      (r : Quotation) → Keeps (IsConverted org id) (λ db. ok (insert_invoice_of org r db))
  unfolding insert_invoice_of
  insert-Keeps r = record { run = λ db h. (h.0, h.1, h.2, omega (arith, h.3)) }

  link-Keeps :
      (k : ℕ)
      → Keeps (IsConverted org id) (
          modify (λ db. record db {
            quotations = update_where (has_quote_id id) (link_invoice k) db.quotations;
          }))
  link-Keeps k =
      Keeps-modify _ _
        λ db h. (link_invoice k h.0, linked_row org id k h.0 db.quotations h.1, h.2, h.3)

  convert_read-Leads :
      Leads
        (λ db. HasQuote org id q db × (id < db.next_id))
        (IsConverted org id)
        (convert_read org id q)
  unfolding convert_read
  convert_read-Leads = Leads-guard _ _ _ _ λ g.
      Leads-last_then _ _ (flip-Leads (accepted_of q.status g))
        (search (keeps_rules, insert-Keeps, link-Keeps) depth 10)

  convert_accepted-Leads :
      Leads
        (λ db. HasQuote org id q db × (id < db.next_id))
        (IsConverted org id)
        (convert_accepted org id)
  unfolding convert_accepted
  convert_accepted-Leads = Leads-find _ _ _ _ λ r. record {
    run = λ db h. rw (some-injective r q (sym h.1 ∙ h.0.0)) (convert_read-Leads.run db h.0);
  }

committed :
    {A : Type 0} (P : Db → Type 0) (r : Result (A × Db)) (db d : Db) (a : A)
    → After P r
    → (elim r as (λ _. Result A × Db) [ ok (b, e) ↦ (ok b, e) | err x ↦ (err x, db) ]) ≡ (ok a, d)
    → P d
committed {A} P (ok (b, e)) db d a h q =
    let same : e ≡ d = ap (λ (p : Result A × Db). p.1) q in rw (← same) h
committed {A} P (err x) db d a h q = absurd (not_ok x a (ap (λ (p : Result A × Db). p.0) q))

past_or_live :
    (org id : ℕ) (q : Quotation) (db d : Db) (i : Invoice)
    → HasQuote org id q db
    → convert_quote org id db ≡ (ok i, d)
    → is_past db.now q ≡ false
unfolding convert_quote
past_or_live org id q db d i has e = elim (Bool-cases (is_past db.now q)) [
  | inr live ↦ live
  | inl past ↦ absurd (
      not_ok (conflict expired) i (
        ap (λ (p : Result Invoice × Db). p.0)
          (sym (unless_past-past org id q (convert_accepted org id) db has past) ∙ e)))
]

conversion-IsConverted :
    (org id : ℕ) (q : Quotation) (db d : Db) (i : Invoice)
    → HasQuote org id q db
    → id < db.next_id
    → convert_quote org id db ≡ (ok i, d)
    → IsConverted org id d
unfolding convert_quote transact
conversion-IsConverted org id q db d i has old e =
    committed (IsConverted org id) (convert_accepted org id db) db d i
      ((convert_accepted-Leads org id q).run db (has, old))
      (sym (
          unless_past-live org id q (convert_accepted org id) db has
            (past_or_live org id q db d i has e))
        ∙ e)

refused_again :
    (org id : ℕ) (r : Quotation) (db : Db)
    → HasQuote org id r db
    → r.status ≡ QuotationStatus.converted
    → convert_quote org id db ≡ (err (conflict wrong_status), db)
unfolding convert_quote transact convert_accepted convert_read run
refused_again org id r db has c =
    unless_past-live org id r _ db has (ground (arith, c))
    ∙ rw (has, c, ◌>>=◌, ◌>>◌, throw_if, transact) refl

-- Once a quotation was converted, it is not converted again: after any requests of any
-- organizations, its conversion throws and changes nothing.
pub convert_once :
    (org id : ℕ) (q : Quotation) (rs : List (ℕ × Request)) (db d : Db) (i : Invoice)
    → HasQuote org id q db
    → id < db.next_id
    → convert_quote org id db ≡ (ok i, d)
    → convert_quote org id (serve_all rs d) ≡ (err (conflict wrong_status), serve_all rs d)
convert_once org id q rs db d i has old e =
    let c : IsConverted org id d = conversion-IsConverted org id q db d i has old e in
    let l : Lives org id c.0 (serve_all rs d) = serve_all_refines org id c.0 rs d c.1 c.3 in
    refused_again org id l.row (serve_all rs d) l.found (converted_stays c.2 l.life)
