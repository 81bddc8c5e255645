-- ===== src/CreditNotes/Unwind.antt =====
-- About the invoice that a credit note refers to.
use biz360_sme_erp_e_tims.Base.{
  ℕ, Bool, true, ◌≡◌, refl, ◌⊎◌, inl, inr, List, Option, none, some, find, find-update_where,
  update_where, some-injective, sym, ap, ◌∙◌, Bool-cases, arith,
}
use biz360_sme_erp_e_tims.Base.Int.{
  ℤ, pos, pos_part, neg_part, eq_of_parts, ◌+ℤ◌, ◌-ℤ◌, ◌≤ℤ◌, leb_ℤ, ltb_ℤ, ◌==ℤ◌, min_ℤ, int_laws,
}
use biz360_sme_erp_e_tims.Store.{Invoice, InvoiceStatus, CreditNote, CreditNoteStatus, Db, modify}
use biz360_sme_erp_e_tims.Store.Keeps.{
  After, After-map, Keeps, Keeps-modify, Keeps-gets, Keeps-throw_if, keeps_rules,
}
use biz360_sme_erp_e_tims.Store.Leads.{
  Leads, Leads-first, Leads-first_then, Leads-last_then, Leads-guard, Leads-modify, Leads-find,
}
use biz360_sme_erp_e_tims.Sales.Draft.{is_invoice}
use biz360_sme_erp_e_tims.Sales.Lifecycle.{
  is_released, open_amount, update_one_sale, has_paid, pay_row,
}
use biz360_sme_erp_e_tims.Sales.Outcome.{
  OfSales, HasRow, RowIs, found-is_invoice, move-keeps, post-Keeps, enqueue-Keeps,
}
use biz360_sme_erp_e_tims.CreditNotes.Safety.{restore_lines-Keeps}
use biz360_sme_erp_e_tims.CreditNotes.{
  unwound, unwound_status, unwind_read, unwind_invoice, issue_read, issue_note, update_one_note,
  submit_note, is_note,
}

unwound_part :
    (paid credited : ℤ)
    → pos 0 ≤ℤ paid
    → pos 0 ≤ℤ credited
    → unwound paid credited +ℤ min_ℤ paid credited ≡ paid
unfolding ◌+ℤ◌ ◌-ℤ◌
unwound_part paid credited h k = ground arith

-- What the invoice is after the note took its part of what was paid: as it was where the rest
-- still covers the total, partially paid where a rest is left, and confirmed where none is.
abbrev pub IsLeftAs : InvoiceStatus → ℤ → ℤ → InvoiceStatus → Type 0
IsLeftAs before total paid s =
    ((total ≤ℤ paid) × (s ≡ before))
    ⊎ ((paid +ℤ pos 1 ≤ℤ total) × (pos 1 ≤ℤ paid) × (s ≡ InvoiceStatus.partially_paid))
    ⊎ ((paid +ℤ pos 1 ≤ℤ total) × (paid ≤ℤ pos 0) × (s ≡ InvoiceStatus.confirmed))

unwound_status-IsLeftAs :
    (s : InvoiceStatus) (total paid : ℤ) → IsLeftAs s total paid (unwound_status s total paid)
unfolding ◌+ℤ◌
unwound_status-IsLeftAs s total paid = elim (Bool-cases (leb_ℤ total paid)) [
  | inl covered ↦ inl (ground arith, rw covered refl)
  | inr under ↦ elim (Bool-cases (ltb_ℤ (pos 0) paid)) [
    | inl rest ↦ inr (inl (ground arith, ground arith, rw (under, rest) refl))
    | inr nothing ↦ inr (inr (ground arith, ground arith, rw (under, nothing) refl))
  ]
]

abbrev pub IsTakenFrom : Invoice → ℤ → Invoice → Type 0
IsTakenFrom v credited i =
    (i.amount_paid +ℤ min_ℤ v.amount_paid credited ≡ v.amount_paid)
    × IsLeftAs v.status v.total i.amount_paid i.status
    × (i.total ≡ v.total)
    × (i.party_id ≡ v.party_id)

has_paid-is_invoice :
    (org id : ℕ) (v : ℤ) (j : Invoice) → has_paid org id v j ≡ true → is_invoice org id j ≡ true
has_paid-is_invoice org id v j h = ground arith

itself : (a : ℤ) → (a ==ℤ a) ≡ true
itself a = ground arith

module _ (org k : ℕ) (credited : ℤ) (v : Invoice) (h : pos 0 ≤ℤ v.amount_paid)
    (positive : pos 0 ≤ℤ credited) where
  unwind_read-Leads :
      Leads
        (OfSales (HasRow org k v))
        (OfSales (RowIs org k (IsTakenFrom v credited)))
        (unwind_read org k credited v)
  unfolding unwind_read update_one_sale
  unwind_read-Leads = Leads-first _ _ (Keeps-gets _ _) (λ n.
      Leads-first_then _ _ (Keeps-throw_if _ _ _) (
        Leads-modify _ _ _ (λ db row. (
          pay_row (unwound v.amount_paid credited)
              (unwound_status v.status v.total (unwound v.amount_paid credited)) v,
          find-update_where (is_invoice org k) (has_paid org k v.amount_paid) _ v db.sales
              (has_paid-is_invoice org k v.amount_paid) (has_paid-is_invoice org k v.amount_paid)
              (ground (arith, found-is_invoice org k v db.sales row, itself v.amount_paid)) row,
          (
            unwound_part v.amount_paid credited h positive,
            unwound_status-IsLeftAs v.status v.total (unwound v.amount_paid credited),
            refl,
            refl,
          ),
        ))))

  unwind_invoice-Leads :
      Leads
        (OfSales (HasRow org k v))
        (OfSales (RowIs org k (IsTakenFrom v credited)))
        (unwind_invoice org credited (some k))
  unfolding unwind_invoice
  unwind_invoice-Leads = Leads-find _ _ _ _ λ i. record {
    run = λ db row. rw (some-injective i v (sym row.1 ∙ row.0)) (unwind_read-Leads.run db row.0);
  }

module _ (S : List Invoice → Type 0) where
  notes-Keeps :
      (p : CreditNote → Bool) (f : CreditNote → CreditNote)
      → Keeps
          (OfSales S)
          (modify (λ db. record db { credit_notes = update_where p f db.credit_notes }))
  notes-Keeps p f = Keeps-modify (OfSales S) _ (λ db h. h)

  update_one_note-Keeps :
      (org id : ℕ) (s : CreditNoteStatus) → Keeps (OfSales S) (update_one_note org id s)
  unfolding update_one_note
  update_one_note-Keeps org id s = search (keeps_rules, notes-Keeps) depth 15

  submit_note-Keeps :
      (org id : ℕ) (reference : Option ℕ) → Keeps (OfSales S) (submit_note org id reference)
  unfolding submit_note
  submit_note-Keeps org id none = search keeps_rules
  submit_note-Keeps org id (some k) = enqueue-Keeps S _ _ _ _ _

-- The note that was read.
abbrev pub HasNote : ℕ → ℕ → CreditNote → Db → Type 0
HasNote org id note db = find (is_note org id) db.credit_notes ≡ some note

module _ (org id k : ℕ) (note : CreditNote) (v : Invoice) (h : pos 0 ≤ℤ v.amount_paid)
    (positive : pos 0 ≤ℤ note.total) (of_invoice : note.reference ≡ some k) where
  issue_read-Leads :
      Leads
        (OfSales (HasRow org k v))
        (OfSales (RowIs org k (IsTakenFrom v note.total)))
        (issue_read org id note)
  unfolding issue_read
  issue_read-Leads = Leads-guard _ _ _ _ λ g.
      Leads-first_then _ _ (restore_lines-Keeps _ (move-keeps (HasRow org k v)) org _ note.lines) (
        Leads-last_then _ _ (rw of_invoice (unwind_invoice-Leads org k note.total v h positive))
          (search (keeps_rules, update_one_note-Keeps, submit_note-Keeps, post-Keeps) depth 15))

  issue_note-Leads :
      Leads
        (λ db. HasRow org k v db.sales × HasNote org id note db)
        (OfSales (RowIs org k (IsTakenFrom v note.total)))
        (issue_note org id)
  unfolding issue_note
  issue_note-Leads = Leads-find _ _ _ _ λ i. record {
    run = λ db f. rw (some-injective i note (sym f.1 ∙ f.0.1)) (issue_read-Leads.run db f.0.0);
  }

  -- A credit note that is issued against an invoice takes its total from what was paid of it, down
  -- to zero at most. The invoice keeps its status where the rest still covers its total, is
  -- partially paid where a rest is left, and is confirmed where nothing is left, whatever its
  -- status was before; its total and its party stay.
  pub issue_note_unwinds :
      (db : Db)
      → HasNote org id note db
      → HasRow org k v db.sales
      → After (OfSales (RowIs org k (IsTakenFrom v note.total))) (issue_note org id db)
  issue_note_unwinds db has row = issue_note-Leads.run db (row, has)

released_after :
    (v i : Invoice) (credited : ℤ)
    → is_released v.status ≡ true
    → IsTakenFrom v credited i
    → is_released i.status ≡ true
released_after v i credited live u = elim u.1 [
  | inl (_, e) ↦ rw e live
  | inr (inl (_, _, e)) ↦ rw e refl
  | inr (inr (_, _, e)) ↦ rw e refl
]

open_amount_of :
    (org party : ℕ) (i : Invoice)
    → i.org ≡ org
    → i.party_id ≡ party
    → is_released i.status ≡ true
    → open_amount org party i ≡ i.total -ℤ i.amount_paid
open_amount_of org party i o p live = ground (arith, o, p, live)

left_open :
    (total before after part : ℤ)
    → after +ℤ part ≡ before
    → total -ℤ after ≡ total -ℤ before +ℤ part
left_open total before after part h =
    eq_of_parts _ _ (omega (int_laws, ap pos_part h, ap neg_part h))

raises_open :
    (org party : ℕ) (v i : Invoice) (credited : ℤ)
    → is_released v.status ≡ true
    → v.org ≡ org
    → v.party_id ≡ party
    → i.org ≡ org
    → IsTakenFrom v credited i
    → open_amount org party i ≡ open_amount org party v +ℤ min_ℤ v.amount_paid credited
raises_open org party v i credited live o p o2 u =
    rw
      (
        open_amount_of org party i o2 (u.3 ∙ p) (released_after v i credited live u),
        open_amount_of org party v o p live,
        u.2,
      )
      (left_open v.total v.amount_paid i.amount_paid _ u.0)

found_of_org : (org k : ℕ) (i : Invoice) (sales : List Invoice) → HasRow org k i sales → i.org ≡ org
found_of_org org k i sales h = ground (arith, found-is_invoice org k i sales h)

-- A credit note that is issued against a released invoice raises what the customer owes on it, as
-- the credit limit counts it, by the total of the note, or by what was paid where that is less.
issue_note_raises_open :
    (org id k : ℕ) (note : CreditNote) (v : Invoice) (db : Db)
    → pos 0 ≤ℤ v.amount_paid
    → pos 0 ≤ℤ note.total
    → note.reference ≡ some k
    → HasNote org id note db
    → HasRow org k v db.sales
    → is_released v.status ≡ true
    → After
        (OfSales (
          RowIs org k (λ i.
            open_amount org v.party_id i
            ≡ open_amount org v.party_id v +ℤ min_ℤ v.amount_paid note.total)))
        (issue_note org id db)
issue_note_raises_open org id k note v db h positive of_invoice has row live =
    After-map (OfSales (RowIs org k (IsTakenFrom v note.total))) _
      (λ d x. (
        x.0,
        x.1,
        raises_open org v.party_id v x.0 note.total live (found_of_org org k v db.sales row) refl
            (found_of_org org k x.0 d.sales x.1) x.2,
      ))
      _ (issue_note_unwinds org id k note v h positive of_invoice db has row)
