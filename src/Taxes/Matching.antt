-- ===== src/Taxes/Matching.antt =====
-- A match of a credit note keeps the offsets within the taxes.
use biz360_sme_erp_e_tims.Base.{
  ℕ, false, not, ◌&&◌, ◌≡◌, refl, ap, ◌∙◌, Option, Option-cases, none, some, List, [], ◌∷◌, ◌==◌,
  All, All-map, All-update_where, find, find_passes, update_where, sum_of, if◌then◌else◌,
  Bool-cases, inl, inr, arith,
}
use biz360_sme_erp_e_tims.Base.Int.{ℤ, pos, ◌+ℤ◌, ◌≤ℤ◌}
use biz360_sme_erp_e_tims.Result.{Result-cases, ok}
use biz360_sme_erp_e_tims.Store.{Db}
use biz360_sme_erp_e_tims.Taxes.{Deduction, SupplierNote, Taxes}
use biz360_sme_erp_e_tims.Taxes.Withholding.{is_matched}
use biz360_sme_erp_e_tims.Taxes.Credits.{
  MatchNoteDto, is_supplier_note, original_of, check_purchase, uses_deduction, offset_for,
  has_note_id, match_note_row, match_note_transaction, match_note,
}
use biz360_sme_erp_e_tims.Taxes.Shares.{Divides}
use biz360_sme_erp_e_tims.Taxes.Offsets.{
  offset_of, IsOffset, IsNote, Covers, OffsetsFit, sum-mono, sum_at_id, sum-update_where,
  AreApart-update_where,
}
use biz360_sme_erp_e_tims.Taxes.Granting.{
  IsShare, offset_for-IsShare, only_one, All-and, everywhere,
}

abbrev IsWithin : Deduction → Option (ℕ × ℤ) → Type 0
IsWithin d none = Unit
IsWithin d (some (k, a)) = d.id ≡ k → a ≤ℤ d.withheld

abbrev rematch : ℕ → Option ℕ → Option ℕ → Option (ℕ × ℤ) → SupplierNote → SupplierNote
rematch k r p o x = if x.id == k then match_note_row r p o x else x

-- What a note takes off a deduction afterwards is at most the share that it gets, where it gets one
-- of that deduction, and at most what it took before else.
after_share :
    (org : ℕ) (st : Taxes) (d : Deduction) (n x : SupplierNote) (r p : Option ℕ) (k : ℕ) (a : ℤ)
    → d.id ≡ k
    → d.org ≡ org
    → pos 0 ≤ℤ a
    → uses_deduction org k x ≡ false
    → offset_of d (rematch n.id r p (some (k, a)) x) ≤ℤ (if x.id == n.id then a else pos 0)
after_share org st d n x r p k a same own h unused = ground arith

offset_pos :
    (d : Deduction) (x : SupplierNote) (next : ℕ) (o : Option (ℕ × ℤ))
    → x.offset ≡ o
    → IsOffset next o
    → pos 0 ≤ℤ offset_of d x
offset_pos d x next none e h = rw e (omega arith)
offset_pos d x next (some (k, a)) e h =
    rw e (elim (Bool-cases (x.org == d.org && not x.deleted && d.id == k)) [
      | inl t ↦ rw t h.1
      | inr f ↦ rw f (omega arith)
    ])

after_other :
    (org : ℕ) (d : Deduction) (n x : SupplierNote) (next : ℕ) (r p : Option ℕ) (k : ℕ) (a : ℤ)
    → (d.org == org && d.id == k) ≡ false
    → IsNote next x
    → (x.id ≡ n.id → x ≡ n)
    → n.org ≡ org
    → offset_of d (rematch n.id r p (some (k, a)) x) ≤ℤ offset_of d x
after_other org d n x next r p k a other ok_x one own = elim (Bool-cases (x.id == n.id)) [
  | inr differs ↦ rw differs (omega arith)
  | inl same ↦
      let x_org : x.org ≡ org =
        ap (λ (y : SupplierNote). y.org) (one (ground (arith, same))) ∙ own in
      let apart : (x.org == d.org && not x.deleted && d.id == k) ≡ false =
        ground (arith, other, x_org) in
      rw (same, apart) (offset_pos d x next x.offset refl ok_x.1)
]

after_none :
    (d : Deduction) (k : ℕ) (r p : Option ℕ) (x : SupplierNote)
    → offset_of d (rematch k r p none x) ≡ offset_of d x
after_none d k r p x = ground arith

none_taken :
    (d : Deduction) (k : ℕ) (r p : Option ℕ) (xs : List SupplierNote)
    → sum_of (λ x. offset_of d (rematch k r p none x)) xs ≡ sum_of (offset_of d) xs
none_taken d k r p [] = refl
none_taken d k r p (x ∷ xs) =
    rw (after_none d k r p x) (ap (λ t. offset_of d x +ℤ t) (none_taken d k r p xs))

module _ (org : ℕ) (st : Taxes) (n : SupplierNote) (r p : Option ℕ) where
  Covers-after :
      (d : Deduction) (o : Option (ℕ × ℤ))
      → OffsetsFit st
      → IsShare org st o
      → All (λ (x : SupplierNote). x.id ≡ n.id → x ≡ n) st.notes
      → n.org ≡ org
      → IsWithin d o
      → Covers st.notes d
      → Covers (update_where (has_note_id n.id) (match_note_row r p o) st.notes) d
  Covers-after d none fit share one own within old =
      rw
        (
          sum-update_where (offset_of d) (has_note_id n.id) (match_note_row r p none) st.notes,
          none_taken d n.id r p st.notes,
        )
        old
  Covers-after d (some (k, a)) fit share one own within old =
      rw
        (sum-update_where (offset_of d) (has_note_id n.id) (match_note_row r p (some (k, a)))
          st.notes)
        (elim (Bool-cases (d.org == org && d.id == k)) [
          | inl t ↦
              let same : d.id ≡ k = ground (arith, t) in
              omega (
                arith,
                within same,
                sum_at_id (λ (x : SupplierNote). x.id) n.id a st.notes share.1 fit.apart,
                sum-mono (λ x. offset_of d (rematch n.id r p (some (k, a)) x))
                    (λ x. if x.id == n.id then a else pos 0) st.notes
                    (All-map _ _
                      (λ x u. after_share org st d n x r p k a same (ground (arith, t)) share.1 u)
                      st.notes share.3),
              )
          | inr other ↦ omega (
            arith,
            old,
            sum-mono (λ x. offset_of d (rematch n.id r p (some (k, a)) x)) (offset_of d) st.notes
                (All-map _ _ (λ x h. after_other org d n x st.next_id r p k a other h.0 h.1 own)
                  st.notes (All-and _ _ st.notes fit.notes one)),
          )
        ])

  row-IsNote :
      (x : SupplierNote) (o : Option (ℕ × ℤ))
      → IsShare org st o
      → IsNote st.next_id x
      → IsNote st.next_id (match_note_row r p o x)
  row-IsNote x none share h = h
  row-IsNote x (some (k, a)) share h = (h.0, (share.0, share.1))

  All-IsWithin : (o : Option (ℕ × ℤ)) → IsShare org st o → All (λ d. IsWithin d o) st.deductions
  All-IsWithin none share =
      All-map _ _ (λ (d : Deduction) h. tt) st.deductions (everywhere st.deductions)
  All-IsWithin (some (k, a)) share = share.2

  transaction-OffsetsFit :
      (db : Db) (id : ℕ) (o : Option (ℕ × ℤ))
      → OffsetsFit st
      → find (is_supplier_note org id) st.notes ≡ some n
      → IsShare org st o
      → OffsetsFit (match_note_transaction db org n r p o st)
  unfolding match_note_transaction
  transaction-OffsetsFit db id o fit there share =
      let own : n.org ≡ org =
        ground (arith, find_passes (is_supplier_note org id) st.notes there) in
      let one =
        only_one (λ (x : SupplierNote). x.id) (is_supplier_note org id) n st.notes fit.apart
          there in
      record {
        taxes = fit.taxes;
        notes =
            All-update_where (IsNote st.next_id) (IsNote st.next_id) (has_note_id n.id)
              (match_note_row r p o)
              (λ x h. elim (Bool-cases (x.id == n.id)) [
                | inl e ↦ rw e (row-IsNote x o share h)
                | inr e ↦ rw e h
              ])
              st.notes fit.notes;
        apart =
            AreApart-update_where (λ (x : SupplierNote). x.id) (has_note_id n.id)
              (match_note_row r p o) st.notes (λ x. refl) fit.apart;
        taxes_apart = fit.taxes_apart;
        covers =
            All-map _ _ (λ d t. Covers-after d o fit share one own t.0 t.1) st.deductions
              (All-and _ _ st.deductions (All-IsWithin o share) fit.covers);
      }

module _ (quotient : ℤ → ℤ → ℕ × ℕ) (division : Divides quotient) where
  matched :
      (db : Db) (org id : ℕ) (n : SupplierNote) (r p k : Option ℕ) (o : Option (ℕ × ℤ)) (st : Taxes)
      → OffsetsFit st
      → find (is_supplier_note org id) st.notes ≡ some n
      → offset_for quotient org n k st ≡ ok o
      → OffsetsFit (match_note_transaction db org n r p o st)
  matched db org id n r p k o st fit there share =
      transaction-OffsetsFit org st n r p db id o fit there
        (offset_for-IsShare quotient division org n k st o fit share)

  -- A match of a credit note, answered or refused, keeps the offsets within the taxes.
  pub match_note-OffsetsFit :
      (db : Db) (org id : ℕ) (dto : MatchNoteDto) (st : Taxes)
      → OffsetsFit st
      → OffsetsFit (match_note quotient db org id dto st).1
  unfolding match_note
  match_note-OffsetsFit db org id dto st fit =
      elim (Option-cases (find (is_supplier_note org id) st.notes)) [
        | inl missing ↦ rw (missing, match_note) fit
        | inr (n, there) ↦
            rw (there, match_note)
              (elim (Bool-cases (is_matched n.status)) [
                | inl done ↦ rw done fit
                | inr fresh ↦ rw fresh (elim (Result-cases (original_of org n dto st)) [
                  | inr (e, refused) ↦ rw refused fit
                  | inl ((receipt, purchase), original) ↦
                      rw original (elim (Result-cases (check_purchase db org n purchase)) [
                        | inr (e, refused) ↦ rw refused fit
                        | inl (u, checked) ↦
                            rw checked
                              (elim (Result-cases (offset_for quotient org n dto.deduction_id st)) [
                                | inr (e, refused) ↦ rw refused fit
                                | inl (o, share) ↦ rw share (
                                    matched db org id n receipt purchase dto.deduction_id o st fit
                                      there share)
                              ])
                      ])
                ])
              ])
      ]
