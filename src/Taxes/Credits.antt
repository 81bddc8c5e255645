-- ===== src/Taxes/Credits.antt =====
-- compliance/supplier-etims/supplier-etims.service.ts: credit notes of suppliers and their matches,
-- which offset a tax that was withheld. `quotient a b` is the decimal that the library divides to, as a number over a
-- power of ten. Amounts of a request are not negative, by the pattern of the dto.
use biz360_sme_erp_e_tims.Base.{
  ℕ, suc, ◌+◌, ◌^◌, Bool, true, false, not, ◌&&◌, Option, none, some, List, ◌∷◌, ◌==◌, find,
  update_where, if◌then◌else◌, or_default,
}
use biz360_sme_erp_e_tims.Base.Int.{ℤ, pos, ◌*ℤ◌, ltb_ℤ, leb_ℤ}
use biz360_sme_erp_e_tims.Result.{
  Result, ok, err, not_found, bad_request, conflict, number_taken, note_missing, purchase_missing,
  other_supplier, already_matched, already_offset,
}
use biz360_sme_erp_e_tims.Store.{Db}
use biz360_sme_erp_e_tims.Taxes.{Deduction, MatchStatus, SupplierNote, FlagType, Flag, Taxes}
use biz360_sme_erp_e_tims.Taxes.Withholding.{is_deduction, is_matched, half_up}
use biz360_sme_erp_e_tims.Taxes.Suppliers.{
  supplier_or_throw, is_receipt, is_purchase, is_open_flag, resolve_flag,
}

pub record NoteDto : Type 0 where
  pub supplier_id : ℕ
  pub number : ℕ
  pub amount : ℕ
  pub tax : Option ℕ
  pub receipt_id : Option ℕ
  pub purchase_id : Option ℕ

abbrev pub has_note_number : ℕ → ℕ → SupplierNote → Bool
has_note_number org n x = x.org == org && x.number == n && not x.deleted

abbrev pub supplier_note_row : ℕ → ℕ → NoteDto → SupplierNote
supplier_note_row org k dto = record {
  id = k;
  org = org;
  supplier_id = dto.supplier_id;
  number = dto.number;
  total = dto.amount + or_default dto.tax 0;
  receipt_id = dto.receipt_id;
  purchase_id = dto.purchase_id;
  status = MatchStatus.unmatched;
  offset = none;
  deleted = false;
}

-- `createCreditNote`
unfoldable pub create_supplier_note : Db → ℕ → NoteDto → Taxes → Result ℕ × Taxes
unfolding supplier_or_throw
create_supplier_note db org dto st = elim (supplier_or_throw org dto.supplier_id db) [
  | err e ↦ (err e, st)
  | ok p ↦ elim (find (has_note_number org dto.number) st.notes) [
    | some dup ↦ (err (conflict number_taken), st)
    | none ↦ (
      ok st.next_id,
      record st {
        next_id = suc st.next_id;
        notes = supplier_note_row org st.next_id dto ∷ st.notes;
      },
    )
  ]
]

abbrev pub is_supplier_note : ℕ → ℕ → SupplierNote → Bool
is_supplier_note org id n = n.id == id && n.org == org

pub record MatchNoteDto : Type 0 where
  pub receipt_id : Option ℕ
  pub purchase_id : Option ℕ
  pub deduction_id : Option ℕ

-- The receipt that the note is for, and the purchase that it is matched to.
unfoldable pub original_of : ℕ → SupplierNote → MatchNoteDto → Taxes → Result (Option ℕ × Option ℕ)
original_of org n dto st = elim dto.receipt_id [
  | none ↦ ok (none, dto.purchase_id)
  | some k ↦ elim (find (is_receipt org k) st.receipts) [
    | none ↦ err (bad_request other_supplier)
    | some r ↦
        if not (r.supplier_id == n.supplier_id)
        then err (bad_request other_supplier)
        else ok (some r.id, elim dto.purchase_id [ none ↦ r.purchase_id | some p ↦ some p ])
  ]
]

unfoldable pub check_purchase : Db → ℕ → SupplierNote → Option ℕ → Result (Unit {0})
check_purchase db org n none = ok tt
check_purchase db org n (some k) = elim (find (is_purchase org k) db.purchases) [
  | none ↦ err (not_found purchase_missing)
  | some p ↦ if not (p.party_id == n.supplier_id) then err (bad_request other_supplier) else ok tt
]

abbrev pub offsets_deduction : ℕ → Option (ℕ × ℤ) → Bool
offsets_deduction k none = false
offsets_deduction k (some (j, a)) = j == k

abbrev pub uses_deduction : ℕ → ℕ → SupplierNote → Bool
uses_deduction org k x = x.org == org && offsets_deduction k x.offset && not x.deleted

abbrev pub has_note_id : ℕ → SupplierNote → Bool
has_note_id id n = n.id == id

abbrev pub match_note_row : Option ℕ → Option ℕ → Option (ℕ × ℤ) → SupplierNote → SupplierNote
match_note_row receipt purchase offset n = record n {
  receipt_id = receipt;
  purchase_id = purchase;
  status = MatchStatus.matched;
  offset = elim offset [ none ↦ n.offset | some o ↦ some o ];
}

abbrev pub is_mismatch : FlagType → Bool
is_mismatch FlagType.partial_amount_mismatch = true
is_mismatch _ = false

abbrev pub is_open_mismatch : ℕ → ℕ → Flag → Bool
is_open_mismatch org purchase f = is_open_flag org purchase f && is_mismatch f.type

-- A credit that closes the gap to the purchase settles its mismatch.
unfoldable pub bridge : Db → ℕ → SupplierNote → Option ℕ → Option ℕ → Taxes → List Flag
bridge db org n (some r) (some p) st = elim (find (is_purchase org p) db.purchases) [
  | none ↦ st.flags
  | some purchase ↦ elim (find (is_receipt org r) st.receipts) [
    | none ↦ st.flags
    | some receipt ↦
        if leb_ℤ purchase.total (pos (receipt.amount + n.total))
        then update_where (is_open_mismatch org p) resolve_flag st.flags
        else st.flags
  ]
]
bridge db org n _ _ st = st.flags

unfoldable pub match_note_transaction :
    Db → ℕ → SupplierNote → Option ℕ → Option ℕ → Option (ℕ × ℤ) → Taxes → Taxes
unfolding bridge
match_note_transaction db org n receipt purchase offset st = record st {
  notes = update_where (has_note_id n.id) (match_note_row receipt purchase offset) st.notes;
  flags = bridge db org n receipt purchase st;
}

module _ (quotient : ℤ → ℤ → ℕ × ℕ) where
  -- The share of the tax that the credit undoes; the credit counts up to the gross amount.
  unfoldable pub offset_amount : Deduction → SupplierNote → ℤ
  unfolding half_up
  offset_amount d n =
      let capped = if ltb_ℤ (pos n.total) d.gross then pos n.total else d.gross in
      if ltb_ℤ (pos 0) d.gross
      then (let q = quotient capped d.gross in half_up (d.withheld *ℤ pos q.0) (10 ^ q.1))
      else pos 0

  unfoldable pub offset_for : ℕ → SupplierNote → Option ℕ → Taxes → Result (Option (ℕ × ℤ))
  unfolding offset_amount
  offset_for org n none st = ok none
  offset_for org n (some k) st = elim (find (is_deduction org k) st.deductions) [
    | none ↦ err (bad_request other_supplier)
    | some d ↦
        if not (d.supplier_id == n.supplier_id)
        then err (bad_request other_supplier)
        else elim (find (uses_deduction org d.id) st.notes) [
          | some used ↦ err (conflict already_offset)
          | none ↦ ok (some (d.id, offset_amount d n))
        ]
  ]

  -- `matchCreditNote`
  unfoldable pub match_note : Db → ℕ → ℕ → MatchNoteDto → Taxes → Result (Unit {0}) × Taxes
  unfolding original_of check_purchase offset_for match_note_transaction
  match_note db org id dto st = elim (find (is_supplier_note org id) st.notes) [
    | none ↦ (err (not_found note_missing), st)
    | some n ↦
        if is_matched n.status
        then (err (conflict already_matched), st)
        else elim (original_of org n dto st) [
          | err e ↦ (err e, st)
          | ok (receipt, purchase) ↦ elim (check_purchase db org n purchase) [
            | err e ↦ (err e, st)
            | ok _ ↦ elim (offset_for org n dto.deduction_id st) [
              | err e ↦ (err e, st)
              | ok offset ↦ (ok tt, match_note_transaction db org n receipt purchase offset st)
            ]
          ]
        ]
  ]
