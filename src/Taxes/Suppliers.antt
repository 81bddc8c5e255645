-- ===== src/Taxes/Suppliers.antt =====
-- compliance/supplier-etims/supplier-etims.service.ts: receipts of suppliers and their matches
-- with purchases. Amounts of a request are not negative, by the pattern of the dto.
use biz360_sme_erp_e_tims.Base.{
  ℕ, suc, Bool, true, false, not, ◌&&◌, Option, none, some, ◌∷◌, ◌==◌, find, update_where,
  if◌then◌else◌, or_default,
}
use biz360_sme_erp_e_tims.Base.Int.{pos, ◌-ℤ◌, ◌==ℤ◌}
use biz360_sme_erp_e_tims.Result.{
  Result, ok, err, not_found, bad_request, conflict, supplier_missing, number_taken,
  receipt_missing, purchase_missing, other_supplier,
}
use biz360_sme_erp_e_tims.Store.{Party, Invoice, Db}
use biz360_sme_erp_e_tims.Taxes.{MatchStatus, SupplierReceipt, FlagType, Flag, Taxes}
use biz360_sme_erp_e_tims.Taxes.Withholding.{is_customer}

abbrev pub is_live_party : ℕ → ℕ → Party → Bool
is_live_party org id p = p.id == id && p.org == org && not p.deleted

-- `supplierOrThrow`
unfoldable pub supplier_or_throw : ℕ → ℕ → Db → Result Party
supplier_or_throw org id db = elim (find (is_live_party org id) db.parties) [
  | none ↦ err (bad_request supplier_missing)
  | some p ↦ if is_customer p.type then err (bad_request supplier_missing) else ok p
]

pub record ReceiptDto : Type 0 where
  pub supplier_id : ℕ
  pub number : ℕ
  pub amount : ℕ
  pub tax : Option ℕ

-- The check of `create` takes in deleted rows.
abbrev pub has_receipt_number : ℕ → ℕ → SupplierReceipt → Bool
has_receipt_number org n r = r.org == org && r.number == n

unfoldable pub insert_receipt : ℕ → ℕ → ℕ → ℕ → ℕ → Taxes → Taxes
insert_receipt org supplier number amount tax st = record st {
  next_id = suc st.next_id;
  receipts =
      record {
        id = st.next_id;
        org = org;
        supplier_id = supplier;
        number = number;
        amount = amount;
        tax = tax;
        purchase_id = none;
        status = MatchStatus.unmatched;
        deleted = false;
      }
      ∷ st.receipts;
}

unfoldable pub create_receipt : Db → ℕ → ReceiptDto → Taxes → Result ℕ × Taxes
unfolding supplier_or_throw insert_receipt
create_receipt db org dto st = elim (supplier_or_throw org dto.supplier_id db) [
  | err e ↦ (err e, st)
  | ok p ↦ elim (find (has_receipt_number org dto.number) st.receipts) [
    | some dup ↦ (err (conflict number_taken), st)
    | none ↦
        (ok st.next_id, insert_receipt org p.id dto.number dto.amount (or_default dto.tax 0) st)
  ]
]

abbrev pub is_receipt : ℕ → ℕ → SupplierReceipt → Bool
is_receipt org id r = r.id == id && r.org == org

abbrev pub is_purchase : ℕ → ℕ → Invoice → Bool
is_purchase org id p = p.id == id && p.org == org

abbrev pub has_receipt_id : ℕ → SupplierReceipt → Bool
has_receipt_id id r = r.id == id

abbrev pub match_row : ℕ → SupplierReceipt → SupplierReceipt
match_row purchase r = record r { purchase_id = some purchase; status = MatchStatus.matched }

abbrev pub is_open_flag : ℕ → ℕ → Flag → Bool
is_open_flag org purchase f = f.org == org && f.purchase_id == purchase && not f.resolved

abbrev pub resolve_flag : Flag → Flag
resolve_flag f = record f { resolved = true }

-- The transaction of `match`.
unfoldable pub match_transaction : ℕ → SupplierReceipt → Invoice → Taxes → Taxes
match_transaction org r p st =
    let settled = update_where (is_open_flag org p.id) resolve_flag st.flags in
    record st {
      receipts = update_where (has_receipt_id r.id) (match_row p.id) st.receipts;
      flags =
          if pos r.amount ==ℤ p.total
          then settled
          else record {
            org = org;
            purchase_id = p.id;
            type = FlagType.partial_amount_mismatch;
            mismatch = some (p.total -ℤ pos r.amount);
            resolved = false;
          }
            ∷ settled;
    }

unfoldable pub match_receipt : Db → ℕ → ℕ → ℕ → Taxes → Result (Unit {0}) × Taxes
unfolding match_transaction
match_receipt db org id purchase st = elim (find (is_receipt org id) st.receipts) [
  | none ↦ (err (not_found receipt_missing), st)
  | some r ↦ elim (find (is_purchase org purchase) db.purchases) [
    | none ↦ (err (not_found purchase_missing), st)
    | some p ↦
        if not (p.party_id == r.supplier_id)
        then (err (bad_request other_supplier), st)
        else (ok tt, match_transaction org r p st)
  ]
]
