-- ===== src/Taxes/Withholding.antt =====
-- accounting/withholding-tax/withholding-tax.service.ts. The product and the quotient of decimals
-- are exact here; the library keeps twenty digits.
use biz360_sme_erp_e_tims.Base.{
  ℕ, suc, ◌+◌, ◌*◌, ◌/◌, Bool, true, false, not, ◌&&◌, none, some, List, ◌∷◌, ◌==◌, leb, find,
  keep_where, count_where, update_where, sum_of, if◌then◌else◌,
}
use biz360_sme_erp_e_tims.Base.Int.{ℤ, pos, negsuc, ◌-ℤ◌, ◌*ℤ◌}
use biz360_sme_erp_e_tims.Result.{
  Result, ok, err, not_found, bad_request, payment_missing, not_a_supplier, deduction_missing,
}
use biz360_sme_erp_e_tims.Store.{PartyType, Party, Payment, Db}
use biz360_sme_erp_e_tims.Taxes.{
  PaymentType, Residency, TaxRate, Certificate, Deduction, MatchStatus, SupplierNote, Taxes,
}
use biz360_sme_erp_e_tims.Taxes.Rates.{resolve_rate}

-- `toDecimalPlaces(0)` of n / d: a tie goes away from zero.
unfoldable pub half_up : ℤ → ℕ → ℤ
half_up (pos n) d = pos ((2 * n + d) / (2 * d))
half_up (negsuc n) d = pos 0 -ℤ pos ((2 * (n + 1) + d) / (2 * d))

-- `gross.mul(ratePercent).div(100).toDecimalPlaces(2)`
unfoldable pub withheld_of : ℤ → ℕ → ℤ
withheld_of gross percent = half_up (gross *ℤ pos percent) 10_000

abbrev pub is_payment : ℕ → ℕ → Payment → Bool
is_payment org id p = p.id == id && p.org == org

abbrev pub has_party_id : ℕ → Party → Bool
has_party_id id p = p.id == id

abbrev pub is_customer : PartyType → Bool
is_customer PartyType.customer = true
is_customer _ = false

-- The payment and a test of its party, which a foreign key keeps there.
unfoldable pub supplier_payment : ℕ → ℕ → Db → Result Payment
supplier_payment org id db = elim (find (is_payment org id) db.payments) [
  | none ↦ err (not_found payment_missing)
  | some p ↦ elim (find (has_party_id p.party_id) db.parties) [
    | none ↦ err (not_found payment_missing)
    | some party ↦ if is_customer party.type then err (bad_request not_a_supplier) else ok p
  ]
]

abbrev pub is_deduction_of : ℕ → ℕ → Deduction → Bool
is_deduction_of org payment d = d.org == org && d.payment_id == payment

unfoldable pub deduction_row : ℕ → Payment → TaxRate → Taxes → Deduction
unfolding withheld_of
deduction_row org p rate st =
    let w = withheld_of p.amount rate.percent in
    record {
      id = st.next_id;
      org = org;
      supplier_id = p.party_id;
      payment_id = p.id;
      payment_type = PaymentType.professional_fees;
      gross = p.amount;
      percent = rate.percent;
      withheld = w;
      net = p.amount -ℤ w;
      certificate = none;
      created_at = st.now;
    }

unfoldable pub insert_deduction : Deduction → Taxes → Taxes
insert_deduction d st = record st { next_id = suc st.next_id; deductions = d ∷ st.deductions }

-- `record`: the id of the deduction.
unfoldable pub record_deduction : Db → ℕ → ℕ → Taxes → Result ℕ × Taxes
unfolding supplier_payment resolve_rate deduction_row insert_deduction
record_deduction db org payment st = elim (supplier_payment org payment db) [
  | err e ↦ (err e, st)
  | ok p ↦ elim (find (is_deduction_of org p.id) st.deductions) [
    | some d ↦ (ok d.id, st)
    | none ↦ elim (resolve_rate org PaymentType.professional_fees Residency.resident st.now st) [
      | err e ↦ (err e, st)
      | ok rate ↦ (ok st.next_id, insert_deduction (deduction_row org p rate st) st)
    ]
  ]
]

-- The year of a time, and the first and last time that the count of a year takes in.
pub record Calendar : Type 0 where
  pub year_of : ℕ → ℕ
  pub year_start : ℕ → ℕ
  pub year_end : ℕ → ℕ

abbrev pub is_deduction : ℕ → ℕ → Deduction → Bool
is_deduction org id d = d.id == id && d.org == org

abbrev pub is_in_year : Calendar → ℕ → ℕ → Deduction → Bool
is_in_year c org year d =
    d.org == org && leb (c.year_start year) d.created_at && leb d.created_at (c.year_end year)

abbrev pub has_deduction_id : ℕ → Deduction → Bool
has_deduction_id id d = d.id == id

abbrev pub with_certificate : Certificate → Deduction → Deduction
with_certificate n d = record d { certificate = some n }

-- `certificate`: the row as it is afterwards.
unfoldable pub issue_certificate : Calendar → ℕ → ℕ → Taxes → Result Deduction × Taxes
issue_certificate c org id st = elim (find (is_deduction org id) st.deductions) [
  | none ↦ (err (not_found deduction_missing), st)
  | some d ↦ elim d.certificate [
    | some n ↦ (ok d, st)
    | none ↦
        let year = c.year_of st.now in
        let n : Certificate = record {
          year = year;
          sequence = count_where (is_in_year c org year) st.deductions + 1;
        } in
        (
          ok (with_certificate n d),
          record st {
            deductions = update_where (has_deduction_id d.id) (with_certificate n) st.deductions;
          },
        )
  ]
]

abbrev pub is_matched : MatchStatus → Bool
is_matched MatchStatus.matched = true
is_matched _ = false

abbrev pub has_id_among : ℕ → List Deduction → Bool
has_id_among k ds = not (count_where (has_deduction_id k) ds == 0)

-- The amount by which a note counts in the summary of some deductions.
unfoldable pub offset_in : ℕ → List Deduction → SupplierNote → ℤ
offset_in org ds n = elim n.offset [
  | none ↦ pos 0
  | some (k, a) ↦
      if n.org == org && is_matched n.status && not n.deleted && has_id_among k ds then a else pos 0
]

abbrev pub is_created_in : ℕ → ℕ → ℕ → Deduction → Bool
is_created_in org from to d = d.org == org && leb from d.created_at && leb d.created_at to

pub record Remittance : Type 0 where
  pub gross : ℤ
  pub withheld : ℤ
  pub offset : ℤ
  pub remittable : ℤ

-- The totals of `remittanceSummary`.
unfoldable pub remittance_summary : ℕ → ℕ → ℕ → Taxes → Remittance
unfolding offset_in
remittance_summary org from to st =
    let ds = keep_where (is_created_in org from to) st.deductions in
    let withheld = sum_of (λ (d : Deduction). d.withheld) ds in
    let offset = sum_of (offset_in org ds) st.notes in
    record {
      gross = sum_of (λ (d : Deduction). d.gross) ds;
      withheld = withheld;
      offset = offset;
      remittable = withheld -ℤ offset;
    }
