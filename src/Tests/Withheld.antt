-- ===== src/Tests/Withheld.antt =====
-- Taxes withheld from one supplier and a credit note, with quotients of two places and years of a
-- thousand milliseconds.
use native.Mathlib.Nat.{div-lt_iff_lt-mul}
use biz360_sme_erp_e_tims.Base.{
  ℕ, ◌+◌, ◌*◌, ◌/◌, ◌≤◌, ◌<◌, true, false, ◌≡◌, ◌⊎◌, refl, Option, some, none, List, [], ◌∷◌, All,
  find, arith,
}
use biz360_sme_erp_e_tims.Base.Int.{ℤ, pos, pos_part, ◌+ℤ◌, ◌-ℤ◌, ◌*ℤ◌, ◌≤ℤ◌}
use biz360_sme_erp_e_tims.Store.{Payment, Settles, Db}
use biz360_sme_erp_e_tims.Taxes.{PaymentType, Residency, TaxRate, Certificate, Deduction, Taxes}
use biz360_sme_erp_e_tims.Taxes.Rates.{payment_type_code, is_effective, resolve_rate}
use biz360_sme_erp_e_tims.Taxes.Withholding.{
  Calendar, half_up, withheld_of, issue_certificate, record_deduction, with_certificate,
  is_deduction, remittance_summary,
}
use biz360_sme_erp_e_tims.Taxes.Credits.{create_supplier_note, match_note}
use biz360_sme_erp_e_tims.Taxes.Latest.{resolve_rate_latest}
use biz360_sme_erp_e_tims.Taxes.Certificates.{after_certificate, certificates_clash}
use biz360_sme_erp_e_tims.Taxes.Shares.{Divides}
use biz360_sme_erp_e_tims.Taxes.Offsets.{OffsetsFit}
use biz360_sme_erp_e_tims.Taxes.Requests.{
  Request, records, certifies, adds_note, matches_note, serve_all, remittable_after,
}
use biz360_sme_erp_e_tims.Tests.Shop.{shop}

abbrev hundredths : ℤ → ℤ → ℕ × ℕ
hundredths a b = (100 * pos_part a / pos_part b, 2)

hundredths_le : (a b : ℕ) → a ≤ b → 0 < b → 100 * a / b ≤ 100
hundredths_le a b h p =
    let under : 100 * a < 101 * b = omega (arith, h, p) in
    let le = (div-lt_iff_lt-mul {k = b} {x = 100 * a} {y = 101} p).1 under in omega arith

abbrev division : Divides hundredths
division = record { at_most_one = hundredths_le }

abbrev calendar : Calendar
calendar = record {
  year_of = λ t. t / 1000;
  year_start = λ y. y * 1000;
  year_end = λ y. y * 1000 + 999;
}

abbrev rate : ℕ → Option ℕ → ℕ → ℕ → TaxRate
rate id org percent from = record {
  id = id;
  org = org;
  payment_type = PaymentType.professional_fees;
  residency = Residency.resident;
  percent = percent;
  effective_from = from;
  effective_to = none;
}

-- The default of the system, and two rates of the organization, the second not yet in effect.
abbrev start : Taxes
start = record {
  next_id = 10;
  now = 5000;
  rates = rate 1 none 300 0 ∷ rate 2 (some 1) 500 4000 ∷ rate 3 (some 1) 700 6000 ∷ [];
  deductions = [];
  receipts = [];
  notes = [];
  flags = [];
}

resolve_rate_latest_example :
    (o : Option ℕ) × ((o ≡ some 1)
      ⊎ ((o ≡ none)
          × All
              (λ y.
                is_effective (some 1) PaymentType.professional_fees Residency.resident 5000 y
                ≡ false)
              start.rates))
    × (is_effective o PaymentType.professional_fees Residency.resident 5000
          (rate 2 (some 1) 500 4000)
        ≡ true)
    × All
        (λ y.
          (is_effective o PaymentType.professional_fees Residency.resident 5000 y ≡ false)
          ⊎ (y.effective_from ≤ 4000))
        start.rates
unfolding resolve_rate payment_type_code
resolve_rate_latest_example =
    resolve_rate_latest 1 PaymentType.professional_fees Residency.resident 5000 start
      (rate 2 (some 1) 500 4000) refl

abbrev taken : ℕ → Deduction
taken id = record {
  id = id;
  org = 1;
  supplier_id = 21;
  payment_id = id + 100;
  payment_type = PaymentType.professional_fees;
  gross = pos 100_000;
  percent = 500;
  withheld = pos 5000;
  net = pos 95_000;
  certificate = none;
  created_at = 5000;
}

abbrev withheld_twice : Taxes
withheld_twice = record start { next_id = 12; deductions = taken 11 ∷ taken 10 ∷ [] }

abbrev third : Certificate
third = record { year = 5; sequence = 3 }

certificates_clash_example :
    (find
        (is_deduction 1 10)
        (after_certificate calendar 1 11
          (after_certificate calendar 1 10 withheld_twice)).deductions
      ≡ some (with_certificate third (taken 10)))
    × (find
          (is_deduction 1 11)
          (after_certificate calendar 1 11
            (after_certificate calendar 1 10 withheld_twice)).deductions
        ≡ some (with_certificate third (taken 11)))
certificates_clash_example =
    certificates_clash calendar 1 10 11 (taken 10) (taken 11) withheld_twice (omega arith) refl refl
      refl refl

abbrev payment : Payment
payment = record {
  id = 90;
  org = 1;
  party_id = 21;
  settles = Settles.purchase 80;
  amount = pos 100_000;
}

abbrev paid_shop : Db
paid_shop = record shop { payments = payment ∷ [] }

-- A payment of 1000.00 is taxed, certified, and a fifth of it credited.
abbrev credited : List Request
credited =
    records paid_shop 1 90
    ∷ certifies 1 10
    ∷ adds_note paid_shop 1 record {
      supplier_id = 21;
      number = 7;
      amount = 20_000;
      tax = none;
      receipt_id = none;
      purchase_id = none;
    }
    ∷ matches_note paid_shop 1 11
        record { receipt_id = none; purchase_id = none; deduction_id = some 10 }
    ∷ []

start-OffsetsFit : OffsetsFit start
start-OffsetsFit = record { taxes = tt; notes = tt; apart = tt; taxes_apart = tt; covers = tt }

remittable_after_example :
    pos 0 ≤ℤ (remittance_summary 1 0 9999 (serve_all hundredths calendar credited start)).remittable
remittable_after_example =
    remittable_after hundredths calendar division credited start 1 0 9999
      ((omega arith, tt), (tt, (tt, (tt, tt)))) start-OffsetsFit

credited_summary :
    remittance_summary 1 0 9999 (serve_all hundredths calendar credited start)
    ≡ record { gross = pos 100_000; withheld = pos 5000; offset = pos 1000; remittable = pos 4000 }
unfolding remittance_summary serve_all payment_type_code half_up withheld_of match_note
    create_supplier_note issue_certificate record_deduction ◌-ℤ◌ ◌+ℤ◌ ◌*ℤ◌
credited_summary = refl
