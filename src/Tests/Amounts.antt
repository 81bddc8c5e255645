-- ===== src/Tests/Amounts.antt =====
-- Roundings of amounts, among them ties that the binary fractions miss.
use biz360_sme_erp_e_tims.Base.{◌+◌, ◌≡◌, refl, [], ◌∷◌, map, arith}
use biz360_sme_erp_e_tims.Base.Int.{pos, ◌+ℤ◌, ◌*ℤ◌, floor_div}
use biz360_sme_erp_e_tims.Money.{multiply, percentage, sum}
use biz360_sme_erp_e_tims.Money.Exact.{sum_exact}
use biz360_sme_erp_e_tims.Document.{totals}
use biz360_sme_erp_e_tims.Document.Sums.{totals_exact}
use biz360_sme_erp_e_tims.Tests.Shop.{three_of_flour}

-- 0.15 of 13.70 is 2.055, and the product lies just under it.
tie_missed : multiply (pos 15) (pos 1370) ≡ pos 205
unfolding multiply floor_div ◌+ℤ◌ ◌*ℤ◌
tie_missed = refl

-- 16.5 percent of 51.00 is 8.415.
tax_missed : percentage (pos 5100) (pos 1650) ≡ pos 841
unfolding percentage floor_div ◌+ℤ◌ ◌*ℤ◌
tax_missed = refl

-- 1.5 of 0.01, a tie that goes up.
tie_up : multiply (pos 150) (pos 1) ≡ pos 2
unfolding multiply floor_div ◌+ℤ◌ ◌*ℤ◌
tie_up = refl

-- 0.10 and 0.20 are binary fractions whose sum is above 0.30.
sum_exact_example : sum (map pos (10 ∷ 20 ∷ [])) ≡ pos 30
sum_exact_example = sum_exact (10 ∷ 20 ∷ []) (omega arith) (omega arith)

totals_exact_example :
    (let t = totals (three_of_flour ∷ three_of_flour ∷ []) in
      (t.subtotal ≡ pos 60_000) × (t.tax_total ≡ pos 9600) × (t.total ≡ pos (60_000 + 9600)))
totals_exact_example =
    totals_exact (three_of_flour ∷ three_of_flour ∷ []) (omega arith)
      (omega arith, (omega arith, tt)) (omega arith, (omega arith, tt))
      (omega arith, (omega arith, tt)) (omega arith) (omega arith) (omega arith)
