-- ===== src/Document/Sums.antt =====
-- The totals of an invoice against its lines, in the sums of createDraft.
use biz360_sme_erp_e_tims.Base.{ℕ, ◌+◌, ◌≤◌, ◌<◌, ◌≡◌, refl, ap, List, [], ◌∷◌, All, map, arith}
use biz360_sme_erp_e_tims.Base.Int.{ℤ, pos, negsuc, pos_part, ◌≤ℤ◌}
use biz360_sme_erp_e_tims.Money.{sum}
use biz360_sme_erp_e_tims.Money.Exact.{total, length, sum_exact, add_exact}
use biz360_sme_erp_e_tims.Document.{ComputedLine, totals}

-- The cents of a figure of the lines, added up.
abbrev pub added : (ComputedLine → ℤ) → List ComputedLine → ℕ
added f lines = total (map (λ l. pos_part (f l)) lines)

abbrev pub line_count : List ComputedLine → ℕ
line_count [] = 0
line_count (l ∷ ls) = 1 + line_count ls

same_part : (v : ℤ) → pos 0 ≤ℤ v → v ≡ pos (pos_part v)
same_part (pos n) h = refl
same_part (negsuc n) h = absurd (omega arith)

parts :
    (f : ComputedLine → ℤ) (lines : List ComputedLine)
    → All (λ l. pos 0 ≤ℤ f l) lines
    → map f lines ≡ map pos (map (λ l. pos_part (f l)) lines)
parts f [] h = refl
parts f (l ∷ ls) h =
    rw (parts f ls h.1) (ap (λ v. v ∷ map pos (map (λ x. pos_part (f x)) ls)) (same_part (f l) h.0))

length-map :
    (f : ComputedLine → ℕ) (lines : List ComputedLine) → length (map f lines) ≡ line_count lines
length-map f [] = refl
length-map f (l ∷ ls) = rw (length-map f ls) refl

sum_of_lines :
    (f : ComputedLine → ℤ) (lines : List ComputedLine)
    → All (λ l. pos 0 ≤ℤ f l) lines
    → added f lines < 800_000_000_000
    → line_count lines ≤ 1000
    → sum (map f lines) ≡ pos (added f lines)
sum_of_lines f lines h small few = rw (parts f lines h) (
    sum_exact (map (λ l. pos_part (f l)) lines) small
      (rw (length-map (λ l. pos_part (f l)) lines) few))

-- Of at most a thousand lines whose amounts, totals and taxes are not negative and each stay below
-- four billion together, the subtotal is the sum of the amounts, the tax the sum of the taxes, and
-- the total the sum of the line totals and the taxes, all exact to the cent.
pub totals_exact :
    (lines : List ComputedLine)
    → line_count lines ≤ 1000
    → All (λ (l : ComputedLine). pos 0 ≤ℤ l.line_amount) lines
    → All (λ (l : ComputedLine). pos 0 ≤ℤ l.line_total) lines
    → All (λ (l : ComputedLine). pos 0 ≤ℤ l.tax_amount) lines
    → added (λ l. l.line_amount) lines < 400_000_000_000
    → added (λ l. l.line_total) lines < 400_000_000_000
    → added (λ l. l.tax_amount) lines < 400_000_000_000
    → let t = totals lines in
      (t.subtotal ≡ pos (added (λ l. l.line_amount) lines))
      × (t.tax_total ≡ pos (added (λ l. l.tax_amount) lines))
      × (t.total ≡ pos (added (λ l. l.line_total) lines + added (λ l. l.tax_amount) lines))
unfolding totals
totals_exact lines few a b c small_a small_b small_c =
    let amounts = sum_of_lines (λ l. l.line_amount) lines a (omega (arith, small_a)) few in
    let line_totals = sum_of_lines (λ l. l.line_total) lines b (omega (arith, small_b)) few in
    let taxes = sum_of_lines (λ l. l.tax_amount) lines c (omega (arith, small_c)) few in
    (amounts, taxes, rw (line_totals, taxes) (add_exact _ _ small_b small_c))
