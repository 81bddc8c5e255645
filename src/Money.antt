-- ===== src/Money.antt =====
-- src/common/helpers/money.ts, over the numbers of JavaScript (Money/Binary). A rounded amount is
-- kept as the integer of its hundredths, and stands for the nearest number to that.
pub mod Binary
pub mod Rounding
pub mod Exact
use biz360_sme_erp_e_tims.Base.{ℕ, ◌*◌, ◌^◌, List, [], ◌∷◌}
use biz360_sme_erp_e_tims.Result.{Result, ok, err, range_error}
use biz360_sme_erp_e_tims.Base.Int.{ℤ}
use biz360_sme_erp_e_tims.Money.Binary.{
  Double, nearest, whole, plus, times, over_100, math_round, epsilon,
}

-- What a request writes: `finite n k` is the decimal n / 10 ^ k, which is read as the nearest
-- number; `not_finite` is NaN or an infinity.
pub data JsNumber : Type 0 where
  finite : ℤ → ℕ → JsNumber
  not_finite : JsNumber

-- The number that an amount is.
unfoldable pub of_cents : ℤ → Double
unfolding nearest
of_cents a = nearest a 100

-- `round2`: the hundredths of the result.
unfoldable pub round2 : Double → ℤ
unfolding math_round times plus
round2 value = math_round (times (plus value epsilon) (whole 100))

unfoldable pub to_amount : JsNumber → Result ℤ
unfolding round2 nearest
to_amount (finite n k) = ok (round2 (nearest n (10 ^ k)))
to_amount not_finite = err range_error

unfoldable pub multiply : ℤ → ℤ → ℤ
unfolding round2 times of_cents
multiply a b = round2 (times (of_cents a) (of_cents b))

unfoldable pub percentage : ℤ → ℤ → ℤ
unfolding round2 times of_cents over_100
percentage base pct = round2 (over_100 (times (of_cents base) (of_cents pct)))

-- `values.reduce((acc, v) => acc + round2(v), 0)`
unfoldable pub sum_from : Double → List ℤ → Double
sum_from acc [] = acc
sum_from acc (v ∷ vs) = sum_from (plus acc (of_cents (round2 (of_cents v)))) vs

unfoldable pub sum : List ℤ → ℤ
sum vs = round2 (sum_from (whole 0) vs)
