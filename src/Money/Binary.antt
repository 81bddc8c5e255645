-- ===== src/Money/Binary.antt =====
-- The numbers of JavaScript that stand for money: finite binary fractions of 53 significant bits.
-- An operation gives the nearest such number to its exact result, of two equally near the one whose
-- last digit is even. Results below 2 ^ 1024 are meant; there is no negative zero.
use biz360_sme_erp_e_tims.Base.{
  ℕ, zero, suc, ◌+◌, ◌*◌, ◌/◌, ◌%◌, ◌^◌, true, false, ltb, leb, if◌then◌else◌,
}
use biz360_sme_erp_e_tims.Base.Int.{ℤ, pos, negsuc, ◌+ℤ◌, ◌-ℤ◌, ◌*ℤ◌, floor_div}

-- The number numerator / denominator; the denominator is a power of two.
pub record Double : Type 0 where
  pub numerator : ℤ
  pub denominator : ℕ

-- n / d as a whole number: the nearest one, and the even one of two.
unfoldable pub round_even : ℕ → ℕ → ℕ
round_even n d =
    let q = n / d in
    let r = n % d in if ltb (2 * r) d then q else if ltb d (2 * r) then q + 1 else q + q % 2

-- The denominator at which n / d has 53 digits. No denominator is above 2 ^ 1074.
unfoldable pub finer : ℕ → ℕ → ℕ → ℕ → ℕ
finer zero n d s = s
finer (suc fuel) n d s = elim (ltb (n * s) (2 ^ 52 * d)) [
  | true ↦ finer fuel n d (2 * s)
  | false ↦ s
]

-- The power of two of the last digit, where n / d is at least 2 ^ 53.
unfoldable pub coarser : ℕ → ℕ → ℕ → ℕ → ℕ
coarser zero n d u = u
coarser (suc fuel) n d u = elim (leb (2 ^ 53 * (d * u)) n) [
  | true ↦ coarser fuel n d (2 * u)
  | false ↦ u
]

-- The double that is nearest to n / d, as a numerator and a denominator.
unfoldable pub nearest_pos : ℕ → ℕ → ℕ × ℕ
unfolding round_even finer coarser
nearest_pos n d = elim (leb (2 ^ 53 * d) n) [
  | true ↦ let u = coarser 971 n d 1 in (round_even n (d * u) * u, 1)
  | false ↦ let s = finer 1074 n d 1 in (round_even (n * s) d, s)
]

unfoldable pub nearest : ℤ → ℕ → Double
unfolding nearest_pos
nearest (pos n) d = let q = nearest_pos n d in record { numerator = pos q.0; denominator = q.1 }
nearest (negsuc n) d =
    let q = nearest_pos (n + 1) d in record { numerator = pos 0 -ℤ pos q.0; denominator = q.1 }

abbrev pub whole : ℕ → Double
whole n = record { numerator = pos n; denominator = 1 }

unfoldable pub plus : Double → Double → Double
unfolding nearest
plus a b =
    nearest (a.numerator *ℤ pos b.denominator +ℤ b.numerator *ℤ pos a.denominator)
      (a.denominator * b.denominator)

unfoldable pub minus : Double → Double → Double
unfolding nearest
minus a b =
    nearest (a.numerator *ℤ pos b.denominator -ℤ b.numerator *ℤ pos a.denominator)
      (a.denominator * b.denominator)

unfoldable pub times : Double → Double → Double
unfolding nearest
times a b = nearest (a.numerator *ℤ b.numerator) (a.denominator * b.denominator)

-- `a / 100`
unfoldable pub over_100 : Double → Double
unfolding nearest
over_100 a = nearest a.numerator (a.denominator * 100)

-- `Math.round`: the nearest integer, and a tie goes up.
unfoldable pub math_round : Double → ℤ
math_round a = floor_div (a.numerator *ℤ pos 2 +ℤ pos a.denominator) (2 * a.denominator)

-- `Number.EPSILON`
abbrev pub epsilon : Double
epsilon = record { numerator = pos 1; denominator = 2 ^ 52 }
