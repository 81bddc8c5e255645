-- ===== src/Money/Exact.antt =====
-- Sums of amounts in src/common/helpers/money.ts come out exact, to the cent.
use native.Mathlib.Nat.{
  one-le-mul, div-lt_iff_lt-mul, le-div_iff_mul-le, mul-le-mul_right, le_of_mul-le-mul_right,
  lt_of_mul-lt-mul_right,
}
use biz360_sme_erp_e_tims.Base.{
  ℕ, ◌+◌, ◌*◌, ◌^◌, ◌≤◌, ◌<◌, ◌≡◌, refl, ap, List, [], ◌∷◌, map, arith,
}
use biz360_sme_erp_e_tims.Base.Int.{pos, ◌+ℤ◌, ◌*ℤ◌, floor_div}
use biz360_sme_erp_e_tims.Money.{of_cents, round2, sum_from, sum}
use biz360_sme_erp_e_tims.Money.Binary.{
  Double, nearest, nearest_pos, whole, plus, times, math_round, epsilon,
}
use biz360_sme_erp_e_tims.Money.Rounding.{nearest_pos-near, scale_up, scale_down, sum_up, sum_down}

-- The scale of the errors: in a hundredth of a cent over it.
abbrev scale : ℕ
scale = 2 * 2 ^ 19

-- A number that is not negative lies within t of a cents, both over the scale.
pub record IsNear (x : Double) (a t : ℕ) : Type 0 where
  pub m : ℕ
  pub is : x.numerator ≡ pos m
  pub up : 100 * (scale * m) ≤ (scale * a + t) * x.denominator
  pub down : scale * a * x.denominator ≤ 100 * (scale * m) + t * x.denominator
  pub positive : 0 < x.denominator

nearest-IsNear :
    (n d a t : ℕ)
    → 0 < d
    → scale * a + t < 100 * scale * 2 ^ 33
    → 100 * (scale * n) ≤ (scale * a + t) * d
    → scale * a * d ≤ 100 * (scale * n) + t * d
    → IsNear (nearest (pos n) d) a (t + 100)
unfolding nearest
nearest-IsNear n d a t p bound up down =
    let wide = mul-le-mul_right d bound in
    let (u, l, s) =
      nearest_pos-near 19 n d (omega arith) p (omega (arith, up, wide)) (omega (arith, up, wide)) in
    record {
      m = (nearest_pos n d).0;
      is = refl;
      up =
          omega (
            arith,
            scale_up (nearest_pos n d).0 (nearest_pos n d).1 n d (scale * a) t scale p u up,
          );
      down = omega (
        arith,
        scale_down (nearest_pos n d).0 (nearest_pos n d).1 n d (scale * a) t scale p l down,
      );
      positive = omega (arith, s);
    }

of_cents-IsNear : (a : ℕ) → a < 800_000_000_000 → IsNear (of_cents (pos a)) a 100
unfolding of_cents
of_cents-IsNear a h =
    nearest-IsNear a 100 a 0 (omega arith) (omega (arith, h)) (omega arith) (omega arith)

epsilon-IsNear : IsNear epsilon 0 100
epsilon-IsNear = record {
  m = 1;
  is = refl;
  up = omega arith;
  down = omega arith;
  positive = omega arith;
}

pos_times : (a b : ℕ) → pos a *ℤ pos b ≡ pos (a * b)
unfolding ◌*ℤ◌
pos_times a b = ground arith

pos_plus : (a b : ℕ) → pos a +ℤ pos b ≡ pos (a + b)
unfolding ◌+ℤ◌
pos_plus a b = ground arith

plus_pos :
    (x y : Double) (m n : ℕ)
    → x.numerator ≡ pos m
    → y.numerator ≡ pos n
    → plus x y
      ≡ nearest (pos (m * y.denominator + n * x.denominator)) (x.denominator * y.denominator)
unfolding plus
plus_pos x y m n e f =
    rw (e, f, pos_times m y.denominator, pos_times n x.denominator, pos_plus) refl

-- A sum is off by what its parts are off, and by one rounding.
plus-IsNear :
    (x y : Double) (a b t u : ℕ)
    → IsNear x a t
    → IsNear y b u
    → a + b ≤ 800_000_000_000
    → t + u ≤ 1_000_000
    → IsNear (plus x y) (a + b) (t + u + 100)
plus-IsNear x y a b t u h k small few = rw (plus_pos x y h.m k.m h.is k.is) (
    nearest-IsNear (h.m * y.denominator + k.m * x.denominator) (x.denominator * y.denominator)
      (a + b) (t + u) (one-le-mul h.positive k.positive) (omega (arith, small, few))
      (omega (
        arith,
        sum_up h.m x.denominator k.m y.denominator (scale * a) (scale * b) t u (100 * scale)
            (omega (arith, h.up)) (omega (arith, k.up)),
      ))
      (omega (
        arith,
        sum_down h.m x.denominator k.m y.denominator (scale * a) (scale * b) t u (100 * scale)
            (omega (arith, h.down)) (omega (arith, k.down)),
      )))

-- The nearest whole number, of a number that lies less than a half from one.
math_round-near :
    (m s a : ℕ) (z : Double)
    → z.numerator ≡ pos m
    → z.denominator ≡ s
    → 0 < s
    → a * (2 * s) ≤ 2 * m + s
    → 2 * m + s < (a + 1) * (2 * s)
    → math_round z ≡ pos a
unfolding math_round floor_div
math_round-near m s a z e f p le lt =
    let under =
      (div-lt_iff_lt-mul {k = 2 * s} {x = m * 2 + s} {y = a + 1} (omega arith)).1
        (omega (arith, lt)) in
    let above =
      (le-div_iff_mul-le {k = 2 * s} {x = a} {y = m * 2 + s} (omega arith)).1 (omega (arith, le)) in
    rw (e, f, pos_times, pos_plus) (ap pos (omega (arith, under, above)))

round_up :
    (m s p q a t : ℕ)
    → 0 < s
    → 0 < q
    → 4 * t ≤ scale
    → 100 * (scale * m) ≤ (scale * a + t) * s
    → 2 * 2 ^ 12 * (p * s) ≤ 2 * 2 ^ 12 * (m * 100 * q) + q * s
    → 2 * p + q < (a + 1) * (2 * q)
round_up m s p q a t ps pq few near times =
    let near' = mul-le-mul_right q near in
    let few' = mul-le-mul_right (s * q) few in
    let pos_sq = one-le-mul ps pq in
    let all : (2 * p + q) * s < (a + 1) * (2 * q) * s = omega (arith, near', few', times, pos_sq) in
    lt_of_mul-lt-mul_right s all

round_down :
    (m s p q a t : ℕ)
    → 0 < s
    → 4 * t ≤ scale
    → scale * a * s ≤ 100 * (scale * m) + t * s
    → 2 * 2 ^ 12 * (m * 100 * q) ≤ 2 * 2 ^ 12 * (p * s) + q * s
    → a * (2 * q) ≤ 2 * p + q
round_down m s p q a t ps few near times =
    let near' = mul-le-mul_right q near in
    let few' = mul-le-mul_right (s * q) few in
    let all : a * (2 * q) * s ≤ (2 * p + q) * s = omega (arith, near', few', times) in
    le_of_mul-le-mul_right all ps

times_100 :
    (y : Double) (m : ℕ)
    → y.numerator ≡ pos m
    → times y (whole 100) ≡ nearest (pos (m * 100)) (y.denominator * 1)
unfolding times
times_100 y m e = rw (e, pos_times) refl

-- A number that is near to an amount is rounded to it.
round2-near :
    (x : Double) (a t : ℕ) → IsNear x a t → a ≤ 800_000_000_000 → t ≤ 200_000 → round2 x ≡ pos a
unfolding round2 nearest
round2-near x a t h small few =
    let y = plus x epsilon in
    let k = plus-IsNear x epsilon a 0 t 100 h epsilon-IsNear (omega arith) (omega arith) in
    let few' = mul-le-mul_right y.denominator few in
    let small' = mul-le-mul_right y.denominator small in
    let (u, l, s) =
      nearest_pos-near 12 (k.m * 100) (y.denominator * 1) (omega arith) (omega (arith, k.positive))
        (omega (arith, k.up, few', small', k.positive))
        (omega (arith, k.up, few', small', k.positive)) in
    let q = nearest_pos (k.m * 100) (y.denominator * 1) in
    rw (times_100 y k.m k.is) (
      math_round-near q.0 q.1 a _ refl refl (omega (arith, s))
        (round_down k.m y.denominator q.0 q.1 a (t + 200) k.positive (omega (arith, few))
          (omega (arith, k.down)) (omega (arith, l)))
        (round_up k.m y.denominator q.0 q.1 a (t + 200) k.positive (omega (arith, s))
          (omega (arith, few)) (omega (arith, k.up)) (omega (arith, u))))

-- An amount is its own rounding.
round2-of_cents : (a : ℕ) → a < 800_000_000_000 → round2 (of_cents (pos a)) ≡ pos a
round2-of_cents a h =
    round2-near (of_cents (pos a)) a 100 (of_cents-IsNear a h) (omega arith) (omega arith)

-- Of two amounts that are not negative and stay below four billion each, the rounded sum is exact.
pub add_exact :
    (a b : ℕ)
    → a < 400_000_000_000
    → b < 400_000_000_000
    → round2 (plus (of_cents (pos a)) (of_cents (pos b))) ≡ pos (a + b)
add_exact a b h k =
    round2-near (plus (of_cents (pos a)) (of_cents (pos b))) (a + b) 300
      (plus-IsNear (of_cents (pos a)) (of_cents (pos b)) a b 100 100
        (of_cents-IsNear a (omega (arith, h))) (of_cents-IsNear b (omega (arith, k)))
        (omega (arith, h, k)) (omega arith))
      (omega (arith, h, k)) (omega arith)

abbrev pub total : List ℕ → ℕ
total [] = 0
total (v ∷ vs) = v + total vs

abbrev pub length : List ℕ → ℕ
length [] = 0
length (v ∷ vs) = 1 + length vs

same-IsNear : (x : Double) (a b t u : ℕ) → a ≡ b → t ≡ u → IsNear x a t → IsNear x b u
same-IsNear x a b t u e f h = rw (← e, ← f) h

sum_from-IsNear :
    (acc : Double) (a t : ℕ) (vs : List ℕ)
    → IsNear acc a t
    → a + total vs < 800_000_000_000
    → t + 200 * length vs ≤ 200_000
    → IsNear (sum_from acc (map pos vs)) (a + total vs) (t + 200 * length vs)
unfolding sum_from
sum_from-IsNear acc a t [] h small few =
    same-IsNear acc a (a + 0) t (t + 0) (omega arith) (omega arith) h
sum_from-IsNear acc a t (v ∷ vs) h small few =
    let own = round2-of_cents v (omega (arith, small)) in
    let one =
      plus-IsNear acc (of_cents (pos v)) a v t 100 h (of_cents-IsNear v (omega (arith, small)))
        (omega (arith, small)) (omega (arith, few)) in
    let rest =
      sum_from-IsNear (plus acc (of_cents (pos v))) (a + v) (t + 100 + 100) vs one
        (omega (arith, small)) (omega (arith, few)) in
    rw (sum_from, own) (same-IsNear _ _ _ _ _ (omega arith) (omega arith) rest)

-- Of at most a thousand amounts that are not negative and stay below eight billion together, the sum with
-- all its roundings of binary fractions is exact to the cent.
pub sum_exact :
    (vs : List ℕ)
    → total vs < 800_000_000_000
    → length vs ≤ 1000
    → sum (map pos vs) ≡ pos (total vs)
unfolding sum
sum_exact vs small few =
    let none_yet : IsNear (whole 0) 0 0 = record {
      m = 0;
      is = refl;
      up = omega arith;
      down = omega arith;
      positive = omega arith;
    } in
    let near =
      sum_from-IsNear (whole 0) 0 0 vs none_yet (omega (arith, small)) (omega (arith, few)) in
    round2-near (sum_from (whole 0) (map pos vs)) (total vs) (200 * length vs)
      (same-IsNear _ _ _ _ _ (omega arith) (omega arith) near) (omega (arith, small))
      (omega (arith, few))
