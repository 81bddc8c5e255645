-- ===== src/Money/Rounding.antt =====
-- About the rounding of src/common/helpers/money.ts: how far a number lies from its exact value.
use native.Mathlib.Nat.{
  pow-zero, pow-suc, one-le-pow, mul-le-mul_left, mod-lt, div-add-mod, mul-le-mul_right,
  le_of_mul-le-mul_right,
}
use biz360_sme_erp_e_tims.Base.{
  ℕ, zero, suc, ◌+◌, ◌*◌, ◌/◌, ◌%◌, ◌^◌, ◌≤◌, ◌<◌, ◌≡◌, ◌⊎◌, refl, sym, Bool-cases, true, false,
  ltb, leb, if◌then◌else◌, inl, inr, arith,
}
use biz360_sme_erp_e_tims.Money.Binary.{round_even, finer, nearest_pos}

finer-le : (f n d s : ℕ) → s ≤ finer f n d s
unfolding finer
finer-le zero n d s = omega arith
finer-le (suc f) n d s = elim (Bool-cases (ltb (n * s) (2 ^ 52 * d))) [
  | inl t ↦ rw (finer, t) (omega (arith, finer-le f n d (2 * s)))
  | inr f ↦ rw (finer, f) (omega arith)
]

-- One step of the search, while the number has fewer digits than wanted.
finer-step : (f n d s : ℕ) → n * s < 2 ^ 52 * d → finer (suc f) n d s ≡ finer f n d (2 * s)
unfolding finer
finer-step f n d s h =
    let t : ltb (n * s) (2 ^ 52 * d) ≡ true = ground (arith, h) in rw (finer, t) refl

doubled : (n s p q : ℕ) → q ≡ p * 2 → n * (s * q) ≡ n * (2 * s * p)
doubled n s p q h = rw h (omega arith)

-- After so many steps the denominator has grown so much.
finer-grows : (j g n d s : ℕ) → j ≤ g → n * (s * 2 ^ j) < 2 ^ 52 * d → s * 2 ^ j ≤ finer g n d s
finer-grows zero g n d s h k = rw (pow-zero 2) (omega (arith, finer-le g n d s))
finer-grows (suc j) zero n d s h k = absurd (omega arith)
finer-grows (suc j) (suc g) n d s h k =
    let grown : n * (2 * s * 2 ^ j) < 2 ^ 52 * d =
      omega (arith, k, doubled n s (2 ^ j) (2 ^ suc j) (pow-suc 2 j)) in
    let once : n * s < 2 ^ 52 * d =
      omega (arith, k, mul-le-mul_left (n * s) (one-le-pow (suc j) 2 (omega arith))) in
    rw (finer-step g n d s once) (
      omega (
        arith,
        doubled 1 s (2 ^ j) (2 ^ suc j) (pow-suc 2 j),
        finer-grows j g n d (2 * s) (omega arith) grown,
      ))

odd_or_even : (q : ℕ) → (q % 2 ≡ 0) ⊎ (q % 2 ≡ 1)
odd_or_even q = omega arith

half_away :
    (q r d n m : ℕ)
    → n ≡ d * q + r
    → r < d
    → m ≡ (if ltb (2 * r) d then q else if ltb d (2 * r) then q + 1 else q + q % 2)
    → (2 * (m * d) ≤ 2 * n + d) × (2 * n ≤ 2 * (m * d) + d)
half_away q r d n m e h same = elim (Bool-cases (ltb (2 * r) d)) [
  | inl t ↦
      let is : m ≡ q = ground (arith, same, t) in
      let r' : 2 * r < d = ground (arith, t) in rw (is, e) (omega (arith, h, r'))
  | inr f ↦ elim (Bool-cases (ltb d (2 * r))) [
    | inl t ↦
        let is : m ≡ q + 1 = ground (arith, same, f, t) in
        let r' : d < 2 * r = ground (arith, t) in rw (is, e) (omega (arith, h, r'))
    | inr g ↦
        let is : m ≡ q + q % 2 = ground (arith, same, f, g) in
        let r' : d ≡ 2 * r = ground (arith, f, g) in
        elim (odd_or_even q) [
          | inl z ↦ let is' : m ≡ q = omega (arith, is, z) in rw (is', e) (omega (arith, h, r'))
          | inr z ↦ let is' : m ≡ q + 1 = omega (arith, is, z) in rw (is', e) (omega (arith, h, r'))
        ]
  ]
]

-- A whole number is at most a half away from the quotient that it rounds.
round_even-near :
    (n d : ℕ)
    → 0 < d
    → (2 * (round_even n d * d) ≤ 2 * n + d) × (2 * n ≤ 2 * (round_even n d * d) + d)
unfolding round_even
round_even-near n d h =
    half_away (n / d) (n % d) d n (round_even n d) (sym (div-add-mod n d)) (mod-lt n h) refl

pub scale_up :
    (m s n d a t k : ℕ)
    → 0 < d
    → k * (m * d) ≤ k * (n * s) + s * d
    → 100 * (k * n) ≤ (a + t) * d
    → 100 * (k * m) ≤ (a + t + 100) * s
scale_up m s n d a t k p h g =
    let g' = mul-le-mul_right s g in
    let all : 100 * (k * m) * d ≤ (a + t + 100) * s * d = omega (arith, h, g') in
    le_of_mul-le-mul_right all p

pub scale_down :
    (m s n d a t k : ℕ)
    → 0 < d
    → k * (n * s) ≤ k * (m * d) + s * d
    → a * d ≤ 100 * (k * n) + t * d
    → a * s ≤ 100 * (k * m) + (t + 100) * s
scale_down m s n d a t k p h g =
    let g' = mul-le-mul_right s g in
    let all : a * s * d ≤ (100 * (k * m) + (t + 100) * s) * d = omega (arith, h, g') in
    le_of_mul-le-mul_right all p

pub sum_up :
    (m s n d a b t u k : ℕ)
    → k * m ≤ (a + t) * s
    → k * n ≤ (b + u) * d
    → k * (m * d + n * s) ≤ (a + b + (t + u)) * (s * d)
sum_up m s n d a b t u k h g = omega (arith, mul-le-mul_right d h, mul-le-mul_right s g)

pub sum_down :
    (m s n d a b t u k : ℕ)
    → a * s ≤ k * m + t * s
    → b * d ≤ k * n + u * d
    → (a + b) * (s * d) ≤ k * (m * d + n * s) + (t + u) * (s * d)
sum_down m s n d a b t u k h g = omega (arith, mul-le-mul_right d h, mul-le-mul_right s g)

module _ (j n d : ℕ) (steps : j ≤ 1074) (p : 0 < d) (small : n * 2 ^ j < 2 ^ 52 * d)
    (finite : n < 2 ^ 53 * d) where
  open_nearest : nearest_pos n d ≡ (round_even (n * finer 1074 n d 1) d, finer 1074 n d 1)
  unfolding nearest_pos
  open_nearest =
      let f : leb (2 ^ 53 * d) n ≡ false = ground (arith, finite) in rw (f, nearest_pos) refl

  -- The nearest number lies that near, and its denominator is not zero.
  pub nearest_pos-near :
      let q = nearest_pos n d in
      (2 * 2 ^ j * (q.0 * d) ≤ 2 * 2 ^ j * (n * q.1) + q.1 * d)
      × (2 * 2 ^ j * (n * q.1) ≤ 2 * 2 ^ j * (q.0 * d) + q.1 * d)
      × (2 ^ j ≤ q.1)
  nearest_pos-near =
      let s = finer 1074 n d 1 in
      let grown : 2 ^ j ≤ s =
        omega (arith, finer-grows j 1074 n d 1 steps (omega (arith, small))) in
      let (up, down) = round_even-near (n * s) d p in
      let wide = mul-le-mul_right d grown in
      let up' = mul-le-mul_right (2 ^ j) up in
      let down' = mul-le-mul_right (2 ^ j) down in
      rw open_nearest (omega (arith, wide, up'), omega (arith, wide, down'), grown)
