-- ===== src/Taxes/Shares.antt =====
-- About the rounding of a tax and of a share of it.
use native.Mathlib.Nat.{div-lt_iff_lt-mul, one-le-pow}
use mathlib.Core.Path.{subst}
use biz360_sme_erp_e_tims.Base.{
  ℕ, ◌+◌, ◌*◌, ◌/◌, ◌^◌, ◌≤◌, ◌<◌, false, ◌≡◌, refl, sym, Bool-cases, inl, inr, arith,
}
use biz360_sme_erp_e_tims.Base.Int.{ℤ, pos, negsuc, ◌*ℤ◌, ◌≤ℤ◌, ltb_ℤ, pos_part}
use biz360_sme_erp_e_tims.Taxes.{Deduction, SupplierNote}
use biz360_sme_erp_e_tims.Taxes.Withholding.{half_up, withheld_of}
use biz360_sme_erp_e_tims.Taxes.Credits.{offset_amount}

-- What the library of decimals promises of a quotient that is at most one: it is a number between
-- nothing and one.
pub record Divides (quotient : ℤ → ℤ → ℕ × ℕ) : Type 0 where
  pub at_most_one :
      (a b : ℕ) → a ≤ b → 0 < b → (quotient (pos a) (pos b)).0 ≤ 10 ^ (quotient (pos a) (pos b)).1

share-le : (w n d : ℕ) → 0 < d → n ≤ d → (2 * (w * n) + d) / (2 * d) ≤ w
share-le w n d p h =
    let under : 2 * (w * n) + d < (w + 1) * (2 * d) = grind arith in
    let le =
      (div-lt_iff_lt-mul {k = 2 * d} {x = 2 * (w * n) + d} {y = w + 1} (omega arith)).1 under in
    omega arith

pow_pos : (k : ℕ) → 0 < 10 ^ k
pow_pos k = omega (arith, one-le-pow k 10 (omega arith))

is_pos : (a : ℤ) → pos 0 ≤ℤ a → a ≡ pos (pos_part a)
is_pos (pos n) h = refl
is_pos (negsuc n) h = absurd (omega arith)

half_up_pos : (n d : ℕ) → half_up (pos n) d ≡ pos ((2 * n + d) / (2 * d))
unfolding half_up
half_up_pos n d = refl

half_up-product : (a b d : ℕ) → half_up (pos a *ℤ pos b) d ≡ pos ((2 * (a * b) + d) / (2 * d))
unfolding ◌*ℤ◌ half_up
half_up-product a b d = ground arith

-- The tax of a payment that is not negative is not negative.
pub withheld_pos : (gross percent : ℕ) → pos 0 ≤ℤ withheld_of (pos gross) percent
unfolding withheld_of
withheld_pos gross percent = rw (half_up-product gross percent 10_000) (omega arith)

-- With a rate of at most 100, the tax is no more than the payment.
pub withheld-le :
    (gross percent : ℕ) → percent ≤ 10_000 → withheld_of (pos gross) percent ≤ℤ pos gross
unfolding withheld_of
withheld-le gross percent h =
    rw (half_up-product gross percent 10_000)
      (omega (arith, share-le gross percent 10_000 (omega arith) h))

module _ (quotient : ℤ → ℤ → ℕ × ℕ) (division : Divides quotient) where
  share_bounds :
      (w a b : ℕ)
      → a ≤ b
      → 0 < b
      → (let q = quotient (pos a) (pos b) in
          (pos 0 ≤ℤ half_up (pos w *ℤ pos q.0) (10 ^ q.1))
          × (half_up (pos w *ℤ pos q.0) (10 ^ q.1) ≤ℤ pos w))
  share_bounds w a b h p =
      let q = quotient (pos a) (pos b) in
      rw (half_up-product w q.0 (10 ^ q.1))
        (omega (arith, share-le w q.0 (10 ^ q.1) (pow_pos q.1) (division.at_most_one a b h p)))

  amount_bounds :
      (g : ℤ) (d : Deduction) (n : SupplierNote) (w : ℕ)
      → d.gross ≡ g
      → d.withheld ≡ pos w
      → (pos 0 ≤ℤ offset_amount quotient d n) × (offset_amount quotient d n ≤ℤ pos w)
  unfolding offset_amount
  amount_bounds (negsuc k) d n w h e =
      let empty : ltb_ℤ (pos 0) (negsuc k) ≡ false = ground arith in
      rw (h, e, offset_amount, empty) (omega arith)
  amount_bounds (pos k) d n w h e =
      rw (h, e, offset_amount)
        (elim (Bool-cases (ltb_ℤ (pos 0) (pos k))) [
          | inr empty ↦ rw empty (omega arith)
          | inl some_gross ↦ rw some_gross (elim (Bool-cases (ltb_ℤ (pos n.total) (pos k))) [
            | inl less ↦
                rw less
                  (share_bounds w n.total k (ground (arith, less)) (ground (arith, some_gross)))
            | inr whole ↦ rw whole (share_bounds w k k (omega arith) (ground (arith, some_gross)))
          ])
        ])

  -- A share of a tax that is not negative lies between nothing and the tax.
  pub offset_bounds :
      (d : Deduction) (n : SupplierNote)
      → pos 0 ≤ℤ d.withheld
      → (pos 0 ≤ℤ offset_amount quotient d n) × (offset_amount quotient d n ≤ℤ d.withheld)
  offset_bounds d n h =
      let e = is_pos d.withheld h in
      subst (λ (w : ℤ). (pos 0 ≤ℤ offset_amount quotient d n) × (offset_amount quotient d n ≤ℤ w))
        (sym e) (amount_bounds d.gross d n (pos_part d.withheld) refl e)
