-- ===== src/Taxes/Granting.antt =====
-- The share of a tax that a credit note is given.
use biz360_sme_erp_e_tims.Base.{
  ℕ, ◌<◌, Bool, false, ◌≡◌, ap, Option, Option-cases, none, some, some-injective, List, [], ◌∷◌,
  ◌==◌, All, All-map, All-find, find, Bool-cases, inl, inr, arith,
}
use biz360_sme_erp_e_tims.Base.Int.{ℤ, pos, ◌≤ℤ◌}
use biz360_sme_erp_e_tims.Result.{ok}
use biz360_sme_erp_e_tims.Taxes.{Deduction, SupplierNote, Taxes}
use biz360_sme_erp_e_tims.Taxes.Withholding.{is_deduction}
use biz360_sme_erp_e_tims.Taxes.Credits.{uses_deduction, offset_amount, offset_for}
use biz360_sme_erp_e_tims.Taxes.Shares.{Divides, offset_bounds}
use biz360_sme_erp_e_tims.Taxes.Offsets.{AreApart, IsTax, OffsetsFit}

not_found-All :
    {A : Type 0} (p : A → Bool) (xs : List A) → find p xs ≡ none → All (λ x. p x ≡ false) xs
not_found-All p [] e = tt
not_found-All p (x ∷ xs) e = elim (Bool-cases (p x)) [
  | inl t ↦ absurd (ground (arith, e, t))
  | inr f ↦ (f, not_found-All p xs (rw f at e))
]

pub All-and :
    {A : Type 0} (P Q : A → Type 0) (xs : List A) → All P xs → All Q xs → All (λ x. P x × Q x) xs
All-and P Q [] h k = tt
All-and P Q (x ∷ xs) h k = ((h.0, k.0), All-and P Q xs h.1 k.1)

pub everywhere : {A : Type 0} (xs : List A) → All (λ x. Unit {0}) xs
everywhere [] = tt
everywhere (x ∷ xs) = (tt, everywhere xs)

-- Of elements that are apart, only the one that was found has its id.
pub only_one :
    {A : Type 0} (id : A → ℕ) (p : A → Bool) (x : A) (xs : List A)
    → AreApart id xs
    → find p xs ≡ some x
    → All (λ y. id y ≡ id x → y ≡ x) xs
only_one id p x [] h e = tt
only_one id p x (y ∷ ys) h e = elim (Bool-cases (p y)) [
  | inl t ↦
      let same : y ≡ x = some-injective _ _ (rw (t, find) at e) in
      (
        (λ k. same),
        All-map _ _ (λ z differs k. absurd (ground (arith, differs, k, ap id same))) ys h.0,
      )
  | inr f ↦
      let e' : find p ys ≡ some x = rw f at e in
      let differs = (All-find (λ z. (id z == id y) ≡ false) p ys h.0 e').0 in
      ((λ k. absurd (ground (arith, differs, k))), only_one id p x ys h.1 e')
]

-- An offset that may be set on a note of the organization.
abbrev pub IsShare : ℕ → Taxes → Option (ℕ × ℤ) → Type 0
IsShare org st none = Unit
IsShare org st (some (k, a)) =
    (k < st.next_id)
    × (pos 0 ≤ℤ a)
    × All (λ d. d.id ≡ k → a ≤ℤ d.withheld) st.deductions
    × All (λ n. uses_deduction org k n ≡ false) st.notes

module _ (quotient : ℤ → ℤ → ℕ × ℕ) (division : Divides quotient) where
  found-IsShare :
      (org k : ℕ) (n : SupplierNote) (d : Deduction) (st : Taxes)
      → OffsetsFit st
      → find (is_deduction org k) st.deductions ≡ some d
      → find (uses_deduction org d.id) st.notes ≡ none
      → IsShare org st (some (d.id, offset_amount quotient d n))
  found-IsShare org k n d st fit e unused =
      let tax = (All-find (IsTax st.next_id) (is_deduction org k) st.deductions fit.taxes e).0 in
      let bounds = offset_bounds quotient division d n tax.1 in
      (
        tax.0,
        bounds.0,
        All-map _ _ (λ x same k. rw (same k) bounds.1) st.deductions
            (only_one (λ (x : Deduction). x.id) (is_deduction org k) d st.deductions fit.taxes_apart
              e),
        not_found-All (uses_deduction org d.id) st.notes unused,
      )

  pub offset_for-IsShare :
      (org : ℕ) (n : SupplierNote) (k : Option ℕ) (st : Taxes) (o : Option (ℕ × ℤ))
      → OffsetsFit st
      → offset_for quotient org n k st ≡ ok o
      → IsShare org st o
  unfolding offset_for
  offset_for-IsShare org n none st o fit e = let same : none ≡ o = cc in rw (← same) tt
  offset_for-IsShare org n (some k) st o fit e =
      elim (Option-cases (find (is_deduction org k) st.deductions)) [
        | inl missing ↦ absurd (ground (arith, e, missing))
        | inr (d, there) ↦ elim (Bool-cases (d.supplier_id == n.supplier_id)) [
          | inr foreign ↦ absurd (ground (arith, e, there, foreign))
          | inl own ↦ elim (Option-cases (find (uses_deduction org d.id) st.notes)) [
            | inr (x, used) ↦ absurd (ground (arith, e, there, own, used))
            | inl unused ↦
                let same : some (d.id, offset_amount quotient d n) ≡ o =
                  ground (arith, e, there, own, unused) in
                rw (← same) (found-IsShare org k n d st fit there unused)
          ]
        ]
      ]
