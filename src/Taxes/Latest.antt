-- ===== src/Taxes/Latest.antt =====
-- About the rate that is looked up.
use biz360_sme_erp_e_tims.Base.{
  ℕ, ◌≤◌, Bool, true, false, ◌≡◌, ◌⊎◌, refl, Option, Option-cases, none, some, List, [], ◌∷◌, ltb,
  All, All-map, keep_where, Bool-cases, inl, inr, arith,
}
use mathlib.Core.Path.{subst}
use biz360_sme_erp_e_tims.Result.{ok}
use biz360_sme_erp_e_tims.Taxes.{PaymentType, Residency, TaxRate, Taxes}
use biz360_sme_erp_e_tims.Taxes.Rates.{is_effective, latest, latest_of, resolve_rate}

module _ (p : TaxRate → Bool) where
  -- A rate that fails the test, or is from no later time.
  abbrev NotAfter : TaxRate → TaxRate → Type 0
  NotAfter x y = (p y ≡ false) ⊎ (y.effective_from ≤ x.effective_from)

  relax :
      (y z w : TaxRate)
      → ltb y.effective_from z.effective_from ≡ false
      → NotAfter z w
      → NotAfter y w
  relax y z w h (inl f) = inl f
  relax y z w h (inr k) = inr (ground (arith, h, k))

  latest-none : (xs : List TaxRate) → latest (keep_where p xs) ≡ none → All (λ y. p y ≡ false) xs
  unfolding latest
  latest-none [] e = tt
  latest-none (x ∷ xs) e = elim (Bool-cases (p x)) [
    | inr fails ↦ (fails, latest-none xs (rw fails at e))
    | inl passes ↦ elim (Option-cases (latest (keep_where p xs))) [
      | inl none_left ↦ absurd (ground (arith, passes, e, none_left))
      | inr (y, some_left) ↦ absurd (ground (arith, passes, e, some_left))
    ]
  ]

  latest-some :
      (xs : List TaxRate) (x : TaxRate)
      → latest (keep_where p xs) ≡ some x
      → (p x ≡ true) × All (NotAfter x) xs
  unfolding latest
  latest-some [] x e = cc
  latest-some (y ∷ ys) x e = elim (Bool-cases (p y)) [
    | inr fails ↦ let (t, rest) = latest-some ys x (rw fails at e) in (t, (inl fails, rest))
    | inl passes ↦ elim (Option-cases (latest (keep_where p ys))) [
      | inl empty ↦
          let same : y ≡ x = ground (arith, passes, e, empty) in
          subst (λ x. (p x ≡ true) × All (NotAfter x) (y ∷ ys)) same
            (passes, (inr (omega arith), All-map _ _ (λ z f. inl f) ys (latest-none ys empty)))
      | inr (z, left) ↦
          let (t, rest) = latest-some ys z left in
          elim (Bool-cases (ltb y.effective_from z.effective_from)) [
            | inl older ↦
                let same : z ≡ x = ground (arith, passes, e, left, older) in
                subst (λ x. (p x ≡ true) × All (NotAfter x) (y ∷ ys)) same
                  (t, (inr (ground (arith, older)), rest))
            | inr newer ↦
                let same : y ≡ x = ground (arith, passes, e, left, newer) in
                subst (λ x. (p x ≡ true) × All (NotAfter x) (y ∷ ys)) same
                  (passes, (inr (omega arith), All-map _ _ (λ w h. relax y z w newer h) ys rest))
          ]
    ]
  ]

-- The rate that is found applies to the payment type and the residency, and is from no later than
-- the time asked for: a rate of the organization, or a default of the system where the organization
-- has none that applies. Of those rates that apply none is from a later time.
pub resolve_rate_latest :
    (org : ℕ) (t : PaymentType) (r : Residency) (as_of : ℕ) (st : Taxes) (x : TaxRate)
    → resolve_rate org t r as_of st ≡ ok x
    → (o : Option ℕ) × ((o ≡ some org)
        ⊎ ((o ≡ none) × All (λ y. is_effective (some org) t r as_of y ≡ false) st.rates))
      × (is_effective o t r as_of x ≡ true)
      × All
          (λ y. (is_effective o t r as_of y ≡ false) ⊎ (y.effective_from ≤ x.effective_from))
          st.rates
unfolding resolve_rate latest_of
resolve_rate_latest org t r as_of st x e = elim (Option-cases (latest_of (some org) t r as_of st)) [
  | inr (y, custom) ↦
      let same : y ≡ x = ground (arith, e, custom) in
      let (passes, rest) = latest-some (is_effective (some org) t r as_of) st.rates y custom in
      rw (← same) (some org, inl refl, passes, rest)
  | inl missing ↦ elim (Option-cases (latest_of none t r as_of st)) [
    | inr (y, system) ↦
        let same : y ≡ x = ground (arith, e, missing, system) in
        let (passes, rest) = latest-some (is_effective none t r as_of) st.rates y system in
        let no_custom = latest-none (is_effective (some org) t r as_of) st.rates missing in
        rw (← same) (none, inr (refl, no_custom), passes, rest)
    | inl no_default ↦ absurd (ground (arith, e, missing, no_default))
  ]
]
