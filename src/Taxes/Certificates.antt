-- ===== src/Taxes/Certificates.antt =====
-- About the numbers of certificates.
use biz360_sme_erp_e_tims.Base.{
  ℕ, ◌+◌, false, ◌≡◌, ◌≢◌, refl, ap, ◌∙◌, none, some, List, [], ◌∷◌, ◌==◌, find, find_passes,
  find-update_any, count_where, update_where, if◌then◌else◌, Bool-cases, inl, inr, arith,
}
use biz360_sme_erp_e_tims.Result.{ok}
use biz360_sme_erp_e_tims.Taxes.{Certificate, Deduction, Taxes}
use biz360_sme_erp_e_tims.Taxes.Withholding.{
  Calendar, is_deduction, is_in_year, has_deduction_id, with_certificate, issue_certificate,
}

-- The number that a certificate of an organization gets in a state.
abbrev pub next_certificate : Calendar → ℕ → Taxes → Certificate
next_certificate c org st = record {
  year = c.year_of st.now;
  sequence = count_where (is_in_year c org (c.year_of st.now)) st.deductions + 1;
}

module _ (c : Calendar) (org : ℕ) where
  abbrev pub after_certificate : ℕ → Taxes → Taxes
  after_certificate id st = (issue_certificate c org id st).1

  issue_new :
      (id : ℕ) (d : Deduction) (st : Taxes)
      → find (is_deduction org id) st.deductions ≡ some d
      → d.certificate ≡ none
      → issue_certificate c org id st ≡ (
        ok (with_certificate (next_certificate c org st) d),
        record st {
          deductions =
              update_where
                (has_deduction_id d.id)
                (with_certificate (next_certificate c org st))
                st.deductions;
        },
      )
  unfolding issue_certificate
  issue_new id d st e new = rw (e, issue_certificate, new) refl

  issued :
      (id : ℕ) (d : Deduction) (st : Taxes)
      → find (is_deduction org id) st.deductions ≡ some d
      → d.certificate ≡ none
      → after_certificate id st ≡ record st {
        deductions =
            update_where
              (has_deduction_id d.id)
              (with_certificate (next_certificate c org st))
              st.deductions;
      }
  issued id d st e new = ap (λ r. r.1) (issue_new id d st e new)

  -- A certificate changes nothing that the count of a year reads.
  same_count :
      (year k : ℕ) (n : Certificate) (ds : List Deduction)
      → count_where
          (is_in_year c org year)
          (update_where (has_deduction_id k) (with_certificate n) ds)
        ≡ count_where (is_in_year c org year) ds
  same_count year k n [] = refl
  same_count year k n (d ∷ ds) = elim (Bool-cases (d.id == k)) [
    | inl e ↦
        rw e (ap (λ t. (if is_in_year c org year d then 1 else 0) + t) (same_count year k n ds))
    | inr e ↦
        rw e (ap (λ t. (if is_in_year c org year d then 1 else 0) + t) (same_count year k n ds))
  ]

  found_after :
      (id k : ℕ) (n : Certificate) (d : Deduction) (ds : List Deduction)
      → find (is_deduction org id) ds ≡ some d
      → find (is_deduction org id) (update_where (has_deduction_id k) (with_certificate n) ds)
        ≡ some (if d.id == k then with_certificate n d else d)
  found_after id k n d ds e =
      find-update_any (is_deduction org id) (has_deduction_id k) (with_certificate n) (λ y. refl) d
        ds e

  marked : ℕ → Certificate → Taxes → Taxes
  marked k n st = record st {
    deductions = update_where (has_deduction_id k) (with_certificate n) st.deductions;
  }

  next_after :
      (k : ℕ) (n : Certificate) (st : Taxes)
      → next_certificate c org (marked k n st) ≡ next_certificate c org st
  unfolding marked
  next_after k n st =
      ap (λ t. record { year = c.year_of st.now; sequence = t + 1 })
        (same_count (c.year_of st.now) k n st.deductions)

  id_of :
      (k : ℕ) (d : Deduction) (ds : List Deduction)
      → find (is_deduction org k) ds ≡ some d
      → d.id ≡ k
  id_of k d ds h = ground (arith, find_passes (is_deduction org k) ds h)

  -- Two deductions of one organization that have no certificate yet get the same number, where the
  -- certificate of the second is issued in the state that the first one leaves.
  pub certificates_clash :
      (i j : ℕ) (d e : Deduction) (st : Taxes)
      → i ≢ j
      → find (is_deduction org i) st.deductions ≡ some d
      → find (is_deduction org j) st.deductions ≡ some e
      → d.certificate ≡ none
      → e.certificate ≡ none
      → (find (is_deduction org i) (after_certificate j (after_certificate i st)).deductions
          ≡ some (with_certificate (next_certificate c org st) d))
        × (find (is_deduction org j) (after_certificate j (after_certificate i st)).deductions
            ≡ some (with_certificate (next_certificate c org st) e))
  unfolding marked
  certificates_clash i j d e st apart fd fe nd ne =
      let n = next_certificate c org st in
      let i_id = id_of i d st.deductions fd in
      let j_id = id_of j e st.deductions fe in
      let other : (e.id == d.id) ≡ false = ground (arith, i_id, j_id, apart) in
      let other' : (d.id == e.id) ≡ false = ground (arith, i_id, j_id, apart) in
      let first : after_certificate i st ≡ marked d.id n st = issued i d st fd nd in
      let fe' : find (is_deduction org j) (marked d.id n st).deductions ≡ some e =
        found_after j d.id n e st.deductions fe ∙ rw other refl in
      let fd' : find (is_deduction org i) (marked d.id n st).deductions
          ≡ some (with_certificate n d) =
        found_after i d.id n d st.deductions fd ∙ ground arith in
      let second : after_certificate j (marked d.id n st) ≡ marked e.id n (marked d.id n st) =
        issued j e (marked d.id n st) fe' ne
        ∙ ap (λ t. marked e.id t (marked d.id n st)) (next_after d.id n st) in
      rw (first, second)
        (
          found_after i e.id n (with_certificate n d) (marked d.id n st).deductions fd'
              ∙ rw other' refl,
          found_after j e.id n e (marked d.id n st).deductions fe' ∙ ground arith,
        )
