-- ===== src/Ledger/Resolve.antt =====
-- About the lines and totals that the loop of `post` builds up.
use biz360_sme_erp_e_tims.Base.{
  ℕ, ◌≡◌, ◌⊎◌, inl, inr, List, [], ◌∷◌, arith, All, All-append, sum_of, sum_of-append,
}
use biz360_sme_erp_e_tims.Base.Int.{ℤ, pos, ◌≤ℤ◌, int_laws}
use biz360_sme_erp_e_tims.Result.{ok, Ensures, Result-cases}
use biz360_sme_erp_e_tims.Store.{Account, EntryLine}
use biz360_sme_erp_e_tims.Ledger.{PostLine, Resolved, take_line, resolve_line, resolve_lines}

-- A line of the books: one side is positive and the other is nothing.
abbrev pub IsOneSided : EntryLine → Type 0
IsOneSided l = ((pos 1 ≤ℤ l.debit) × (l.credit ≡ pos 0)) ⊎ ((pos 1 ≤ℤ l.credit) × (l.debit ≡ pos 0))

abbrev pub debits : List EntryLine → ℤ
debits = sum_of (λ (l : EntryLine). l.debit)

abbrev pub credits : List EntryLine → ℤ
credits = sum_of (λ (l : EntryLine). l.credit)

pub resolve_line-IsOneSided :
    (accounts : List Account) (org : ℕ) (l : PostLine) {e : EntryLine}
    → resolve_line accounts org l ≡ ok e
    → IsOneSided e
unfolding resolve_line
resolve_line-IsOneSided accounts org l h = ground arith

-- What has been resolved so far: one-sided lines, and the sums of their sides.
pub record IsResolved (r : Resolved) : Type 0 where
  pub sided : All IsOneSided r.resolved
  pub debit_sum : r.total_debit ≡ debits r.resolved
  pub credit_sum : r.total_credit ≡ credits r.resolved

take_line-IsResolved :
    (r : Resolved) (e : EntryLine) → IsResolved r → IsOneSided e → IsResolved (take_line r e)
take_line-IsResolved r e h s = record {
  sided = All-append IsOneSided r.resolved (e ∷ []) h.sided (s, tt);
  debit_sum =
      rw (sum_of-append (λ (l : EntryLine). l.debit) r.resolved (e ∷ []), h.debit_sum)
        (omega int_laws);
  credit_sum =
      rw (sum_of-append (λ (l : EntryLine). l.credit) r.resolved (e ∷ []), h.credit_sum)
        (omega int_laws);
}

pub resolve_lines-IsResolved :
    (accounts : List Account) (org : ℕ) (ls : List PostLine) (r : Resolved)
    → IsResolved r
    → Ensures IsResolved (resolve_lines accounts org ls r)
unfolding resolve_lines
resolve_lines-IsResolved accounts org [] r h = h
resolve_lines-IsResolved accounts org (l ∷ ls) r h =
    elim (Result-cases (resolve_line accounts org l)) [
      | inl (e, q) ↦
          rw (q, resolve_lines)
            (resolve_lines-IsResolved accounts org ls (take_line r e)
              (take_line-IsResolved r e h (resolve_line-IsOneSided accounts org l q)))
      | inr (x, q) ↦ rw (q, resolve_lines) tt
    ]
