-- ===== src/Accounting/Reports/Balance.antt =====
-- About the totals of the trial balance and of the balance sheet.
use biz360_sme_erp_e_tims.Base.{
  ℕ, Bool, true, ◌≡◌, refl, sym, ◌∙◌, ap, Option, none, List, [], ◌∷◌, ◌==◌, if◌then◌else◌, sum_of,
  sum_of-append, sum_of-map, count_where, keep_where, All, Bool-cases, inl, inr, arith,
}
use biz360_sme_erp_e_tims.Base.Int.{
  ℤ, pos, ◌+ℤ◌, ◌-ℤ◌, ◌==ℤ◌, int_laws, eq_of_parts, pos_part, neg_part, zero-+ℤ,
}
use biz360_sme_erp_e_tims.Store.{AccountType, Account, EntryLine, JournalEntry, Db}
use biz360_sme_erp_e_tims.Ledger.Resolve.{debits, credits}
use biz360_sme_erp_e_tims.Ledger.Books.{IsBalanced, BooksBalance}
use biz360_sme_erp_e_tims.Accounting.Reports.{
  lines_of, counted_lines, at_account, debit_side, credit_side, debit_of, credit_of, listed,
  trial_row, TrialRow, trial_balance, is_income, is_expense, is_asset, is_liability, is_equity,
  debit_net, credit_net, profit_loss, balance_sheet,
}

-- The account of the line is one of the accounts, and one only.
abbrev pub HasOneAccount : List Account → EntryLine → Type 0
HasOneAccount accs l = count_where (λ (a : Account). l.account_id == a.id) accs ≡ 1

sum-add :
    {A : Type 0} (f g : A → ℤ) (xs : List A)
    → sum_of (λ x. f x +ℤ g x) xs ≡ sum_of f xs +ℤ sum_of g xs
sum-add f g [] = eq_of_parts _ _ (omega int_laws)
sum-add f g (x ∷ xs) = rw (sum-add f g xs) (eq_of_parts _ _ (omega int_laws))

sum-zero : {A : Type 0} (xs : List A) → sum_of (λ x. pos 0) xs ≡ pos 0
sum-zero [] = refl
sum-zero (x ∷ xs) = rw (sum-zero xs) (zero-+ℤ (pos 0))

-- A value that is counted at the elements of a test, at none of them or at one.
module _ {A : Type 0} (p : A → Bool) (v : ℤ) where
  sum-none :
      (xs : List A) → count_where p xs ≡ 0 → sum_of (λ x. if p x then v else pos 0) xs ≡ pos 0
  sum-none [] h = refl
  sum-none (x ∷ xs) h = elim (Bool-cases (p x)) [
    | inl t ↦ absurd (ground (arith, h, t))
    | inr f ↦
        let rest : count_where p xs ≡ 0 = omega (arith, rw f at h) in
        rw f (rw (sum-none xs rest) (zero-+ℤ (pos 0)))
  ]

  sum-one : (xs : List A) → count_where p xs ≡ 1 → sum_of (λ x. if p x then v else pos 0) xs ≡ v
  sum-one [] h = absurd (omega (arith, h))
  sum-one (x ∷ xs) h = elim (Bool-cases (p x)) [
    | inl t ↦ rw t (rw (sum-none xs (ground (arith, h, t))) (eq_of_parts _ _ (omega int_laws)))
    | inr f ↦
        let rest : count_where p xs ≡ 1 = omega (arith, rw f at h) in
        rw f (rw (sum-one xs rest) (zero-+ℤ v))
  ]

-- The sums by account add up to the sum over the lines.
by_account :
    (side : EntryLine → ℤ) (accs : List Account) (ls : List EntryLine)
    → All (HasOneAccount accs) ls
    → sum_of (λ (a : Account). sum_of (at_account side a.id) ls) accs ≡ sum_of side ls
by_account side accs [] h = sum-zero accs
by_account side accs (l ∷ ls) h =
    rw
      (sum-add (λ (a : Account). at_account side a.id l) (λ a. sum_of (at_account side a.id) ls)
        accs)
      (rw (
        sum-one (λ (a : Account). l.account_id == a.id) (side l) accs h.0,
        by_account side accs ls h.1,
      ))

lines-balance :
    (p : JournalEntry → Bool) (es : List JournalEntry)
    → All IsBalanced es
    → debits (lines_of (keep_where p es)) ≡ credits (lines_of (keep_where p es))
lines-balance p [] h = refl
lines-balance p (e ∷ es) h = elim (Bool-cases (p e)) [
  | inl t ↦ rw t (
      rw (
        sum_of-append debit_side e.lines (lines_of (keep_where p es)),
        sum_of-append credit_side e.lines (lines_of (keep_where p es)),
        (h.0).balanced,
        lines-balance p es h.1,
      ))
  | inr f ↦ rw f (lines-balance p es h.1)
]

eq-test : (a b : ℤ) → a ≡ b → (a ==ℤ b) ≡ true
eq-test a b h = ground arith

-- An account of any type stands on one side of the balance sheet.
type_step :
    (t : AccountType) (d c : ℤ)
    → (if is_asset t then d -ℤ c else pos 0) +ℤ c
      ≡ (if is_liability t then c -ℤ d else pos 0)
        +ℤ (if is_equity t then c -ℤ d else pos 0)
        +ℤ ((if is_income t then c -ℤ d else pos 0) -ℤ (if is_expense t then d -ℤ c else pos 0))
        +ℤ d
type_step AccountType.asset d c = eq_of_parts _ _ (omega int_laws)
type_step AccountType.liability d c = eq_of_parts _ _ (omega int_laws)
type_step AccountType.equity d c = eq_of_parts _ _ (omega int_laws)
type_step AccountType.income d c = eq_of_parts _ _ (omega int_laws)
type_step AccountType.expense d c = eq_of_parts _ _ (omega int_laws)

add_sheets :
    (a c l e i x d a' c' l' e' i' x' d' : ℤ)
    → a +ℤ c ≡ l +ℤ e +ℤ (i -ℤ x) +ℤ d
    → a' +ℤ c' ≡ l' +ℤ e' +ℤ (i' -ℤ x') +ℤ d'
    → a +ℤ a' +ℤ (c +ℤ c') ≡ l +ℤ l' +ℤ (e +ℤ e') +ℤ (i +ℤ i' -ℤ (x +ℤ x')) +ℤ (d +ℤ d')
add_sheets a c l e i x d a' c' l' e' i' x' d' h k =
    eq_of_parts _ _ (omega (int_laws, ap pos_part h, ap neg_part h, ap pos_part k, ap neg_part k))

all_types :
    (ls : List EntryLine) (accs : List Account)
    → sum_of (debit_net is_asset ls) accs +ℤ sum_of (credit_of ls) accs
      ≡ sum_of (credit_net is_liability ls) accs
        +ℤ sum_of (credit_net is_equity ls) accs
        +ℤ (sum_of (credit_net is_income ls) accs -ℤ sum_of (debit_net is_expense ls) accs)
        +ℤ sum_of (debit_of ls) accs
all_types ls [] = eq_of_parts _ _ (omega int_laws)
all_types ls (a ∷ accs) =
    add_sheets (debit_net is_asset ls a) (credit_of ls a) (credit_net is_liability ls a)
      (credit_net is_equity ls a) (credit_net is_income ls a) (debit_net is_expense ls a)
      (debit_of ls a) _ _ _ _ _ _ _ (type_step a.type (debit_of ls a) (credit_of ls a))
      (all_types ls accs)

cancel_sides : (a c l d : ℤ) → a +ℤ c ≡ l +ℤ d → d ≡ c → a ≡ l
cancel_sides a c l d h k =
    eq_of_parts _ _ (omega (int_laws, ap pos_part h, ap neg_part h, ap pos_part k, ap neg_part k))

module _ (org : ℕ) (from to : Option ℕ) (db : Db) (books : BooksBalance db)
    (all_listed : All (HasOneAccount (listed org db)) (counted_lines org from to db)) where
  sides-agree :
      sum_of (debit_of (counted_lines org from to db)) (listed org db)
      ≡ sum_of (credit_of (counted_lines org from to db)) (listed org db)
  unfolding counted_lines
  sides-agree =
      by_account debit_side (listed org db) _ all_listed
      ∙ lines-balance _ db.entries books
      ∙ sym (by_account credit_side (listed org db) _ all_listed)

  -- Where the books balance and every line that is counted names one listed account, the trial
  -- balance says that it is balanced, and its totals are the sums over the lines counted.
  pub trial_balance_balances :
      ((trial_balance org from to db).balanced ≡ true)
      × ((trial_balance org from to db).total_debit ≡ debits (counted_lines org from to db))
      × ((trial_balance org from to db).total_credit ≡ credits (counted_lines org from to db))
  unfolding trial_balance
  trial_balance_balances =
      rw
        (
          sum_of-map (λ (r : TrialRow). r.debit) (trial_row (counted_lines org from to db))
              (listed org db),
          sum_of-map (λ (r : TrialRow). r.credit) (trial_row (counted_lines org from to db))
              (listed org db),
        )
        (
          eq-test _ _ sides-agree,
          by_account debit_side (listed org db) _ all_listed,
          by_account credit_side (listed org db) _ all_listed,
        )

-- Where the books balance and every line counted up to the day names one listed account, the
-- assets are the liabilities with the equity and the net income.
pub balance_sheet_balances :
    (org : ℕ) (as_of : Option ℕ) (db : Db)
    → BooksBalance db
    → All (HasOneAccount (listed org db)) (counted_lines org none as_of db)
    → (balance_sheet org as_of db).total_assets
      ≡ (balance_sheet org as_of db).total_liabilities_and_equity
unfolding balance_sheet profit_loss
balance_sheet_balances org as_of db books all_listed =
    cancel_sides _ _ _ _ (all_types (counted_lines org none as_of db) (listed org db))
      (sides-agree org none as_of db books all_listed)
