-- ===== src/Accounting/Reports.antt =====
-- The reports of modules/accounting/accounting.service.ts: `accountBalances`, `trialBalance`,
-- `profitLoss` and `balanceSheet`. The dates arrive parsed, and `none` where they were left out.
-- Only the figures are modelled, and the accounts come in the order of their rows.
pub mod Balance
use biz360_sme_erp_e_tims.Base.{
  ℕ, Bool, true, false, not, ◌&&◌, Option, none, List, [], ◌∷◌, ◌++◌, ◌==◌, leb, if◌then◌else◌, map,
  or_default, sum_of, keep_where,
}
use biz360_sme_erp_e_tims.Base.Int.{ℤ, pos, ◌+ℤ◌, ◌-ℤ◌, ◌==ℤ◌}
use biz360_sme_erp_e_tims.Store.{AccountType, Account, EntryLine, JournalEntry, Db}
use biz360_sme_erp_e_tims.Accounting.Journal.{is_posted}

-- `entryDate: { gte: start, lte: end }`, from the first day to today where a bound is left out.
abbrev pub in_range : Option ℕ → Option ℕ → ℕ → ℕ → Bool
in_range from to today date = leb (or_default from 0) date && leb date (or_default to today)

-- The entries that the balances are summed over.
abbrev pub is_counted : ℕ → Option ℕ → Option ℕ → ℕ → JournalEntry → Bool
is_counted org from to today e = e.org == org && is_posted e.status && in_range from to today e.date

abbrev pub lines_of : List JournalEntry → List EntryLine
lines_of [] = []
lines_of (e ∷ es) = e.lines ++ lines_of es

unfoldable pub counted_lines : ℕ → Option ℕ → Option ℕ → Db → List EntryLine
counted_lines org from to db = lines_of (keep_where (is_counted org from to db.today) db.entries)

-- One side of a line, where it is a line of the account.
abbrev pub at_account : (EntryLine → ℤ) → ℕ → EntryLine → ℤ
at_account side id l = if l.account_id == id then side l else pos 0

abbrev pub debit_side : EntryLine → ℤ
debit_side l = l.debit

abbrev pub credit_side : EntryLine → ℤ
credit_side l = l.credit

-- The two sums of a group, nothing where the account has no lines.
abbrev pub debit_of : List EntryLine → Account → ℤ
debit_of ls a = sum_of (at_account debit_side a.id) ls

abbrev pub credit_of : List EntryLine → Account → ℤ
credit_of ls a = sum_of (at_account credit_side a.id) ls

-- `where: { organizationId, active: true }`, less the rows that are deleted.
abbrev pub is_listed : ℕ → Account → Bool
is_listed org a = a.org == org && a.active && not a.deleted

abbrev pub listed : ℕ → Db → List Account
listed org db = keep_where (is_listed org) db.accounts

-- `NORMAL_DEBIT`
abbrev pub is_debit_type : AccountType → Bool
is_debit_type AccountType.asset = true
is_debit_type AccountType.expense = true
is_debit_type _ = false

pub record TrialRow : Type 0 where
  pub account_id : ℕ
  pub debit : ℤ
  pub credit : ℤ
  pub balance : ℤ

abbrev pub trial_row : List EntryLine → Account → TrialRow
trial_row ls a = record {
  account_id = a.id;
  debit = debit_of ls a;
  credit = credit_of ls a;
  balance =
      if is_debit_type a.type
      then debit_of ls a -ℤ credit_of ls a
      else credit_of ls a -ℤ debit_of ls a;
}

pub record TrialBalance : Type 0 where
  pub rows : List TrialRow
  pub total_debit : ℤ
  pub total_credit : ℤ
  pub balanced : Bool

unfoldable pub trial_balance : ℕ → Option ℕ → Option ℕ → Db → TrialBalance
trial_balance org from to db =
    let rows = map (trial_row (counted_lines org from to db)) (listed org db) in
    let total_debit = sum_of (λ (r : TrialRow). r.debit) rows in
    let total_credit = sum_of (λ (r : TrialRow). r.credit) rows in
    record {
      rows = rows;
      total_debit = total_debit;
      total_credit = total_credit;
      balanced = total_debit ==ℤ total_credit;
    }

abbrev pub is_income : AccountType → Bool
is_income AccountType.income = true
is_income _ = false

abbrev pub is_expense : AccountType → Bool
is_expense AccountType.expense = true
is_expense _ = false

abbrev pub is_asset : AccountType → Bool
is_asset AccountType.asset = true
is_asset _ = false

abbrev pub is_liability : AccountType → Bool
is_liability AccountType.liability = true
is_liability _ = false

abbrev pub is_equity : AccountType → Bool
is_equity AccountType.equity = true
is_equity _ = false

-- What the loops add up at the accounts of a type: debits less credits, or credits less debits.
abbrev pub debit_net : (AccountType → Bool) → List EntryLine → Account → ℤ
debit_net p ls a = if p a.type then debit_of ls a -ℤ credit_of ls a else pos 0

abbrev pub credit_net : (AccountType → Bool) → List EntryLine → Account → ℤ
credit_net p ls a = if p a.type then credit_of ls a -ℤ debit_of ls a else pos 0

pub record ProfitLoss : Type 0 where
  pub total_income : ℤ
  pub total_expenses : ℤ
  pub net_income : ℤ

unfoldable pub profit_loss : ℕ → Option ℕ → Option ℕ → Db → ProfitLoss
profit_loss org from to db =
    let ls = counted_lines org from to db in
    let income = sum_of (credit_net is_income ls) (listed org db) in
    let expenses = sum_of (debit_net is_expense ls) (listed org db) in
    record { total_income = income; total_expenses = expenses; net_income = income -ℤ expenses }

pub record BalanceSheet : Type 0 where
  pub total_assets : ℤ
  pub total_liabilities : ℤ
  pub total_equity : ℤ
  pub net_income : ℤ
  pub total_liabilities_and_equity : ℤ

unfoldable pub balance_sheet : ℕ → Option ℕ → Db → BalanceSheet
balance_sheet org as_of db =
    let ls = counted_lines org none as_of db in
    let assets = sum_of (debit_net is_asset ls) (listed org db) in
    let liabilities = sum_of (credit_net is_liability ls) (listed org db) in
    let equity = sum_of (credit_net is_equity ls) (listed org db) in
    let pl = profit_loss org none as_of db in
    record {
      total_assets = assets;
      total_liabilities = liabilities;
      total_equity = equity;
      net_income = pl.net_income;
      total_liabilities_and_equity = liabilities +ℤ equity +ℤ pl.net_income;
    }
