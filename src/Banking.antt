-- ===== src/Banking.antt =====
-- modules/banking/banking.service.ts: bank accounts, the lines of their statements, and the
-- reconciliation of lines. A date is a number, so that none is invalid; an amount of a request is
-- a decimal, read as the nearest number, and an opening balance a number of cents.
pub mod Statements
pub mod Once
pub mod Safety
use biz360_sme_erp_e_tims.Base.{
  ℕ, suc, ◌^◌, ◌+◌, Bool, true, false, not, ◌&&◌, ◌||◌, Option, none, some, List, [], ◌∷◌, ◌++◌,
  ◌==◌, ltb, if◌then◌else◌, find, update_where, keep_where, count_where, length, sum_of, or_default,
}
use biz360_sme_erp_e_tims.Base.Int.{ℤ, pos, ◌+ℤ◌, ◌-ℤ◌, ltb_ℤ, ◌==ℤ◌}
use biz360_sme_erp_e_tims.Result.{
  Result, ok, err, conflict, not_found, bad_request, code_taken, bank_account_missing,
  bank_line_missing, no_amount, two_amounts, bad_period, reconciled_before,
}
use biz360_sme_erp_e_tims.Money.Binary.{nearest, whole, plus, minus, times, over_100}
use biz360_sme_erp_e_tims.Money.{of_cents, round2}
use biz360_sme_erp_e_tims.Store.{
  BankAccount, BankLine, Reconciliation, Db, Tx, pure, ◌>>=◌, ◌>>◌, gets, modify, throw_if,
  or_throw, lift, fresh,
}

-- A decimal: n / 10 ^ k.
abbrev pub Decimal : Type 0
Decimal = ℤ × ℕ

abbrev pub is_bank_account : ℕ → ℕ → BankAccount → Bool
is_bank_account org id a = a.id == id && a.org == org && not a.deleted

unfoldable pub find_account : ℕ → ℕ → Tx BankAccount
find_account org id = do
  found ← gets (λ db. find (is_bank_account org id) db.bank_accounts)
  or_throw found (not_found bank_account_missing)

abbrev pub is_code : ℕ → Option ℕ → Bool
is_code c none = false
is_code c (some k) = k == c

abbrev pub has_bank_code : ℕ → ℕ → BankAccount → Bool
has_bank_code org c a = a.org == org && is_code c a.code && not a.deleted

abbrev pub is_found : {A : Type 0} → Option A → Bool
is_found none = false
is_found (some a) = true

-- A code that is given must be free.
unfoldable pub check_code : (ℕ → BankAccount → Bool) → Option ℕ → Tx (Unit {0})
check_code taken none = pure tt
check_code taken (some c) = do
  dup ← gets (λ db. find (taken c) db.bank_accounts)
  throw_if (is_found dup) (conflict code_taken)

-- `@@unique([organizationId, accountCode])`, which counts the deleted rows as well.
abbrev pub holds_code : ℕ → ℕ → BankAccount → Bool
holds_code org c a = a.org == org && is_code c a.code

-- `computeBalance`: the opening balance, the credits and less the debits, in cents.
unfoldable pub compute_balance : ℤ → Option (ℤ × ℤ) → ℤ
compute_balance opening none = round2 (of_cents opening)
compute_balance opening (some (debit, credit)) =
    round2 (minus (plus (of_cents opening) (of_cents credit)) (of_cents debit))

abbrev pub is_line_of : ℕ → ℕ → BankLine → Bool
is_line_of org account l = l.org == org && l.account_id == account

abbrev pub debit_of_account : ℕ → ℕ → BankLine → ℤ
debit_of_account org account l = if is_line_of org account l then l.debit else pos 0

abbrev pub credit_of_account : ℕ → ℕ → BankLine → ℤ
credit_of_account org account l = if is_line_of org account l then l.credit else pos 0

-- `statementTotals` at one account: nothing where it has no line.
unfoldable pub statement_totals : ℕ → ℕ → List BankLine → Option (ℤ × ℤ)
statement_totals org account ls =
    if count_where (is_line_of org account) ls == 0
    then none
    else some (sum_of (debit_of_account org account) ls, sum_of (credit_of_account org account) ls)

-- The balance that `accountDetail` shows.
unfoldable pub account_balance : ℕ → ℕ → Tx ℤ
account_balance org id = do
  a ← find_account org id
  lines ← gets (λ db. db.bank_lines)
  pure (compute_balance a.opening (statement_totals org id lines))

-- The row, and the balance that the response shows.
unfoldable pub create_bank_account : ℕ → Option ℕ → Option ℤ → Option Bool → Tx (BankAccount × ℤ)
create_bank_account org code opening active = do
  check_code (has_bank_code org) code
  check_code (holds_code org) code
  k ← fresh
  let a : BankAccount = record {
    id = k;
    org = org;
    code = code;
    opening = or_default opening (pos 0);
    active = or_default active true;
    deleted = false;
  }
  modify (λ db. record db { bank_accounts = a ∷ db.bank_accounts })
  pure (a, compute_balance a.opening none)

abbrev pub has_other_code : ℕ → ℕ → ℕ → BankAccount → Bool
has_other_code org id c a = has_bank_code org c a && not (a.id == id)

abbrev pub holds_other_code : ℕ → ℕ → ℕ → BankAccount → Bool
holds_other_code org id c a = holds_code org c a && not (a.id == id)

abbrev pub has_bank_id : ℕ → BankAccount → Bool
has_bank_id id a = a.id == id

-- A code that is given and differs from the one that the account has.
abbrev pub new_code : Option ℕ → Option ℕ → Option ℕ
new_code none old = none
new_code (some c) old = if is_code c old then none else some c

-- The changes of `updateAccount`; an empty code, here `some none`, is taken away.
abbrev pub patch_bank : Option (Option ℕ) → Option ℤ → Option Bool → BankAccount → BankAccount
patch_bank code opening active a = record a {
  code = or_default code a.code;
  opening = or_default opening a.opening;
  active = or_default active a.active;
}

-- The response shows the balance of the new opening without any statement line.
unfoldable pub update_bank_account :
    ℕ → ℕ → Option (Option ℕ) → Option ℤ → Option Bool → Tx (BankAccount × ℤ)
update_bank_account org id code opening active = do
  a ← find_account org id
  check_code (has_other_code org id) (new_code (or_default code none) a.code)
  check_code (holds_other_code org id) (or_default code none)
  modify (λ db. record db {
    bank_accounts = update_where (has_bank_id id) (patch_bank code opening active) db.bank_accounts;
  })
  let b : BankAccount = patch_bank code opening active a
  pure (b, compute_balance b.opening none)

abbrev pub drop_bank : BankAccount → BankAccount
drop_bank a = record a { deleted = true; active = false }

unfoldable pub remove_bank_account : ℕ → ℕ → Tx (Unit {0})
remove_bank_account org id = do
  find_account org id
  modify
      (λ db. record db { bank_accounts = update_where (has_bank_id id) drop_bank db.bank_accounts })
