-- ===== src/Banking/Safety.antt =====
-- About the books and the stock after each operation of modules/banking/banking.service.ts, which
-- touches neither.
use biz360_sme_erp_e_tims.Base.{ℕ, Option, none, some, List}
use biz360_sme_erp_e_tims.Base.Int.{ℤ}
use biz360_sme_erp_e_tims.Base.{Bool}
use biz360_sme_erp_e_tims.Store.{BankAccount, BankLine, Reconciliation, Db, modify, fresh}
use biz360_sme_erp_e_tims.Store.Keeps.{Keeps, Keeps-modify, keeps_rules}
use biz360_sme_erp_e_tims.Consistency.{IsConsistent}
use biz360_sme_erp_e_tims.Banking.{
  find_account, check_code, create_bank_account, update_bank_account, remove_bank_account,
}
use biz360_sme_erp_e_tims.Banking.Statements.{
  StatementDto, import_statement, reconcile_ids, reconcile,
}

accounts-Keeps :
    (f : Db → List BankAccount)
    → Keeps IsConsistent (modify (λ db. record db { bank_accounts = f db }))
accounts-Keeps f = Keeps-modify IsConsistent _ (λ db h. h)

lines-Keeps :
    (f : Db → List BankLine) → Keeps IsConsistent (modify (λ db. record db { bank_lines = f db }))
lines-Keeps f = Keeps-modify IsConsistent _ (λ db h. h)

new_lines-Keeps :
    (k : Db → ℕ) (f : Db → List BankLine)
    → Keeps IsConsistent (modify (λ db. record db { next_id = k db; bank_lines = f db }))
new_lines-Keeps k f = Keeps-modify IsConsistent _ (λ db h. h)

reconciliations-Keeps :
    (f : Db → List Reconciliation)
    → Keeps IsConsistent (modify (λ db. record db { reconciliations = f db }))
reconciliations-Keeps f = Keeps-modify IsConsistent _ (λ db h. h)

fresh-Keeps : Keeps IsConsistent fresh
unfolding fresh
fresh-Keeps = record { run = λ db h. h }

find_account-Keeps : (org id : ℕ) → Keeps IsConsistent (find_account org id)
unfolding find_account
find_account-Keeps org id = search keeps_rules depth 10

check_code-Keeps :
    (taken : ℕ → BankAccount → Bool) (code : Option ℕ) → Keeps IsConsistent (check_code taken code)
unfolding check_code
check_code-Keeps taken none = search keeps_rules
check_code-Keeps taken (some c) = search keeps_rules depth 10

ruleset bank_rules = (
  keeps_rules, accounts-Keeps, lines-Keeps, new_lines-Keeps, reconciliations-Keeps, fresh-Keeps,
  find_account-Keeps, check_code-Keeps,
)

-- Each operation keeps the books and the stock consistent.
pub create_bank_account-IsConsistent :
    (org : ℕ) (code : Option ℕ) (opening : Option ℤ) (active : Option Bool)
    → Keeps IsConsistent (create_bank_account org code opening active)
unfolding create_bank_account
create_bank_account-IsConsistent org code opening active = search bank_rules depth 15

pub update_bank_account-IsConsistent :
    (org id : ℕ) (code : Option (Option ℕ)) (opening : Option ℤ) (active : Option Bool)
    → Keeps IsConsistent (update_bank_account org id code opening active)
unfolding update_bank_account
update_bank_account-IsConsistent org id code opening active = search bank_rules depth 15

pub remove_bank_account-IsConsistent :
    (org id : ℕ) → Keeps IsConsistent (remove_bank_account org id)
unfolding remove_bank_account
remove_bank_account-IsConsistent org id = search bank_rules depth 15

pub import_statement-IsConsistent :
    (org account : ℕ) (dtos : List StatementDto)
    → Keeps IsConsistent (import_statement org account dtos)
unfolding import_statement
import_statement-IsConsistent org account dtos = search bank_rules depth 15

pub reconcile-IsConsistent :
    (org account start end : ℕ) (ids : List ℕ)
    → Keeps IsConsistent (reconcile org account start end ids)
unfolding reconcile reconcile_ids
reconcile-IsConsistent org account start end ids = search bank_rules depth 20
