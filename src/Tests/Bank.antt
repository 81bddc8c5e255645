-- ===== src/Tests/Bank.antt =====
-- A bank account with two statement lines.
use biz360_sme_erp_e_tims.Base.{ℕ, true, false, refl, none, [], ◌∷◌}
use biz360_sme_erp_e_tims.Base.Int.{pos}
use biz360_sme_erp_e_tims.Store.{BankAccount, BankLine, Reconciliation, Db, run, pure}
use biz360_sme_erp_e_tims.Store.Keeps.{After}
use biz360_sme_erp_e_tims.Banking.{find_account}
use biz360_sme_erp_e_tims.Banking.Statements.{reconcile, reconcile_ids, unique, reconcile_row}
use biz360_sme_erp_e_tims.Banking.Once.{IsReconciled, reconcile_once}
use biz360_sme_erp_e_tims.Tests.Shop.{shop}

abbrev bank : BankAccount
bank = record { id = 120; org = 1; code = none; opening = pos 0; active = true; deleted = false }

abbrev line : ℕ → BankLine
line id = record {
  id = id;
  org = 1;
  account_id = 120;
  date = 20_000;
  debit = pos 0;
  credit = pos 500;
  reconciled = false;
  reconciliation = none;
}

abbrev bank_shop : Db
bank_shop = record shop {
  next_id = 123;
  bank_accounts = bank ∷ [];
  bank_lines = line 121 ∷ line 122 ∷ [];
}

abbrev first_half : Reconciliation
first_half = record {
  id = 123;
  org = 1;
  account_id = 120;
  period_start = 19_990;
  period_end = 20_000;
}

abbrev reconciled_shop : Db
reconciled_shop = record bank_shop {
  next_id = 124;
  bank_lines = reconcile_row 123 (line 121) ∷ line 122 ∷ [];
  reconciliations = first_half ∷ [];
}

reconcile_once_example :
    IsReconciled 1 120 121 reconciled_shop
    × After (λ c. ⊥) (reconcile 1 120 19_990 20_010 (122 ∷ 121 ∷ []) reconciled_shop)
unfolding reconcile reconcile_ids find_account unique run pure
reconcile_once_example =
    reconcile_once 1 120 121 (line 121) 19_990 20_000 19_990 20_010 (121 ∷ 121 ∷ [])
      (122 ∷ 121 ∷ []) bank_shop reconciled_shop first_half refl refl refl refl
