-- ===== src/Tests/Reports.antt =====
-- The reports on the shop whose one sale is posted.
use biz360_sme_erp_e_tims.Base.{◌≡◌, refl, true, none, inl, inr}
use biz360_sme_erp_e_tims.Base.Int.{int_laws, ◌+ℤ◌}
use biz360_sme_erp_e_tims.Ledger.Resolve.{debits, credits}
use biz360_sme_erp_e_tims.Ledger.Books.{IsBalanced}
use biz360_sme_erp_e_tims.Accounting.Reports.{counted_lines, trial_balance, balance_sheet}
use biz360_sme_erp_e_tims.Accounting.Reports.Balance.{
  trial_balance_balances, balance_sheet_balances,
}
use biz360_sme_erp_e_tims.Tests.Books.{posted_shop, sale_entry}

sale_entry-IsBalanced : IsBalanced sale_entry
unfolding ◌+ℤ◌
sale_entry-IsBalanced = record {
  sided =
      (inl (omega int_laws, refl), (inr (omega int_laws, refl), (inr (omega int_laws, refl), tt)));
  balanced = refl;
}

trial_balance_balances_example :
    ((trial_balance 1 none none posted_shop).balanced ≡ true)
    × ((trial_balance 1 none none posted_shop).total_debit
        ≡ debits (counted_lines 1 none none posted_shop))
    × ((trial_balance 1 none none posted_shop).total_credit
        ≡ credits (counted_lines 1 none none posted_shop))
unfolding counted_lines
trial_balance_balances_example =
    trial_balance_balances 1 none none posted_shop (sale_entry-IsBalanced, tt)
      (refl, (refl, (refl, tt)))

balance_sheet_balances_example :
    (balance_sheet 1 none posted_shop).total_assets
    ≡ (balance_sheet 1 none posted_shop).total_liabilities_and_equity
unfolding counted_lines
balance_sheet_balances_example =
    balance_sheet_balances 1 none posted_shop (sale_entry-IsBalanced, tt) (refl, (refl, (refl, tt)))
