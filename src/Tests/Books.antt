-- ===== src/Tests/Books.antt =====
-- Postings of the shop: the sale of 348.00 with a tax of 48.00.
use biz360_sme_erp_e_tims.Base.{◌≡◌, refl, none, some, List, [], ◌∷◌, arith}
use biz360_sme_erp_e_tims.Base.Int.{pos, ◌+ℤ◌, ◌-ℤ◌, int_laws}
use biz360_sme_erp_e_tims.Result.{ok, err, bad_request, not_one_side}
use biz360_sme_erp_e_tims.Store.{
  AccountType, EntryLine, EntryStatus, SourceType, JournalEntry, Db, bump,
}
use biz360_sme_erp_e_tims.Store.Keeps.{After}
use biz360_sme_erp_e_tims.Ledger.{
  Posting, post, document, add_entry, already_posted, resolve_lines, resolve_line,
}
use biz360_sme_erp_e_tims.Ledger.Books.{BooksBalance, post-BooksBalance}
use biz360_sme_erp_e_tims.Ledger.Once.{post_again}
use biz360_sme_erp_e_tims.Ledger.Documents.{
  sale_invoice_lines, sale_void_lines, sale_cogs_lines, sale_cogs_reversal_lines,
  sale_payment_lines, sale_payment_reversal_lines, purchase_invoice_lines, purchase_void_lines,
  purchase_payment_lines, purchase_payment_reversal_lines, post_sale_invoice,
}
use biz360_sme_erp_e_tims.Ledger.Documents.Mirror.{net, undo_cancels}
use biz360_sme_erp_e_tims.Ledger.Documents.Outcome.{debit_row, credit_row, sale_invoice_untaxed}
use biz360_sme_erp_e_tims.Accounting.Journal.{reverse_entry}
use biz360_sme_erp_e_tims.Accounting.Journal.Reversal.{CountsTwice, reverse_entry-CountsTwice}
use biz360_sme_erp_e_tims.Tests.Shop.{account, shop}

-- The posting of the sale of 348.00 with a tax of 48.00, and of a later sale of the same id.
abbrev sale_posting : Posting
sale_posting = document SourceType.sale_invoice 102 (sale_invoice_lines (pos 34_800) (pos 4800))

abbrev other_posting : Posting
other_posting = document SourceType.sale_invoice 102 (sale_invoice_lines (pos 100) (pos 14))

abbrev sale_rows : List EntryLine
sale_rows =
    debit_row (account 11 1200 AccountType.asset) (pos 34_800)
    ∷ credit_row (account 16 4100 AccountType.income) (pos 30_000)
    ∷ credit_row (account 15 2200 AccountType.liability) (pos 4800)
    ∷ []

abbrev pub sale_entry : JournalEntry
sale_entry = record {
  id = 100;
  org = 1;
  number = 1;
  date = 20_000;
  status = EntryStatus.posted;
  source_type = SourceType.sale_invoice;
  source_id = some 102;
  reversal_of = none;
  lines = sale_rows;
}

abbrev pub posted_shop : Db
posted_shop = record shop { next_id = 101; entry_seq = bump (λ o. 0) 1; entries = sale_entry ∷ [] }

post-BooksBalance_example : After BooksBalance (post 1 sale_posting shop)
post-BooksBalance_example = post-BooksBalance 1 sale_posting shop tt

post_again_example : post 1 other_posting posted_shop ≡ ok (none, posted_shop)
unfolding post already_posted resolve_lines resolve_line add_entry ◌-ℤ◌ ◌+ℤ◌
post_again_example = post_again 1 102 sale_posting other_posting shop refl refl refl refl refl

sale_invoice_untaxed_example :
    post_sale_invoice 1 102 (pos 30_000) (pos 0) shop ≡ err (bad_request not_one_side)
unfolding already_posted
sale_invoice_untaxed_example =
    sale_invoice_untaxed 1 102 shop refl refl refl (pos 30_000) (pos 0) refl (omega int_laws) refl

undo_cancels_example :
    (net 2200 (sale_invoice_lines (pos 34_800) (pos 4800))
        +ℤ net 2200 (sale_void_lines (pos 34_800) (pos 4800))
      ≡ pos 0)
    × (net 2200 (purchase_invoice_lines (pos 34_800) (pos 4800))
          +ℤ net 2200 (purchase_void_lines (pos 34_800) (pos 4800))
        ≡ pos 0)
    × (net 2200 (sale_payment_lines (pos 50)) +ℤ net 2200 (sale_payment_reversal_lines (pos 50))
        ≡ pos 0)
    × (net 2200 (purchase_payment_lines (pos 50))
          +ℤ net 2200 (purchase_payment_reversal_lines (pos 50))
        ≡ pos 0)
    × (net 2200 (sale_cogs_lines (pos 50)) +ℤ net 2200 (sale_cogs_reversal_lines (pos 50)) ≡ pos 0)
undo_cancels_example = undo_cancels 2200 (pos 34_800) (pos 4800) (pos 50)

reverse_entry-CountsTwice_example :
    After (CountsTwice 4100 1 100 posted_shop) (reverse_entry 1 100 posted_shop)
reverse_entry-CountsTwice_example =
    reverse_entry-CountsTwice 4100 1 100 posted_shop (tt, tt) (omega arith, tt)
