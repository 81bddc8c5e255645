-- ===== src/Consistency.antt =====
-- The invariant that the services keep on the database, across the ledger and the stock.
use biz360_sme_erp_e_tims.Base.{ℕ, List, Option, All}
use biz360_sme_erp_e_tims.Base.Int.{ℤ}
use biz360_sme_erp_e_tims.Result.{Result}
use biz360_sme_erp_e_tims.Store.{JournalEntry, MovementType, Item, Movement, Db}
use biz360_sme_erp_e_tims.Store.Keeps.{After, Preserves, Keeps}
use biz360_sme_erp_e_tims.Ledger.{Posting, add_entry, post}
use biz360_sme_erp_e_tims.Ledger.Books.{
  IsBalanced, BooksBalance, Posted, skipped, refused, differs, booked, post-Posted,
  post-BooksBalance,
}
use biz360_sme_erp_e_tims.Ledger.Once.{AreOnce, BookedOnce, post-BookedOnce}
use biz360_sme_erp_e_tims.Ledger.Numbers.{AreNumbered, IsNumbered, post-IsNumbered}
use biz360_sme_erp_e_tims.Stock.{move_stock}
use biz360_sme_erp_e_tims.Stock.Agrees.{Agrees, StockAgrees, move_stock-StockAgrees}

-- The books balance, each source is booked once, entry numbers are distinct, and the stock on
-- hand of every item is the sum of its movements. No other table is read.
pub record AreConsistent (es : List JournalEntry) (seq : ℕ → ℕ) (items : List Item)
    (ms : List Movement) : Type 0 where
  pub books : All IsBalanced es
  pub once : AreOnce es
  pub numbered : AreNumbered seq es
  pub stock : All (Agrees ms) items

abbrev pub IsConsistent : Db → Type 0
IsConsistent db = AreConsistent db.entries db.entry_seq db.items db.movements

post-StockAgrees : (org : ℕ) (p : Posting) → Preserves StockAgrees (post org p)
unfolding add_entry
post-StockAgrees org p db b = go (post-Posted org p db)
  where
    go : {r : Result (Option JournalEntry × Db)} → Posted org p db r → After StockAgrees r
    go (skipped h) = b
    go (refused h q) = tt
    go (differs r h q e) = tt
    go (booked r h q e) = b

After_all :
    (r : Result (Option JournalEntry × Db))
    → After BooksBalance r
    → After BookedOnce r
    → After IsNumbered r
    → After StockAgrees r
    → After IsConsistent r
After_all (Result.ok r) a b c d = record { books = a; once = b; numbered = c; stock = d }
After_all (Result.err e) a b c d = tt

pub post-IsConsistent : (org : ℕ) (p : Posting) → Keeps IsConsistent (post org p)
post-IsConsistent org p = record {
  run = λ db h.
      After_all (post org p db) (post-BooksBalance org p db h.books)
        (post-BookedOnce org p db h.once) (post-IsNumbered org p db h.numbered)
        (post-StockAgrees org p db h.stock);
}

pub move_stock-IsConsistent :
    (org id : ℕ) (delta : ℤ) (t : MovementType) (ref : Option ℕ) (db : Db)
    → IsConsistent db
    → IsConsistent (move_stock org id delta t ref db)
unfolding move_stock
move_stock-IsConsistent org id delta t ref db h = record {
  books = h.books;
  once = h.once;
  numbered = h.numbered;
  stock = move_stock-StockAgrees org id delta t ref db h.stock;
}
