-- ===== src/Accounting/Safety.antt =====
-- About the database after each operation on accounts and journal entries, and after an adjustment
-- of stock.
use biz360_sme_erp_e_tims.Base.{
  ℕ, Bool, not, none, some, find, ◌≡◌, refl, inl, inr, Option, List, [], ◌∷◌, if◌then◌else◌,
  update_where, count_where, All-update_where, Bool-cases,
}
use biz360_sme_erp_e_tims.Base.Int.{ℤ}
use biz360_sme_erp_e_tims.Result.{not_found, conflict, parent_missing, entry_missing, wrong_status}
use biz360_sme_erp_e_tims.Store.{
  pure, throw, Account, EntryStatus, JournalEntry, MovementType, Db, modify, fresh,
}
use biz360_sme_erp_e_tims.Store.Keeps.{After, Keeps, Keeps-modify, keeps_rules, Keeps-throw_if}
use biz360_sme_erp_e_tims.Ledger.{is_posted_for}
use biz360_sme_erp_e_tims.Ledger.Books.{IsBalanced}
use biz360_sme_erp_e_tims.Ledger.Numbers.{AreDistinct, Differs, IsUnderSeq}
use biz360_sme_erp_e_tims.Stock.{move_stock, adjust_stock}
use biz360_sme_erp_e_tims.Consistency.{IsConsistent, post-IsConsistent, move_stock-IsConsistent}
use biz360_sme_erp_e_tims.Accounting.Chart.{
  is_found, is_account_id, AccountDto, AccountPatch, check_parent, create_account, update_account,
  remove_account,
}
use biz360_sme_erp_e_tims.Accounting.Journal.{
  is_entry, is_reversible, ManualLine, with_status, create_entry, approve_entry, reversible_entry,
  reverse_entry,
}

-- A change of status is not seen by the ledger's invariants.
module _ (p : JournalEntry → Bool) (s : EntryStatus) where
  count-with_status :
      (org c k : ℕ) (es : List JournalEntry)
      → count_where (is_posted_for org c k) (update_where p (with_status s) es)
        ≡ count_where (is_posted_for org c k) es
  count-with_status org c k [] = refl
  count-with_status org c k (e ∷ es) = elim (Bool-cases (p e)) [
    | inl t ↦ rw (t, count-with_status org c k es)
    | inr f ↦ rw (f, count-with_status org c k es)
  ]

  IsBalanced-with_status :
      (e : JournalEntry) → IsBalanced e → IsBalanced (if p e then with_status s e else e)
  IsBalanced-with_status e h = elim (Bool-cases (p e)) [
    | inl t ↦ rw t (record { sided = h.sided; balanced = h.balanced })
    | inr f ↦ rw f h
  ]

  IsUnderSeq-with_status :
      (seq : ℕ → ℕ) (e : JournalEntry)
      → IsUnderSeq seq e
      → IsUnderSeq seq (if p e then with_status s e else e)
  IsUnderSeq-with_status seq e h = elim (Bool-cases (p e)) [ inl t ↦ rw t h | inr f ↦ rw f h ]

  Differs-with_status :
      (e f : JournalEntry)
      → Differs e f
      → Differs (if p e then with_status s e else e) (if p f then with_status s f else f)
  Differs-with_status e f h = elim (Bool-cases (p e)) [
    | inl t ↦ elim (Bool-cases (p f)) [ inl u ↦ rw (t, u) h | inr u ↦ rw (t, u) h ]
    | inr t ↦ elim (Bool-cases (p f)) [ inl u ↦ rw (t, u) h | inr u ↦ rw (t, u) h ]
  ]

  AreDistinct-with_status :
      (es : List JournalEntry) → AreDistinct es → AreDistinct (update_where p (with_status s) es)
  AreDistinct-with_status [] h = tt
  AreDistinct-with_status (e ∷ es) h = (
    All-update_where (Differs e) _ p (with_status s) (Differs-with_status e) es h.0,
    AreDistinct-with_status es h.1,
  )

  with_status-IsConsistent :
      (db : Db)
      → IsConsistent db
      → IsConsistent (record db { entries = update_where p (with_status s) db.entries })
  with_status-IsConsistent db h = record {
    books =
        All-update_where IsBalanced IsBalanced p (with_status s) IsBalanced-with_status db.entries
          h.books;
    once = λ org k t m. rw (count-with_status org _ k db.entries) (h.once org k t m);
    numbered = record {
      under =
          All-update_where _ _ p (with_status s) (IsUnderSeq-with_status db.entry_seq) db.entries
            h.numbered.under;
      distinct = AreDistinct-with_status db.entries h.numbered.distinct;
    };
    stock = h.stock;
  }

  status-Keeps :
      Keeps IsConsistent
        (modify (λ db. record db { entries = update_where p (with_status s) db.entries }))
  status-Keeps = Keeps-modify IsConsistent _ with_status-IsConsistent

fresh-Keeps : Keeps IsConsistent fresh
unfolding fresh
fresh-Keeps = record { run = λ db h. h }

new_account-Keeps :
    (a : Account) → Keeps IsConsistent (modify (λ db. record db { accounts = a ∷ db.accounts }))
new_account-Keeps a = Keeps-modify IsConsistent _ (λ db h. h)

accounts-Keeps :
    (p : Account → Bool) (f : Account → Account)
    → Keeps IsConsistent (modify (λ db. record db { accounts = update_where p f db.accounts }))
accounts-Keeps p f = Keeps-modify IsConsistent _ (λ db h. h)

check_parent-Keeps : (org : ℕ) (o : Option ℕ) → Keeps IsConsistent (check_parent org o)
unfolding pure
check_parent-Keeps org none = record { run = λ db h. h }
check_parent-Keeps org (some k) = record {
  run = λ db.
      (Keeps-throw_if IsConsistent (not (is_found (find (is_account_id org k) db.accounts)))
          (not_found parent_missing)).run
        db;
}

move-Keeps :
    (org id : ℕ) (delta : ℤ) (t : MovementType) (ref : Option ℕ)
    → Keeps IsConsistent (modify (move_stock org id delta t ref))
move-Keeps org id delta t ref =
    Keeps-modify IsConsistent _ (move_stock-IsConsistent org id delta t ref)

reversible_entry-Keeps : (org id : ℕ) → Keeps IsConsistent (reversible_entry org id)
unfolding pure throw
reversible_entry-Keeps org id = record {
  run = λ db h.
      kept db h (find (is_reversible org id) db.entries) (find (is_entry org id) db.entries);
}
  where
    kept :
        (db : Db)
        → IsConsistent db
        → (o other : Option JournalEntry)
        → After {A = JournalEntry} IsConsistent (elim o [
          | none ↦ elim other [
            | none ↦ throw (not_found entry_missing) db
            | some _ ↦ throw (conflict wrong_status) db
          ]
          | some e ↦ pure e db
        ])
    kept db h none none = tt
    kept db h none (some _) = tt
    kept db h (some e) other = h

ruleset row_rules = (
  keeps_rules, status-Keeps, fresh-Keeps, new_account-Keeps, accounts-Keeps, check_parent-Keeps,
  move-Keeps, reversible_entry-Keeps, post-IsConsistent,
)

pub create_account-IsConsistent :
    (org : ℕ) (dto : AccountDto) → Keeps IsConsistent (create_account org dto)
unfolding create_account
create_account-IsConsistent org dto = search row_rules depth 20

pub update_account-IsConsistent :
    (org id : ℕ) (dto : AccountPatch) → Keeps IsConsistent (update_account org id dto)
unfolding update_account
update_account-IsConsistent org id dto = search row_rules depth 20

pub remove_account-IsConsistent : (org id : ℕ) → Keeps IsConsistent (remove_account org id)
unfolding remove_account
remove_account-IsConsistent org id = search row_rules depth 20

pub create_entry-IsConsistent :
    (org : ℕ) (date : Option ℕ) (ls : List ManualLine)
    → Keeps IsConsistent (create_entry org date ls)
unfolding create_entry
create_entry-IsConsistent org date ls = search row_rules depth 20

pub approve_entry-IsConsistent : (org id : ℕ) → Keeps IsConsistent (approve_entry org id)
unfolding approve_entry
approve_entry-IsConsistent org id = search row_rules depth 20

pub reverse_entry-IsConsistent : (org id : ℕ) → Keeps IsConsistent (reverse_entry org id)
unfolding reverse_entry
reverse_entry-IsConsistent org id = search row_rules depth 20

pub adjust_stock-IsConsistent :
    (org id : ℕ) (delta : ℤ) → Keeps IsConsistent (adjust_stock org id delta)
unfolding adjust_stock
adjust_stock-IsConsistent org id delta = search row_rules depth 20
