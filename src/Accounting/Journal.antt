-- ===== src/Accounting/Journal.antt =====
-- The journal: `createEntry`, `approveEntry` and `reverseEntry` of
-- modules/accounting/accounting.service.ts.
pub mod Reversal
use biz360_sme_erp_e_tims.Base.{
  ℕ, Bool, true, false, not, ◌&&◌, Option, none, some, List, [], ◌∷◌, ◌==◌, if◌then◌else◌, find,
  update_where, map,
}
use biz360_sme_erp_e_tims.Base.Int.{ℤ}
use biz360_sme_erp_e_tims.Result.{
  Result, ok, err, conflict, not_found, account_missing, entry_missing, wrong_status,
  already_reversed, not_created,
}
use biz360_sme_erp_e_tims.Store.{
  Account, EntryLine, EntryStatus, SourceType, JournalEntry, Db, Tx, pure, ◌>>=◌, ◌>>◌, gets,
  modify, throw_if, or_throw, lift, throw,
}
use biz360_sme_erp_e_tims.Ledger.{PostLine, Posting, post}
use biz360_sme_erp_e_tims.Accounting.Chart.{is_account_id}

-- A line of a manual entry, which names its account by the id.
pub record ManualLine : Type 0 where
  pub account_id : ℕ
  pub debit : Option ℤ
  pub credit : Option ℤ

-- The accounts of `createEntry` are active too.
abbrev pub is_open_account : ℕ → ℕ → Account → Bool
is_open_account org id a = is_account_id org id a && a.active

-- Each line with the code of its account; a missing account is refused.
unfoldable pub coded_lines : List Account → ℕ → List ManualLine → Result (List PostLine)
coded_lines accounts org [] = ok []
coded_lines accounts org (l ∷ ls) = elim (find (is_open_account org l.account_id) accounts) [
  | none ↦ err (not_found account_missing)
  | some a ↦ elim (coded_lines accounts org ls) [
    | ok out ↦ ok (record { code = a.code; debit = l.debit; credit = l.credit } ∷ out)
    | err e ↦ err e
  ]
]

unfoldable pub create_entry : ℕ → Option ℕ → List ManualLine → Tx JournalEntry
create_entry org date ls = do
  accounts ← gets (λ db. db.accounts)
  lines ← lift (coded_lines accounts org ls)
  made ← post org (record {
    source_type = SourceType.manual;
    source_id = none;
    status = EntryStatus.draft;
    reversal_of = none;
    entry_date = date;
    lines = lines;
  })
  or_throw made (conflict not_created)

abbrev pub is_entry : ℕ → ℕ → JournalEntry → Bool
is_entry org id e = e.id == id && e.org == org

abbrev pub is_draft : EntryStatus → Bool
is_draft EntryStatus.draft = true
is_draft _ = false

abbrev pub is_posted : EntryStatus → Bool
is_posted EntryStatus.posted = true
is_posted _ = false

abbrev pub with_status : EntryStatus → JournalEntry → JournalEntry
with_status s e = record e { status = s }

unfoldable pub approve_entry : ℕ → ℕ → Tx (Unit {0})
approve_entry org id = do
  found ← gets (λ db. find (is_entry org id) db.entries)
  e ← or_throw found (not_found entry_missing)
  throw_if (not (is_draft e.status)) (conflict wrong_status)
  modify (λ db. record db {
    entries = update_where (is_entry org id) (with_status EntryStatus.posted) db.entries;
  })

abbrev pub is_none_id : Option ℕ → Bool
is_none_id none = true
is_none_id (some _) = false

-- A posted entry that is no reversal.
abbrev pub is_reversible : ℕ → ℕ → JournalEntry → Bool
is_reversible org id e = is_entry org id e && is_posted e.status && is_none_id e.reversal_of

-- The sides swapped; both are given, and one of them is nothing.
abbrev pub mirror_line : EntryLine → PostLine
mirror_line l = record { code = l.account_code; debit = some l.credit; credit = some l.debit }

abbrev pub reversal_of_entry : JournalEntry → Posting
reversal_of_entry e = record {
  source_type = SourceType.reversal;
  source_id = some e.id;
  status = EntryStatus.posted;
  reversal_of = some e.id;
  entry_date = none;
  lines = map mirror_line e.lines;
}

-- Why no entry to reverse was found.
abbrev pub missing_or_not_reversible : ℕ → ℕ → Tx JournalEntry
missing_or_not_reversible org id db = elim (find (is_entry org id) db.entries) [
  | none ↦ throw (not_found entry_missing) db
  | some _ ↦ throw (conflict wrong_status) db
]

abbrev pub reversible_entry : ℕ → ℕ → Tx JournalEntry
reversible_entry org id db = elim (find (is_reversible org id) db.entries) [
  | none ↦ missing_or_not_reversible org id db
  | some e ↦ pure e db
]

unfoldable pub reverse_entry : ℕ → ℕ → Tx JournalEntry
reverse_entry org id = do
  original ← reversible_entry org id
  made ← post org (reversal_of_entry original)
  reversal ← or_throw made (conflict already_reversed)
  modify (λ db. record db {
    entries = update_where (is_entry org id) (with_status EntryStatus.reversed) db.entries;
  })
  pure reversal
