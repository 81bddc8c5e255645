-- ===== src/Ledger.antt =====
-- modules/accounting/ledger.service.ts: the posting engine, and the entry that each document
-- posts. Amounts arrive as whole cents, where `round2` changes nothing (Money.Exact), so its
-- calls on them are left out. An account code is a number.
pub mod Resolve
pub mod Books
pub mod Once
pub mod Numbers
pub mod Documents
use biz360_sme_erp_e_tims.Base.{
  ℕ, Bool, true, false, not, ◌&&◌, ◌||◌, Option, none, some, List, [], ◌∷◌, ◌++◌, ◌==◌,
  if◌then◌else◌, find, or_default, suc,
}
use biz360_sme_erp_e_tims.Base.Int.{ℤ, pos, ◌+ℤ◌, ltb_ℤ, ◌==ℤ◌}
use biz360_sme_erp_e_tims.Result.{
  Result, ok, err, not_found, bad_request, account_missing, negative_line, not_one_side, unbalanced,
}
use biz360_sme_erp_e_tims.Store.{
  Account, EntryLine, EntryStatus, SourceType, JournalEntry, Db, Tx, bump,
}

pub record PostLine : Type 0 where
  pub code : ℕ
  pub debit : Option ℤ
  pub credit : Option ℤ

-- The parameters of `post` that its conditions or its rows read.
pub record Posting : Type 0 where
  pub source_type : SourceType
  pub source_id : Option ℕ
  pub status : EntryStatus
  pub reversal_of : Option ℕ
  pub entry_date : Option ℕ
  pub lines : List PostLine

-- The numbers of the source types, to test them for equality.
abbrev pub source_code : SourceType → ℕ
source_code SourceType.manual = 0
source_code SourceType.sale_invoice = 1
source_code SourceType.sale_cogs = 2
source_code SourceType.sale_cogs_reversal = 3
source_code SourceType.sale_payment = 4
source_code SourceType.sale_payment_reversal = 5
source_code SourceType.sale_void = 6
source_code SourceType.purchase_invoice = 7
source_code SourceType.purchase_payment = 8
source_code SourceType.purchase_payment_reversal = 9
source_code SourceType.purchase_void = 10
source_code SourceType.reversal = 11
source_code SourceType.credit_note = 12

abbrev pub is_manual : SourceType → Bool
is_manual t = source_code t == 0

abbrev pub is_some_id : Option ℕ → ℕ → Bool
is_some_id none k = false
is_some_id (some j) k = j == k

-- The account of a code in an organization that is not deleted; `active` is read and not tested.
abbrev pub is_account : ℕ → ℕ → Account → Bool
is_account org code a = a.org == org && a.code == code && not a.deleted

-- An entry that was posted for this source.
abbrev pub is_posted_for : ℕ → ℕ → ℕ → JournalEntry → Bool
is_posted_for org t k e = e.org == org && source_code e.source_type == t && is_some_id e.source_id k

-- `sourceType !== 'MANUAL' && sourceId`, and the entry is there.
unfoldable pub already_posted : ℕ → Posting → List JournalEntry → Bool
already_posted org p es = elim p.source_id [
  | none ↦ false
  | some k ↦
      not (is_manual p.source_type)
      && elim (find (is_posted_for org (source_code p.source_type) k) es) [
        | none ↦ false
        | some _ ↦ true
      ]
]

-- One line of a posting, checked and resolved to its account.
unfoldable pub resolve_line : List Account → ℕ → PostLine → Result EntryLine
resolve_line accounts org l = elim (find (is_account org l.code) accounts) [
  | none ↦ err (not_found account_missing)
  | some a ↦
      let debit = or_default l.debit (pos 0) in
      let credit = or_default l.credit (pos 0) in
      if ltb_ℤ debit (pos 0) || ltb_ℤ credit (pos 0)
      then err (bad_request negative_line)
      else if (ltb_ℤ (pos 0) debit && ltb_ℤ (pos 0) credit) || (debit ==ℤ pos 0 && credit ==ℤ pos 0)
      then err (bad_request not_one_side)
      else ok (record { account_id = a.id; account_code = a.code; debit = debit; credit = credit })
]

pub record Resolved : Type 0 where
  pub total_debit : ℤ
  pub total_credit : ℤ
  pub resolved : List EntryLine

-- The totals with one line more.
abbrev pub take_line : Resolved → EntryLine → Resolved
take_line r l = record {
  total_debit = r.total_debit +ℤ l.debit;
  total_credit = r.total_credit +ℤ l.credit;
  resolved = r.resolved ++ (l ∷ []);
}

-- The loop of `post` over its lines.
unfoldable pub resolve_lines : List Account → ℕ → List PostLine → Resolved → Result Resolved
resolve_lines accounts org [] r = ok r
resolve_lines accounts org (l ∷ ls) r = elim (resolve_line accounts org l) [
  | ok e ↦ resolve_lines accounts org ls (take_line r e)
  | err x ↦ err x
]

abbrev pub nothing_resolved : Resolved
nothing_resolved = record { total_debit = pos 0; total_credit = pos 0; resolved = [] }

-- The row that `post` creates, and the sequence that gave it its number.
unfoldable pub add_entry : ℕ → Posting → List EntryLine → Db → JournalEntry × Db
add_entry org p lines db =
    let e : JournalEntry = record {
      id = db.next_id;
      org = org;
      number = suc (db.entry_seq org);
      date = or_default p.entry_date db.today;
      status = p.status;
      source_type = p.source_type;
      source_id = p.source_id;
      reversal_of = p.reversal_of;
      lines = lines;
    } in
    (
      e,
      record db {
        next_id = suc db.next_id;
        entry_seq = bump db.entry_seq org;
        entries = e ∷ db.entries;
      },
    )

-- `null`, here `none`, where the source was posted before.
unfoldable pub post : ℕ → Posting → Tx (Option JournalEntry)
post org p db =
    if already_posted org p db.entries
    then ok (none, db)
    else elim (resolve_lines db.accounts org p.lines nothing_resolved) [
      | err x ↦ err x
      | ok r ↦
          if r.total_debit ==ℤ r.total_credit
          then (let (e, db') = add_entry org p r.resolved db in ok (some e, db'))
          else err (bad_request unbalanced)
    ]

abbrev pub debit_line : ℕ → ℤ → PostLine
debit_line code v = record { code = code; debit = some v; credit = none }

abbrev pub credit_line : ℕ → ℤ → PostLine
credit_line code v = record { code = code; debit = none; credit = some v }

-- A posting of a document: posted at once, and no reversal.
abbrev pub document : SourceType → ℕ → List PostLine → Posting
document t k lines = record {
  source_type = t;
  source_id = some k;
  status = EntryStatus.posted;
  reversal_of = none;
  entry_date = none;
  lines = lines;
}
