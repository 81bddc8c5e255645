-- ===== src/Accounting/Chart.antt =====
-- The chart of accounts: `createAccount`, `updateAccount` and `removeAccount` of
-- modules/accounting/accounting.service.ts. Names and descriptions are left out.
use biz360_sme_erp_e_tims.Base.{
  ℕ, Bool, true, false, not, ◌&&◌, Option, none, some, List, [], ◌∷◌, ◌==◌, if◌then◌else◌, find,
  update_where, or_default, count_where, ◌+◌, ltb,
}
use biz360_sme_erp_e_tims.Result.{
  conflict, not_found, bad_request, code_taken, parent_missing, account_missing, own_parent,
  has_activity,
}
use biz360_sme_erp_e_tims.Store.{
  AccountType, Account, EntryLine, JournalEntry, Tx, pure, ◌>>=◌, ◌>>◌, gets, modify, throw_if,
  or_throw, fresh,
}
use biz360_sme_erp_e_tims.Ledger.{is_account}

-- `where: { id, organizationId }`, less the rows that are deleted.
abbrev pub is_account_id : ℕ → ℕ → Account → Bool
is_account_id org id a = a.org == org && a.id == id && not a.deleted

abbrev pub is_found {ℓ} : {A : Type ℓ} → Option A → Bool
is_found none = false
is_found (some _) = true

pub record AccountDto : Type 0 where
  pub code : ℕ
  pub type : AccountType
  pub parent_id : Option ℕ

pub record AccountPatch : Type 0 where
  pub type : Option AccountType
  pub parent_id : Option ℕ
  pub active : Option Bool

-- `if (dto.parentId)`: the parent is an account of the organization.
abbrev pub check_parent : ℕ → Option ℕ → Tx (Unit {0})
check_parent org none db = pure tt db
check_parent org (some k) db =
    throw_if (not (is_found (find (is_account_id org k) db.accounts))) (not_found parent_missing) db

-- `@@unique([organizationId, code])`
abbrev pub holds_account_code : ℕ → ℕ → Account → Bool
holds_account_code org code a = a.org == org && a.code == code

unfoldable pub create_account : ℕ → AccountDto → Tx Account
create_account org dto = do
  existing ← gets (λ db. find (is_account org dto.code) db.accounts)
  throw_if (is_found existing) (conflict code_taken)
  check_parent org dto.parent_id
  -- The index counts the deleted rows as well.
  held ← gets (λ db. find (holds_account_code org dto.code) db.accounts)
  throw_if (is_found held) (conflict code_taken)
  id ← fresh
  let a : Account = record {
    id = id;
    org = org;
    code = dto.code;
    type = dto.type;
    active = true;
    deleted = false;
  }
  modify (λ db. record db { accounts = a ∷ db.accounts })
  pure a

-- `journalEntryLine.count({ where: { organizationId, accountId } })`
abbrev pub entry_mentions : ℕ → ℕ → JournalEntry → ℕ
entry_mentions org id e =
    if e.org == org then count_where (λ (l : EntryLine). l.account_id == id) e.lines else 0

abbrev pub line_count : ℕ → ℕ → List JournalEntry → ℕ
line_count org id [] = 0
line_count org id (e ∷ es) = entry_mentions org id e + line_count org id es

abbrev pub is_off : Option Bool → Bool
is_off (some false) = true
is_off _ = false

-- `dto.parentId === accountId`
abbrev pub is_own_parent : ℕ → Option ℕ → Bool
is_own_parent id none = false
is_own_parent id (some k) = k == id

abbrev pub patch_account : AccountPatch → Account → Account
patch_account dto a = record a {
  type = or_default dto.type a.type;
  active = or_default dto.active a.active;
}

unfoldable pub update_account : ℕ → ℕ → AccountPatch → Tx (Unit {0})
update_account org id dto = do
  found ← gets (λ db. find (is_account_id org id) db.accounts)
  or_throw found (not_found account_missing)
  throw_if (is_own_parent id dto.parent_id) (bad_request own_parent)
  check_parent org dto.parent_id
  posted ← gets (λ db. line_count org id db.entries)
  throw_if (is_off dto.active && ltb 0 posted) (conflict has_activity)
  modify (λ db. record db {
    accounts = update_where (is_account_id org id) (patch_account dto) db.accounts;
  })

abbrev pub delete_account_row : Account → Account
delete_account_row a = record a { deleted = true }

unfoldable pub remove_account : ℕ → ℕ → Tx (Unit {0})
remove_account org id = do
  found ← gets (λ db. find (is_account_id org id) db.accounts)
  or_throw found (not_found account_missing)
  posted ← gets (λ db. line_count org id db.entries)
  throw_if (ltb 0 posted) (conflict has_activity)
  modify (λ db. record db {
    accounts = update_where (is_account_id org id) delete_account_row db.accounts;
  })
