-- ===== src/Banking/Statements.antt =====
-- The statement lines of modules/banking/banking.service.ts: `importStatement` and `reconcile`.
use biz360_sme_erp_e_tims.Base.{
  ℕ, suc, ◌^◌, ◌+◌, Bool, true, false, not, ◌&&◌, ◌||◌, Option, none, some, List, [], ◌∷◌, ◌++◌,
  ◌==◌, ltb, if◌then◌else◌, update_where, keep_where, count_where, length,
}
use biz360_sme_erp_e_tims.Base.Int.{ℤ, pos, ltb_ℤ, ◌==ℤ◌}
use biz360_sme_erp_e_tims.Result.{
  Result, ok, err, conflict, not_found, bad_request, bank_line_missing, no_amount, two_amounts,
  bad_period, reconciled_before,
}
use biz360_sme_erp_e_tims.Money.Binary.{nearest}
use biz360_sme_erp_e_tims.Money.{round2}
use biz360_sme_erp_e_tims.Store.{
  BankLine, Reconciliation, Tx, pure, ◌>>=◌, ◌>>◌, gets, modify, throw_if, lift, fresh,
}
use biz360_sme_erp_e_tims.Banking.{Decimal, find_account, is_line_of}

pub record StatementDto : Type 0 where
  pub date : ℕ
  pub debit : Option Decimal
  pub credit : Option Decimal

-- `round2(amount ?? 0)`
abbrev pub rounded : Option Decimal → ℤ
rounded none = pos 0
rounded (some (n, k)) = round2 (nearest n (10 ^ k))

-- One side has an amount, and not both have a positive one.
unfoldable pub statement_row : ℕ → ℕ → StatementDto → Result (ℕ → BankLine)
statement_row org account l =
    let debit : ℤ = rounded l.debit in
    let credit : ℤ = rounded l.credit in
    if debit ==ℤ pos 0 && credit ==ℤ pos 0
    then err (bad_request no_amount)
    else if ltb_ℤ (pos 0) debit && ltb_ℤ (pos 0) credit
    then err (bad_request two_amounts)
    else ok (λ id. record {
      id = id;
      org = org;
      account_id = account;
      date = l.date;
      debit = debit;
      credit = credit;
      reconciled = false;
      reconciliation = none;
    })

-- The rows, under the ids from `k` on.
unfoldable pub statement_rows : ℕ → ℕ → ℕ → List StatementDto → Result (List BankLine)
statement_rows org account k [] = ok []
statement_rows org account k (l ∷ ls) = elim (statement_row org account l) [
  | err e ↦ err e
  | ok row ↦ elim (statement_rows org account (suc k) ls) [
    | err e ↦ err e
    | ok rows ↦ ok (row k ∷ rows)
  ]
]

unfoldable pub import_statement : ℕ → ℕ → List StatementDto → Tx (List BankLine)
import_statement org account dtos = do
  find_account org account
  k ← gets (λ db. db.next_id)
  rows ← lift (statement_rows org account k dtos)
  modify
      (λ db. record db { next_id = db.next_id + length rows; bank_lines = rows ++ db.bank_lines })
  pure rows

abbrev pub is_in : ℕ → List ℕ → Bool
is_in k [] = false
is_in k (x ∷ xs) = x == k || is_in k xs

-- `[...new Set(ids)]`
unfoldable pub unique : List ℕ → List ℕ
unique [] = []
unique (x ∷ xs) = x ∷ keep_where (λ y. not (y == x)) (unique xs)

abbrev pub is_named_line : ℕ → ℕ → List ℕ → BankLine → Bool
is_named_line org account ids l = is_in l.id ids && is_line_of org account l

abbrev pub is_reconciled : BankLine → Bool
is_reconciled l = l.reconciled

abbrev pub has_line_in : List ℕ → BankLine → Bool
has_line_in ids l = is_in l.id ids

abbrev pub reconcile_row : ℕ → BankLine → BankLine
reconcile_row k l = record l { reconciled = true; reconciliation = some k }

-- The transaction of `reconcile`, on the ids without repeats.
unfoldable pub reconcile_ids : ℕ → ℕ → ℕ → ℕ → List ℕ → Tx Reconciliation
reconcile_ids org account start end ids = do
  find_account org account
  lines ← gets (λ db. keep_where (is_named_line org account ids) db.bank_lines)
  throw_if (not (length lines == length ids)) (not_found bank_line_missing)
  throw_if (ltb 0 (count_where is_reconciled lines)) (conflict reconciled_before)
  k ← fresh
  let r : Reconciliation = record {
    id = k;
    org = org;
    account_id = account;
    period_start = start;
    period_end = end;
  }
  modify (λ db. record db { reconciliations = r ∷ db.reconciliations })
  modify (λ db. record db {
    bank_lines = update_where (has_line_in ids) (reconcile_row k) db.bank_lines;
  })
  pure r

unfoldable pub reconcile : ℕ → ℕ → ℕ → ℕ → List ℕ → Tx Reconciliation
reconcile org account start end ids = do
  throw_if (ltb end start) (bad_request bad_period)
  reconcile_ids org account start end (unique ids)
