-- ===== src/Banking/Once.antt =====
-- About a statement line that is reconciled.
use biz360_sme_erp_e_tims.Base.{
  ℕ, Bool, true, false, not, ◌&&◌, ◌≡◌, refl, ap, Option-cases, none, some, some-injective, List,
  [], ◌∷◌, ◌==◌, ltb, find, find_passes, find-update_any, update_where, keep_where, count_where,
  Bool-cases, inl, inr, arith,
}
use biz360_sme_erp_e_tims.Result.{Error, ok, err, not_found, bank_account_missing}
use biz360_sme_erp_e_tims.Store.{
  BankAccount, BankLine, Reconciliation, Db, Tx, pure, fresh, modify, gets, throw_if, ◌>>=◌, ◌>>◌,
  run,
}
use biz360_sme_erp_e_tims.Store.Keeps.{
  After, Keeps, Keeps-gets, Keeps-throw_if, Keeps-modify, Keeps-pure, keeps_rules,
}
use biz360_sme_erp_e_tims.Store.Leads.{
  Leads, Leads-first, Leads-first_then, Leads-last_then, Leads-modify,
}
use biz360_sme_erp_e_tims.Banking.{find_account, is_bank_account, is_line_of}
use biz360_sme_erp_e_tims.Banking.Statements.{
  is_in, unique, is_named_line, is_reconciled, has_line_in, reconcile_row, reconcile_ids, reconcile,
}

-- The line of an account under an id.
abbrev pub is_bank_line : ℕ → ℕ → ℕ → BankLine → Bool
is_bank_line org account k l = l.id == k && is_line_of org account l

abbrev pub HasLine : ℕ → ℕ → ℕ → BankLine → Db → Type 0
HasLine org account k x db = find (is_bank_line org account k) db.bank_lines ≡ some x

-- The line is there, and reconciled.
abbrev pub IsReconciled : ℕ → ℕ → ℕ → Db → Type 0
IsReconciled org account k db = (x : BankLine) × HasLine org account k x db × (x.reconciled ≡ true)

is_in-keep_where :
    (k x : ℕ) (ys : List ℕ)
    → (x == k) ≡ false
    → is_in k ys ≡ true
    → is_in k (keep_where (λ y. not (y == x)) ys) ≡ true
is_in-keep_where k x [] n h = cc
is_in-keep_where k x (y ∷ ys) n h = ground (arith, n, h, is_in-keep_where k x ys n)

is_in-unique : (k : ℕ) (ids : List ℕ) → is_in k ids ≡ true → is_in k (unique ids) ≡ true
unfolding unique
is_in-unique k [] h = cc
is_in-unique k (x ∷ xs) h = elim (Bool-cases (x == k)) [
  | inl same ↦ rw same refl
  | inr differs ↦
      rw differs (is_in-keep_where k x (unique xs) differs (is_in-unique k xs (rw differs at h)))
]

named_of_key :
    (org account k : ℕ) (ids : List ℕ) (y : BankLine)
    → is_in k ids ≡ true
    → is_bank_line org account k y ≡ true
    → is_named_line org account ids y ≡ true
named_of_key org account k ids y named found =
    let same : y.id ≡ k = ground (arith, found) in rw same (ground (arith, named, found))

marked_of_key :
    (org account k : ℕ) (ids : List ℕ) (y : BankLine)
    → is_in k ids ≡ true
    → is_bank_line org account k y ≡ true
    → has_line_in ids y ≡ true
marked_of_key org account k ids y named found =
    let same : y.id ≡ k = ground (arith, found) in rw same named

-- The line that a key finds is counted among those that a wider test keeps.
counted :
    (org account k : ℕ) (ids : List ℕ) (x : BankLine) (ls : List BankLine)
    → is_in k ids ≡ true
    → find (is_bank_line org account k) ls ≡ some x
    → x.reconciled ≡ true
    → ltb 0 (count_where is_reconciled (keep_where (is_named_line org account ids) ls)) ≡ true
counted org account k ids x [] named h done = cc
counted org account k ids x (y ∷ ys) named h done =
    elim (Bool-cases (is_bank_line org account k y)) [
      | inl found ↦
          let same : y ≡ x = some-injective _ _ (rw (found, find) at h) in
          let kept : is_named_line org account ids y ≡ true =
            named_of_key org account k ids y named found in
          rw kept (ground (arith, ap is_reconciled same, done))
      | inr other ↦
          let rest = counted org account k ids x ys named (rw other at h) done in
          elim (Bool-cases (is_named_line org account ids y)) [
            | inl kept ↦ rw kept (ground (arith, rest))
            | inr left ↦ rw left rest
          ]
    ]

module _ {A : Type 0} (Q : Db → Type 0) (b : Bool) (e : Error) (n : Tx A) (db : Db) where
  After-refused : b ≡ true → After Q ((throw_if b e >> n) db)
  unfolding ◌>>◌ ◌>>=◌ throw_if
  After-refused h = rw (h, ◌>>◌, ◌>>=◌, throw_if) tt

  After-guarded : After Q (n db) → After Q ((throw_if b e >> n) db)
  unfolding ◌>>◌ ◌>>=◌ throw_if pure
  After-guarded h = elim (Bool-cases b) [
    | inl t ↦ rw (t, ◌>>◌, ◌>>=◌, throw_if) tt
    | inr t ↦ rw (t, ◌>>◌, ◌>>=◌, throw_if) h
  ]

module _ (org account k : ℕ) where
  find_account-Keeps : (P : Db → Type 0) (o id : ℕ) → Keeps P (find_account o id)
  unfolding find_account
  find_account-Keeps P o id = search keeps_rules depth 10

  fresh-Keeps : (x : BankLine) → Keeps (HasLine org account k x) fresh
  unfolding fresh
  fresh-Keeps x = record { run = λ db h. h }

  -- The lines that are named are marked.
  marks-Leads :
      (x : BankLine) (ids : List ℕ) (r : ℕ)
      → is_in k ids ≡ true
      → Leads (HasLine org account k x) (IsReconciled org account k) (
          modify (λ db. record db {
            bank_lines = update_where (has_line_in ids) (reconcile_row r) db.bank_lines;
          }))
  marks-Leads x ids r named = Leads-modify _ _ _ λ db h. (
    reconcile_row r x,
    ground (
      arith,
      find-update_any (is_bank_line org account k) (has_line_in ids) (reconcile_row r) (λ y. refl) x
          db.bank_lines h,
      marked_of_key org account k ids x named
          (find_passes (is_bank_line org account k) db.bank_lines h),
    ),
    refl,
  )

  reconcile_ids-Leads :
      (x : BankLine) (start end : ℕ) (ids : List ℕ)
      → is_in k ids ≡ true
      → Leads
          (HasLine org account k x)
          (IsReconciled org account k)
          (reconcile_ids org account start end ids)
  unfolding reconcile_ids ◌>>=◌ ◌>>◌
  reconcile_ids-Leads x start end ids named = Leads-first _ _ (find_account-Keeps _ _ _) λ a.
      Leads-first _ _ (Keeps-gets _ _) λ lines. Leads-first_then _ _ (Keeps-throw_if _ _ _) (
        Leads-first_then _ _ (Keeps-throw_if _ _ _) (
          Leads-first _ _ (fresh-Keeps x) λ r.
            Leads-first_then _ _ (Keeps-modify _ _ (λ db h. h))
              (Leads-last_then _ _ (marks-Leads x ids r named) (Keeps-pure _ _))))

  reconcile-Leads :
      (x : BankLine) (start end : ℕ) (ids : List ℕ)
      → is_in k ids ≡ true
      → Leads
          (HasLine org account k x)
          (IsReconciled org account k)
          (reconcile org account start end ids)
  unfolding reconcile
  reconcile-Leads x start end ids named =
      Leads-first_then _ _ (Keeps-throw_if _ _ _)
        (reconcile_ids-Leads x start end (unique ids) (is_in-unique k ids named))

  account_missing :
      (db : Db)
      → find (is_bank_account org account) db.bank_accounts ≡ none
      → find_account org account db ≡ err (not_found bank_account_missing)
  unfolding find_account run
  account_missing db e = rw (e, ◌>>=◌) refl

  account_there :
      (db : Db) (a : BankAccount)
      → find (is_bank_account org account) db.bank_accounts ≡ some a
      → find_account org account db ≡ ok (a, db)
  unfolding find_account run pure
  account_there db a e = rw (e, ◌>>=◌) refl

  -- Where the account is there, the marked line is met.
  reconcile_ids-refused :
      (start end : ℕ) (ids : List ℕ) (db : Db)
      → is_in k ids ≡ true
      → IsReconciled org account k db
      → After (λ d. ⊥) (reconcile_ids org account start end ids db)
  unfolding reconcile_ids gets ◌>>=◌ ◌>>◌
  reconcile_ids-refused start end ids db named (x, has, done) =
      elim (Option-cases (find (is_bank_account org account) db.bank_accounts)) [
        | inl e ↦ rw (account_missing db e, ◌>>=◌) tt
        | inr (a, e) ↦
            rw (account_there db a e, ◌>>=◌)
              (After-guarded (λ d. ⊥) _ _ _ db
                (After-refused (λ d. ⊥) _ _ _ db
                  (counted org account k ids x db.bank_lines named has done)))
      ]

  refused_again :
      (start end : ℕ) (ids : List ℕ) (db : Db)
      → is_in k ids ≡ true
      → IsReconciled org account k db
      → After (λ d. ⊥) (reconcile org account start end ids db)
  unfolding reconcile
  refused_again start end ids db named done =
      After-guarded (λ d. ⊥) _ _ _ db
        (reconcile_ids-refused start end (unique ids) db (is_in-unique k ids named) done)

  -- A statement line of an account that a reconciliation of that account names is reconciled after
  -- it, and a reconciliation of the account that follows and names the line throws.
  pub reconcile_once :
      (x : BankLine) (start end start' end' : ℕ) (ids ids' : List ℕ) (db d : Db)
      (r : Reconciliation)
      → HasLine org account k x db
      → is_in k ids ≡ true
      → is_in k ids' ≡ true
      → reconcile org account start end ids db ≡ ok (r, d)
      → IsReconciled org account k d × After (λ c. ⊥) (reconcile org account start' end' ids' d)
  reconcile_once x start end start' end' ids ids' db d r has named named' e =
      let done : IsReconciled org account k d =
        rw e at ((reconcile-Leads x start end ids named).run db has) in
      (done, refused_again start' end' ids' d named' done)
