-- ===== src/Ledger/Books.antt =====
-- About the books after `post` of modules/accounting/ledger.service.ts, and its branches.
use biz360_sme_erp_e_tims.Base.{
  ℕ, true, false, ◌≡◌, refl, inl, inr, arith, All, some, none, Option, Bool-cases, sym, ◌∙◌,
}
use biz360_sme_erp_e_tims.Base.Int.{ℤ, ◌==ℤ◌}
use biz360_sme_erp_e_tims.Result.{Result, Error, bad_request, unbalanced, ok, err, Result-cases}
use biz360_sme_erp_e_tims.Store.{JournalEntry, Db}
use biz360_sme_erp_e_tims.Store.Keeps.{After}
use biz360_sme_erp_e_tims.Ledger.{
  Posting, already_posted, nothing_resolved, Resolved, resolve_lines, add_entry, post,
}
use biz360_sme_erp_e_tims.Ledger.Resolve.{
  IsOneSided, debits, credits, IsResolved, resolve_lines-IsResolved,
}

-- A balanced entry of one-sided lines.
pub record IsBalanced (e : JournalEntry) : Type 0 where
  pub sided : All IsOneSided e.lines
  pub balanced : debits e.lines ≡ credits e.lines

abbrev pub BooksBalance : Db → Type 0
BooksBalance db = All IsBalanced db.entries

eq_of_test : (a b : ℤ) → (a ==ℤ b) ≡ true → a ≡ b
eq_of_test a b h = ground arith

-- The ways that `post` can end, with what each of them has passed.
pub data Posted (org : ℕ) (p : Posting) (db : Db) : Result (Option JournalEntry × Db) → Type 0 where
  skipped : already_posted org p db.entries ≡ true → Posted org p db (ok (none, db))
  refused :
      {x : Error}
      → already_posted org p db.entries ≡ false
      → resolve_lines db.accounts org p.lines nothing_resolved ≡ err x
      → Posted org p db (err x)
  differs :
      (r : Resolved)
      → already_posted org p db.entries ≡ false
      → resolve_lines db.accounts org p.lines nothing_resolved ≡ ok r
      → (r.total_debit ==ℤ r.total_credit) ≡ false
      → Posted org p db (err (bad_request unbalanced))
  booked :
      (r : Resolved)
      → already_posted org p db.entries ≡ false
      → resolve_lines db.accounts org p.lines nothing_resolved ≡ ok r
      → r.total_debit ≡ r.total_credit
      → Posted org p db
          (ok (some (add_entry org p r.resolved db).0, (add_entry org p r.resolved db).1))

pub post-Posted : (org : ℕ) (p : Posting) (db : Db) → Posted org p db (post org p db)
unfolding post
post-Posted org p db = elim (Bool-cases (already_posted org p db.entries)) [
  | inl old ↦ rw old (skipped old)
  | inr new ↦ elim (Result-cases (resolve_lines db.accounts org p.lines nothing_resolved)) [
    | inr (x, q) ↦ rw (new, q, post) (refused new q)
    | inl (r, q) ↦ elim (Bool-cases (r.total_debit ==ℤ r.total_credit)) [
      | inl same ↦ rw (new, q, post, same) (booked r new q (eq_of_test _ _ same))
      | inr other ↦ rw (new, q, post, other) (differs r new q other)
    ]
  ]
]

add_entry-BooksBalance :
    (org : ℕ) (p : Posting) (r : Resolved) (db : Db)
    → IsResolved r
    → r.total_debit ≡ r.total_credit
    → BooksBalance db
    → BooksBalance (add_entry org p r.resolved db).1
unfolding add_entry
add_entry-BooksBalance org p r db h same b =
    (record { sided = h.sided; balanced = sym h.debit_sum ∙ same ∙ h.credit_sum }, b)

-- Where every entry has equal debits and credits, and lines with exactly one positive side, a
-- posting that does not throw leaves only such entries, whatever its lines are.
pub post-BooksBalance :
    (org : ℕ) (p : Posting) (db : Db) → BooksBalance db → After BooksBalance (post org p db)
post-BooksBalance org p db b = go (post-Posted org p db)
  where
    go : {r : Result (Option JournalEntry × Db)} → Posted org p db r → After BooksBalance r
    go (skipped h) = b
    go (refused h q) = tt
    go (differs r h q e) = tt
    go (booked r h q e) =
        add_entry-BooksBalance org p r db
          (rw q at (
            resolve_lines-IsResolved db.accounts org p.lines nothing_resolved
              (record { sided = tt; debit_sum = refl; credit_sum = refl })))
          e b

-- A posting that returned an entry has resolved its lines to the entry's, and added it.
pub post-booked :
    (org : ℕ) (p : Posting) (db : Db) {e : JournalEntry} {db' : Db}
    → post org p db ≡ ok (some e, db')
    → (r : Resolved) × (resolve_lines db.accounts org p.lines nothing_resolved ≡ ok r)
      × (add_entry org p r.resolved db ≡ (e, db'))
post-booked org p db {e} {db'} h = go (post-Posted org p db) h
  where
    go :
        {r : Result (Option JournalEntry × Db)}
        → Posted org p db r
        → r ≡ ok (some e, db')
        → (s : Resolved) × (resolve_lines db.accounts org p.lines nothing_resolved ≡ ok s)
          × (add_entry org p s.resolved db ≡ (e, db'))
    go (skipped h) q = cc
    go (refused h q') q = cc
    go (differs r h q' e) q = cc
    go (booked r h q' e) q = (r, q', ground arith)
