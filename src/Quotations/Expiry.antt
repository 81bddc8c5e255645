-- ===== src/Quotations/Expiry.antt =====
-- About a method that expires an overdue quotation before its transaction.
use biz360_sme_erp_e_tims.Base.{
  ℕ, true, false, Option, none, some, ◌≡◌, refl, find, Bool-cases, inl, inr,
}
use biz360_sme_erp_e_tims.Result.{Result, ok, err, conflict, expired}
use biz360_sme_erp_e_tims.Store.{Quotation, Db, Tx, transact}
use biz360_sme_erp_e_tims.Store.Keeps.{After, Keeps}
use biz360_sme_erp_e_tims.Quotations.{is_quotation, is_past, expire_rows, unless_past}

module _ (P : Db → Type 0) {A : Type 0} where
  after_transact :
      (r : Result (A × Db)) (db : Db)
      → P db
      → After P r
      → P ((elim r as (λ _. Result A × Db) [ ok (a, db') ↦ (ok a, db') | err e ↦ (err e, db) ]).1)
  after_transact (ok r) db p h = h
  after_transact (err e) db p h = p

  -- What a transaction keeps, and the expiry of a row, the method keeps.
  pub unless_past_keeps :
      (org id : ℕ) {m : Tx A}
      → Keeps P m
      → ((db : Db) (q : Quotation)
          → find (is_quotation org id) db.quotations ≡ some q
          → is_past db.now q ≡ true
          → P db
          → P (expire_rows org id q.status db))
      → (db : Db) → P db
      → P ((unless_past org id m db).1)
  unfolding unless_past transact
  unless_past_keeps org id {m} h expire db p = go (find (is_quotation org id) db.quotations) refl
    where
      go :
          (o : Option Quotation)
          → find (is_quotation org id) db.quotations ≡ o
          → P ((unless_past org id m db).1)
      go none e = rw (e, unless_past) p
      go (some q) e = elim (Bool-cases (is_past db.now q)) [
        | inl past ↦ rw (e, past, unless_past) (expire db q e past p)
        | inr live ↦ rw (e, live, unless_past) (after_transact (m db) db p (h.run db p))
      ]

module _ (org id : ℕ) (q : Quotation) {A : Type 0} (m : Tx A) (db : Db)
    (has : find (is_quotation org id) db.quotations ≡ some q) where
  pub unless_past-past :
      is_past db.now q ≡ true
      → unless_past org id m db ≡ (err (conflict expired), expire_rows org id q.status db)
  unfolding unless_past
  unless_past-past past = rw (has, past, unless_past) refl

  pub unless_past-live : is_past db.now q ≡ false → unless_past org id m db ≡ transact m db
  unfolding unless_past
  unless_past-live live = rw (has, live, unless_past) refl
