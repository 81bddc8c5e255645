-- ===== src/Store/Monad.antt =====
-- `prisma.$transaction`: a computation on the database that may throw. A throw rolls back, so an
-- error comes with no state: the caller goes on with the one that it had.
use biz360_sme_erp_e_tims.Base.{ℕ, Bool, true, false, Option, none, some, suc, ◌==◌, if◌then◌else◌}
use biz360_sme_erp_e_tims.Result.{Error, Result, ok, err}
use biz360_sme_erp_e_tims.Store.Database.{Db}

abbrev pub Tx : Type 0 → Type 0
Tx A = Db → Result (A × Db)

unfoldable pub pure : {A : Type 0} → A → Tx A
pure a db = ok (a, db)

infixl 5 ◌>>=◌ ◌>>◌
unfoldable pub ◌>>=◌ : {A B : Type 0} → Tx A → (A → Tx B) → Tx B
◌>>=◌ m f db = elim (m db) [ ok (a, db') ↦ f a db' | err e ↦ err e ]

unfoldable pub ◌>>◌ : {A B : Type 0} → Tx A → Tx B → Tx B
unfolding ◌>>=◌
m >> k = m >>= λ _. k

unfoldable pub throw : {A : Type 0} → Error → Tx A
throw e db = err e

unfoldable pub gets : {A : Type 0} → (Db → A) → Tx A
gets f db = ok (f db, db)

unfoldable pub modify : (Db → Db) → Tx (Unit {0})
modify f db = ok (tt, f db)

-- `if (b) throw e`
unfoldable pub throw_if : Bool → Error → Tx (Unit {0})
unfolding throw pure
throw_if true e = throw e
throw_if false e = pure tt

-- `if (!o) throw e`
unfoldable pub or_throw : {A : Type 0} → Option A → Error → Tx A
unfolding throw pure
or_throw none e = throw e
or_throw (some a) e = pure a

-- A computation that reads nothing.
unfoldable pub lift : {A : Type 0} → Result A → Tx A
unfolding throw pure
lift (ok a) = pure a
lift (err e) = throw e

-- `if (b) m`
unfoldable pub when : Bool → Tx (Unit {0}) → Tx (Unit {0})
unfolding pure
when true m = m
when false m = pure tt

-- The id of the next row.
unfoldable pub fresh : Tx ℕ
fresh db = ok (db.next_id, record db { next_id = suc db.next_id })

-- `upsert` with `create: 1` and `update: { increment: 1 }`.
abbrev pub bump : (ℕ → ℕ) → ℕ → ℕ → ℕ
bump seq org k = if org == k then suc (seq org) else seq k

-- The state after the transaction: a throw leaves the old one.
abbrev pub commit : {A : Type 0} → Tx A → Db → Db
commit m db = elim (m db) [ ok (_, db') ↦ db' | err _ ↦ db ]

-- A transaction from a state: what unfolds it opens all the operations above.
unfoldable pub run : {A : Type 0} → Tx A → Db → Result (A × Db)
unfolding ◌>>◌ throw_if or_throw lift when gets modify fresh
run m db = m db

-- A service method that works outside one transaction: what it wrote before a throw stays.
abbrev pub Handler : Type 0 → Type 0
Handler A = Db → Result A × Db

-- A transaction as the last part of such a method.
unfoldable pub transact : {A : Type 0} → Tx A → Handler A
transact m db = elim (m db) [ ok (a, db') ↦ (ok a, db') | err e ↦ (err e, db) ]
