-- ===== src/Store/Keeps.antt =====
-- A transaction keeps a property of the database: rules that follow the `do` blocks.
use biz360_sme_erp_e_tims.Base.{Bool, true, false, Option, none, some, if◌then◌else◌}
use biz360_sme_erp_e_tims.Result.{Error, Result, ok, err}
use biz360_sme_erp_e_tims.Store.Database.{Db}
use biz360_sme_erp_e_tims.Store.Monad.{
  Tx, pure, ◌>>=◌, ◌>>◌, gets, modify, throw_if, or_throw, lift, when, commit,
}

-- The property holds of the state that a success leaves.
abbrev pub After : {A : Type 0} → (Db → Type 0) → Result (A × Db) → Type 0
After P (ok r) = P r.1
After P (err e) = Unit

pub After-map :
    {A : Type 0} (P Q : Db → Type 0)
    → ((db : Db) → P db → Q db)
    → (r : Result (A × Db)) → After P r
    → After Q r
After-map P Q f (ok r) h = f r.1 h
After-map P Q f (err e) h = tt

abbrev pub Preserves : {A : Type 0} → (Db → Type 0) → Tx A → Type 0
Preserves P m = (db : Db) → P db → After P (m db)

-- The same as a record, from which the rules read the transaction.
pub record Keeps {A : Type 0} (P : Db → Type 0) (m : Tx A) : Type 0 where
  pub run : Preserves P m

module _ (P : Db → Type 0) {A : Type 0} where
  After-bind :
      {B : Type 0} (r : Result (A × Db)) (f : A → Tx B)
      → After P r
      → ((a : A) → Keeps P (f a))
      → After P (elim r [ ok (a, db') ↦ f a db' | err e ↦ err e ])
  After-bind (ok (a, db)) f h k = (k a).run db h
  After-bind (err e) f h k = tt

  pub Keeps-bind :
      {B : Type 0} {m : Tx A} {f : A → Tx B}
      → Keeps P m
      → ((a : A) → Keeps P (f a))
      → Keeps P (m >>= f)
  unfolding ◌>>=◌
  Keeps-bind {m = m} {f = f} h k = record { run = λ db p. After-bind (m db) f (h.run db p) k }

  pub Keeps-then : {B : Type 0} {m : Tx A} {n : Tx B} → Keeps P m → Keeps P n → Keeps P (m >> n)
  unfolding ◌>>◌
  Keeps-then {m = m} {n = n} h k = Keeps-bind {m = m} {f = λ _. n} h (λ _. k)

  pub Keeps-pure : (a : A) → Keeps P (pure a)
  unfolding pure
  Keeps-pure a = record { run = λ db p. p }

  pub Keeps-gets : (f : Db → A) → Keeps P (gets f)
  unfolding gets
  Keeps-gets f = record { run = λ db p. p }

  pub Keeps-or_throw : (o : Option A) (e : Error) → Keeps P (or_throw o e)
  unfolding or_throw
  Keeps-or_throw none e = record { run = λ db p. tt }
  Keeps-or_throw (some a) e = record { run = λ db p. p }

  pub Keeps-lift : (r : Result A) → Keeps P (lift r)
  unfolding lift
  Keeps-lift (ok a) = record { run = λ db p. p }
  Keeps-lift (err e) = record { run = λ db p. tt }

  After-commit :
      (r : Result (A × Db)) (db : Db)
      → P db
      → After P r
      → P (elim r [ ok (_, db') ↦ db' | err _ ↦ db ])
  After-commit (ok r) db p h = h
  After-commit (err e) db p h = p

  -- A kept property holds after the transaction, rolled back or not.
  pub Keeps-commit : {m : Tx A} → Keeps P m → (db : Db) → P db → P (commit m db)
  Keeps-commit {m = m} h db p = After-commit (m db) db p (h.run db p)

module _ (P : Db → Type 0) where
  pub Keeps-throw_if : (b : Bool) (e : Error) → Keeps P (throw_if b e)
  unfolding throw_if
  Keeps-throw_if true e = record { run = λ db p. tt }
  Keeps-throw_if false e = record { run = λ db p. p }

  pub Keeps-if :
      {A : Type 0} (b : Bool) {m n : Tx A} → Keeps P m → Keeps P n → Keeps P (if b then m else n)
  Keeps-if true h k = h
  Keeps-if false h k = k

  pub Keeps-when : (b : Bool) {m : Tx (Unit {0})} → Keeps P m → Keeps P (when b m)
  unfolding when
  Keeps-when true h = h
  Keeps-when false h = record { run = λ db p. p }

  pub Keeps-modify : (f : Db → Db) → ((db : Db) → P db → P (f db)) → Keeps P (modify f)
  unfolding modify
  Keeps-modify f h = record { run = h }

pub ruleset keeps_rules = (
  Keeps-bind, Keeps-then, Keeps-pure, Keeps-gets, Keeps-or_throw, Keeps-lift, Keeps-throw_if,
  Keeps-if, Keeps-when,
)
