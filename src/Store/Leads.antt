-- ===== src/Store/Leads.antt =====
-- What a transaction brings about where it succeeds: from a property of the state before to one of
-- the state after. The rules follow the `do` blocks.
use biz360_sme_erp_e_tims.Base.{Bool, true, false, Option, none, some, ◌≡◌, refl}
use biz360_sme_erp_e_tims.Result.{Error, Result, ok, err}
use biz360_sme_erp_e_tims.Store.Database.{Db}
use biz360_sme_erp_e_tims.Store.Monad.{Tx, ◌>>=◌, ◌>>◌, gets, modify, throw_if, or_throw, lift}
use biz360_sme_erp_e_tims.Store.Keeps.{After, Keeps}

pub record Leads {A : Type 0} (P Q : Db → Type 0) (m : Tx A) : Type 0 where
  pub run : (db : Db) → P db → After Q (m db)

module _ {A : Type 0} where
  After-then :
      {B : Type 0} (P Q : Db → Type 0) (r : Result (A × Db)) (f : A → Tx B)
      → After P r
      → ((a : A) (db : Db) → P db → After Q (f a db))
      → After Q (elim r [ ok (a, db') ↦ f a db' | err e ↦ err e ])
  After-then P Q (ok (a, db)) f h k = k a db h
  After-then P Q (err e) f h k = tt

  -- What holds before is kept by the first part, and the rest leads on.
  pub Leads-first :
      {B : Type 0} (P Q : Db → Type 0) {m : Tx A} {f : A → Tx B}
      → Keeps P m
      → ((a : A) → Leads P Q (f a))
      → Leads P Q (m >>= f)
  unfolding ◌>>=◌
  Leads-first P Q {m} {f} h k = record {
    run = λ db p. After-then P Q (m db) f (h.run db p) (λ a d q. (k a).run d q);
  }

  -- The first part leads on, and the rest keeps it.
  pub Leads-last :
      {B : Type 0} (P Q : Db → Type 0) {m : Tx A} {f : A → Tx B}
      → Leads P Q m
      → ((a : A) → Keeps Q (f a))
      → Leads P Q (m >>= f)
  unfolding ◌>>=◌
  Leads-last P Q {m} {f} h k = record {
    run = λ db p. After-then Q Q (m db) f (h.run db p) (λ a d q. (k a).run d q);
  }

  pub Leads-last_then :
      {B : Type 0} (P Q : Db → Type 0) {m : Tx A} {n : Tx B}
      → Leads P Q m
      → Keeps Q n
      → Leads P Q (m >> n)
  unfolding ◌>>◌
  Leads-last_then P Q {m} {n} h k = Leads-last P Q {m = m} {f = λ _. n} h (λ _. k)

  pub Leads-first_then :
      {B : Type 0} (P Q : Db → Type 0) {m : Tx A} {n : Tx B}
      → Keeps P m
      → Leads P Q n
      → Leads P Q (m >> n)
  unfolding ◌>>◌
  Leads-first_then P Q {m} {n} h k = Leads-first P Q {m = m} {f = λ _. n} h (λ _. k)

  -- A guard that was passed is known in the rest.
  pub Leads-guard :
      (P Q : Db → Type 0) (b : Bool) (e : Error) {n : Tx A}
      → (b ≡ false → Leads P Q n)
      → Leads P Q (throw_if b e >> n)
  unfolding ◌>>◌ throw_if
  Leads-guard P Q true e h = record { run = λ db p. tt }
  Leads-guard P Q false e h = record { run = λ db p. (h refl).run db p }

  -- A check that was passed is known in the rest.
  pub Leads-lift_then :
      {B : Type 0} (P Q : Db → Type 0) (r : Result B) {n : Tx A}
      → ((b : B) → r ≡ ok b → Leads P Q n)
      → Leads P Q (lift r >> n)
  unfolding ◌>>◌ ◌>>=◌ lift
  Leads-lift_then P Q (ok b) h = record { run = λ db p. (h b refl).run db p }
  Leads-lift_then P Q (err e) h = record { run = λ db p. tt }

  -- A row that was read is in the state that it was read from.
  pub Leads-find :
      {B : Type 0} (P Q : Db → Type 0) (f : Db → Option A) (e : Error) {k : A → Tx B}
      → ((a : A) → Leads (λ db. P db × (f db ≡ some a)) Q (k a))
      → Leads P Q (gets f >>= λ o. or_throw o e >>= k)
  unfolding ◌>>=◌ gets or_throw
  Leads-find P Q f e {k} h = record { run = λ db p. go db p (f db) refl }
    where
      go : (db : Db) → P db → (o : Option A) → f db ≡ o → After Q ((or_throw o e >>= k) db)
      go db p none q = tt
      go db p (some a) q = (h a).run db (p, q)

pub Leads-modify :
    (P Q : Db → Type 0) (f : Db → Db) → ((db : Db) → P db → Q (f db)) → Leads P Q (modify f)
unfolding modify
Leads-modify P Q f h = record { run = h }

-- One step of a transaction, with the equation that it ran by.
pub After-step :
    {A B : Type 0} (Q : Db → Type 0) (m : Tx A) (f : A → Tx B) (db : Db)
    → ((a : A) (d : Db) → m db ≡ ok (a, d) → After Q (f a d))
    → After Q ((m >>= f) db)
unfolding ◌>>=◌
After-step {A} Q m f db k = go (m db) refl
  where
    go :
        (r : Result (A × Db))
        → m db ≡ r
        → After Q (elim r [ ok (a, db') ↦ f a db' | err e ↦ err e ])
    go (ok (a, d)) q = k a d q
    go (err e) q = tt
