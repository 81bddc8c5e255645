-- ===== src/Store/Succeeds.antt =====
-- A transaction does not throw: rules that follow the `do` blocks.
use biz360_sme_erp_e_tims.Base.{Bool, true, false, ◌≡◌, refl}
use biz360_sme_erp_e_tims.Result.{Error, Result, ok, err}
use biz360_sme_erp_e_tims.Store.Database.{Db}
use biz360_sme_erp_e_tims.Store.Monad.{Tx, pure, ◌>>=◌, ◌>>◌, throw_if}

abbrev pub is_ok : {A : Type 0} → Result A → Bool
is_ok (ok a) = true
is_ok (err e) = false

module _ {A B : Type 0} (m : Tx A) {db d : Db} {a : A} (first : m db ≡ ok (a, d)) where
  pub is_ok-bind : (f : A → Tx B) → is_ok (f a d) ≡ true → is_ok ((m >>= f) db) ≡ true
  unfolding ◌>>=◌
  is_ok-bind f h = rw (◌>>=◌, first) h

  pub is_ok-then : (n : Tx B) → is_ok (n d) ≡ true → is_ok ((m >> n) db) ≡ true
  unfolding ◌>>◌
  is_ok-then n h = is_ok-bind (λ _. n) h

pub throw_if-ok : (b : Bool) (e : Error) (db : Db) → b ≡ false → throw_if b e db ≡ ok (tt, db)
unfolding throw_if pure
throw_if-ok true e db h = cc
throw_if-ok false e db h = refl
