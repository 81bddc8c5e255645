-- ===== src/Access/Rules.antt =====
-- Rules for a property of the accounts that a method leaves, along its lookups and tests.
use biz360_sme_erp_e_tims.Base.{Bool, true, false, Option, none, some, if◌then◌else◌}
use biz360_sme_erp_e_tims.Access.{Identity, Answer}

abbrev pub Leaves : {A : Type 0} → (Identity → Type 0) → Answer A × Identity → Type 0
Leaves P r = P r.1

module _ (P : Identity → Type 0) {A : Type 0} where
  pub either :
      (b : Bool) (r r' : Answer A × Identity) → P r.1 → P r'.1 → P ((if b then r else r').1)
  either true r r' h k = h
  either false r r' h k = k

  pub looked_up :
      {X : Type 0} (o : Option X) (r : Answer A × Identity) (g : X → Answer A × Identity)
      → Leaves P r
      → ((x : X) → Leaves P (g x))
      → Leaves {A = A} P (elim o [ none ↦ r | some x ↦ g x ])
  looked_up none r g h k = h
  looked_up (some x) r g h k = k x
