-- ===== src/Idempotency/Events.antt =====
-- What happens to the keys as requests arrive, handlers end and time passes, in any order.
use biz360_sme_erp_e_tims.Base.{ℕ, ◌+◌, Bool, Option, none, some, List, [], ◌∷◌}
use biz360_sme_erp_e_tims.Idempotency.{HttpRequest, Keys, intercept, complete, abort}

pub data Event (B : Type 0) : Type 0 where
  arrives : HttpRequest → Event B
  succeeds : ℕ → ℕ → B → Event B
  fails : ℕ → Event B
  waits : ℕ → Event B

module _ {B : Type 0} (truthy : B → Bool) (digest : HttpRequest → ℕ) (ttl : ℕ) where
  unfoldable pub step : Event B → Keys B → Keys B
  step (arrives r) st = (intercept truthy digest ttl r st).1
  step (succeeds id code body) st = (complete id code body st).1
  step (fails id) st = abort id st
  step (waits t) st = record st { now = st.now + t }

  unfoldable pub run_events : List (Event B) → Keys B → Keys B
  run_events [] st = st
  run_events (e ∷ es) st = run_events es (step e st)

-- The claim that an event ends.
abbrev pub ended : {B : Type 0} → Event B → Option ℕ
ended (succeeds id code body) = some id
ended (fails id) = some id
ended _ = none
