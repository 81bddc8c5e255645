-- ===== src/Tests/Keys.antt =====
-- Requests with an idempotency key, with responses that are numbers and a digest that is the body.
use biz360_sme_erp_e_tims.Base.{ℕ, Bool, true, ◌≡◌, refl, some, List, [], ◌∷◌, arith}
use biz360_sme_erp_e_tims.Idempotency.{
  Method, HttpRequest, KeyRow, Keys, executes, answers, intercept, claim, claim_existing,
}
use biz360_sme_erp_e_tims.Idempotency.Events.{Event, arrives, waits, run_events, step}
use biz360_sme_erp_e_tims.Idempotency.Replay.{stored_response_replays, early_repeat_executes}

abbrev truth : ℕ → Bool
truth b = true

abbrev digest : HttpRequest → ℕ
digest r = r.body

abbrev payment : HttpRequest
payment = record { method = Method.post; path = 1; body = 50; key = some 7; org = some 1 }

abbrev other_payment : HttpRequest
other_payment = record { method = Method.post; path = 1; body = 60; key = some 8; org = some 1 }

abbrev stored_row : KeyRow ℕ
stored_row = record {
  id = 3;
  org = 1;
  key = 7;
  hash = 50;
  response = some (201, 9);
  expires_at = 2000;
}

abbrev keys : List (KeyRow ℕ) → Keys ℕ
keys rows = record { next_id = 4; now = 1000; rows = rows }

abbrev events : List (Event ℕ)
events = arrives other_payment ∷ waits 10 ∷ []

stored_response_replays_example :
    intercept truth digest 1000 payment
      (run_events truth digest 1000 events (keys (stored_row ∷ [])))
    ≡ (answers 201 9, run_events truth digest 1000 events (keys (stored_row ∷ [])))
unfolding run_events step intercept claim claim_existing
stored_response_replays_example =
    stored_response_replays truth digest 1000 1 7 201 9 stored_row events payment
      (keys (stored_row ∷ [])) refl refl refl ((λ e. cc), ((λ e. cc), tt)) refl (omega arith)

early_repeat_executes_example :
    ((intercept truth digest 1000 payment (keys [])).0 ≡ executes (some 4))
    × ((intercept truth digest 1000 payment
          (run_events truth digest 1000 (arrives payment ∷ events) (keys []))).0
        ≡ executes (some 4))
unfolding run_events step intercept claim claim_existing
early_repeat_executes_example =
    early_repeat_executes truth digest 1000 1 7 payment events (keys []) refl refl
      ((λ e. cc), ((λ e. cc), tt)) (omega arith)
