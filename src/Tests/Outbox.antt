-- ===== src/Tests/Outbox.antt =====
-- Three events of the shop, and two workers that read two of them each.
use biz360_sme_erp_e_tims.Base.{ℕ, ◌≡◌, refl, true, List, [], ◌∷◌, arith}
use biz360_sme_erp_e_tims.Store.{OutboxType, AggregateType, OutboxStatus, OutboxEvent}
use biz360_sme_erp_e_tims.Outbox.Worker.{Config, among, claim, flip}
use biz360_sme_erp_e_tims.Outbox.Worker.Attempts.{fail_times, fail_times-give_up}
use biz360_sme_erp_e_tims.Outbox.Worker.Claims.{claimed_twice}

abbrev event : ℕ → OutboxEvent
event k = record {
  id = k;
  org = 1;
  type = OutboxType.etims_invoice_submit;
  aggregate_type = AggregateType.sale_invoice;
  aggregate_id = 102;
  status = OutboxStatus.pending;
  attempts = 0;
  max_attempts = 5;
  next_attempt = 0;
  updated_at = 0;
}

abbrev polling : Config
polling = record { poll_interval = 5000; stale_after = 60_000; batch_size = 10 }

fail_times-give_up_example :
    ((fail_times 5 polling 1000 (event 1)).status ≡ OutboxStatus.failed)
    × ((fail_times 5 polling 1000 (event 1)).attempts ≡ 5)
fail_times-give_up_example = fail_times-give_up polling 1000 4 (event 1) refl

abbrev events : List OutboxEvent
events = event 1 ∷ event 2 ∷ event 3 ∷ []

abbrev mine : List OutboxEvent
mine = event 1 ∷ event 2 ∷ []

abbrev yours : List OutboxEvent
yours = event 2 ∷ event 3 ∷ []

claimed_twice_example :
    (among (claim 10 mine events).0 2 ≡ true)
    × (among (claim 11 yours (claim 10 mine events).1).0 2 ≡ true)
unfolding claim flip
claimed_twice_example =
    claimed_twice 10 11 2 mine yours events refl refl refl (λ h. omega (arith, h))
      (λ h. omega (arith, h))
