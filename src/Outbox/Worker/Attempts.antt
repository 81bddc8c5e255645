-- ===== src/Outbox/Worker/Attempts.antt =====
-- The attempts of an event whose dispatch keeps failing, and the time between them.
use biz360_sme_erp_e_tims.Base.{ℕ, zero, suc, ◌+◌, ◌≤◌, ◌<◌, ◌≡◌, refl, arith, ap}
use biz360_sme_erp_e_tims.Store.{OutboxStatus, OutboxEvent}
use biz360_sme_erp_e_tims.Outbox.Worker.{Config, backoff, failed_row}

-- The row after a number of dispatches at some time, each of which failed.
unfoldable pub fail_times : ℕ → Config → ℕ → OutboxEvent → OutboxEvent
fail_times zero cfg now e = e
fail_times (suc n) cfg now e =
    fail_times n cfg now (failed_row cfg now (suc e.attempts) e.max_attempts e)

abbrev retry_row : Config → ℕ → OutboxEvent → OutboxEvent
retry_row cfg now e = record e {
  attempts = suc e.attempts;
  status = OutboxStatus.pending;
  next_attempt = backoff cfg now (suc e.attempts);
  updated_at = now;
}

module _ (cfg : Config) (now : ℕ) where
  failed_row-retry :
      (e : OutboxEvent)
      → suc e.attempts < e.max_attempts
      → failed_row cfg now (suc e.attempts) e.max_attempts e ≡ retry_row cfg now e
  failed_row-retry e h = ground arith

  fail_times-retry :
      (n : ℕ) (e : OutboxEvent)
      → suc e.attempts < e.max_attempts
      → fail_times (suc n) cfg now e ≡ fail_times n cfg now (retry_row cfg now e)
  unfolding fail_times
  fail_times-retry n e h = ap (fail_times n cfg now) (failed_row-retry e h)

  -- An event with at least one attempt left that fails at every attempt left has failed for good,
  -- and its attempts are the most that it may have.
  pub fail_times-give_up :
      (n : ℕ) (e : OutboxEvent)
      → e.attempts + suc n ≡ e.max_attempts
      → ((fail_times (suc n) cfg now e).status ≡ OutboxStatus.failed)
        × ((fail_times (suc n) cfg now e).attempts ≡ e.max_attempts)
  unfolding fail_times
  fail_times-give_up zero e h = ground arith
  fail_times-give_up (suc n) e h =
      rw (fail_times-retry (suc n) e (omega (arith, h)))
        (fail_times-give_up n (retry_row cfg now e) (omega (arith, h)))

  -- An event that fails at one or more, but not all, of the attempts that it has left is pending,
  -- and its attempts have grown by the failures.
  pub fail_times-wait :
      (m n : ℕ) (e : OutboxEvent)
      → e.attempts + (suc m + suc n) ≡ e.max_attempts
      → ((fail_times (suc m) cfg now e).status ≡ OutboxStatus.pending)
        × ((fail_times (suc m) cfg now e).attempts ≡ e.attempts + suc m)
  unfolding fail_times
  fail_times-wait zero n e h = rw (failed_row-retry e (omega (arith, h))) (refl, omega arith)
  fail_times-wait (suc m) n e h =
      let later = fail_times-wait m n (retry_row cfg now e) (omega (arith, h)) in
      rw (fail_times-retry (suc m) e (omega (arith, h))) (later.0, omega (arith, later.1))

  -- The next attempt after a failure is never before the present and at most five minutes after
  -- it.
  pub backoff_bounds :
      (attempt : ℕ) → (now ≤ backoff cfg now attempt) × (backoff cfg now attempt ≤ now + 300_000)
  unfolding backoff
  backoff_bounds attempt = ground arith
