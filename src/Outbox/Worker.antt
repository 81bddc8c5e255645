-- ===== src/Outbox/Worker.antt =====
-- events/outbox/outbox.worker.ts: one poll of the worker. Times are in milliseconds. Every update
-- of a row sets its `updatedAt` to the time of the update. Whether a dispatch succeeds is a
-- parameter: the handlers call services outside of the repository.
pub mod Attempts
pub mod Claims
use biz360_sme_erp_e_tims.Base.{
  ℕ, zero, suc, ◌+◌, ◌-◌, ◌*◌, ◌^◌, min, Bool, true, false, ◌&&◌, ◌||◌, List, [], ◌∷◌, ◌==◌, leb,
  ltb, if◌then◌else◌, find, update_where, count_where, keep_where,
}
use biz360_sme_erp_e_tims.Store.{OutboxStatus, OutboxEvent}

pub record Config : Type 0 where
  pub poll_interval : ℕ
  pub stale_after : ℕ
  pub batch_size : ℕ

abbrev pub is_pending : OutboxStatus → Bool
is_pending OutboxStatus.pending = true
is_pending _ = false

abbrev pub is_processing : OutboxStatus → Bool
is_processing OutboxStatus.processing = true
is_processing _ = false

abbrev pub has_id : ℕ → OutboxEvent → Bool
has_id k e = e.id == k

-- `id: { in: rows.map((row) => row.id) }`
abbrev pub among : List OutboxEvent → ℕ → Bool
among [] k = false
among (e ∷ es) k = e.id == k || among es k

abbrev pub take : ℕ → List OutboxEvent → List OutboxEvent
take zero es = []
take (suc n) [] = []
take (suc n) (e ∷ es) = e ∷ take n es

-- `orderBy: { nextAttemptAt: 'asc' }`
abbrev pub insert_by_next : OutboxEvent → List OutboxEvent → List OutboxEvent
insert_by_next e [] = e ∷ []
insert_by_next e (f ∷ fs) =
    let rest = insert_by_next e fs in
    if leb e.next_attempt f.next_attempt then e ∷ f ∷ fs else f ∷ rest

abbrev pub order_by_next : List OutboxEvent → List OutboxEvent
order_by_next [] = []
order_by_next (e ∷ es) = insert_by_next e (order_by_next es)

-- `backoff`, of an attempt from 1 on.
unfoldable pub backoff : Config → ℕ → ℕ → ℕ
backoff cfg now attempt = now + min (cfg.poll_interval * 2 ^ (attempt - 1)) 300_000

-- The two updates of `reapStaleProcessing`.
abbrev pub is_stale : Config → ℕ → OutboxEvent → Bool
is_stale cfg now e = is_processing e.status && ltb e.updated_at (now - cfg.stale_after)

abbrev pub is_exhausted : OutboxEvent → Bool
is_exhausted e = leb e.max_attempts e.attempts

abbrev pub reclaim_row : ℕ → OutboxEvent → OutboxEvent
reclaim_row now e = record e { status = OutboxStatus.pending; next_attempt = now; updated_at = now }

abbrev pub give_up_row : ℕ → OutboxEvent → OutboxEvent
give_up_row now e = record e { status = OutboxStatus.failed; updated_at = now }

abbrev pub has_attempts : OutboxEvent → Bool
has_attempts e = ltb e.attempts e.max_attempts

unfoldable pub reap_stale : Config → ℕ → List OutboxEvent → List OutboxEvent
reap_stale cfg now rows =
    let stale = take cfg.batch_size (keep_where (is_stale cfg now) rows) in
    let reclaim = keep_where has_attempts stale in
    let failed = keep_where is_exhausted stale in
    let reclaimed =
      update_where (λ (e : OutboxEvent). among reclaim e.id && is_processing e.status)
        (reclaim_row now) rows in
    update_where (λ (e : OutboxEvent). among failed e.id && is_processing e.status)
      (give_up_row now) reclaimed

-- The rows that `claimDueEvents` reads first.
abbrev pub is_due : ℕ → OutboxEvent → Bool
is_due now e = is_pending e.status && leb e.next_attempt now

unfoldable pub read_due : Config → ℕ → List OutboxEvent → List OutboxEvent
read_due cfg now rows = take cfg.batch_size (order_by_next (keep_where (is_due now) rows))

abbrev pub claim_row : ℕ → OutboxEvent → OutboxEvent
claim_row now e = record e { status = OutboxStatus.processing; updated_at = now }

abbrev pub is_claimable : List OutboxEvent → OutboxEvent → Bool
is_claimable due e = among due e.id && is_pending e.status

-- The atomic claim of the rows that are still pending.
unfoldable pub flip : ℕ → List OutboxEvent → List OutboxEvent → List OutboxEvent
flip now due rows = update_where (is_claimable due) (claim_row now) rows

-- A row of the id passes the test.
abbrev pub holds : (OutboxEvent → Bool) → ℕ → List OutboxEvent → Bool
holds p k [] = false
holds p k (e ∷ es) = e.id == k && p e || holds p k es

abbrev pub in_hand : OutboxEvent → Bool
in_hand e = is_processing e.status

-- The rows that were read first and are processing now, by the second read.
unfoldable pub reread : List OutboxEvent → List OutboxEvent → List OutboxEvent
reread due rows = keep_where (λ (d : OutboxEvent). holds in_hand d.id rows) due

-- The rest of `claimDueEvents`, from the rows that were read.
unfoldable pub claim : ℕ → List OutboxEvent → List OutboxEvent → List OutboxEvent × List OutboxEvent
claim now due rows =
    if count_where (is_claimable due) rows == 0
    then ([], rows)
    else (reread due (flip now due rows), flip now due rows)

abbrev pub done_row : ℕ → OutboxEvent → OutboxEvent
done_row now e = record e { status = OutboxStatus.done; updated_at = now }

-- A failed dispatch of a row that was read with so many attempts, of so many.
abbrev pub failed_row : Config → ℕ → ℕ → ℕ → OutboxEvent → OutboxEvent
failed_row cfg now attempts limit e =
    if leb limit attempts
    then record e { attempts = attempts; status = OutboxStatus.failed; updated_at = now }
    else record e {
      attempts = attempts;
      status = OutboxStatus.pending;
      next_attempt = backoff cfg now attempts;
      updated_at = now;
    }

-- `processRow`, where the dispatch succeeds or not.
unfoldable pub process_row : Config → ℕ → Bool → OutboxEvent → List OutboxEvent → List OutboxEvent
process_row cfg now true row rows = update_where (has_id row.id) (done_row now) rows
process_row cfg now false row rows =
    update_where (has_id row.id) (failed_row cfg now (suc row.attempts) row.max_attempts) rows

unfoldable pub process_rows :
    Config → ℕ → (OutboxEvent → Bool) → List OutboxEvent → List OutboxEvent → List OutboxEvent
process_rows cfg now dispatch [] rows = rows
process_rows cfg now dispatch (e ∷ es) rows =
    process_rows cfg now dispatch es (process_row cfg now (dispatch e) e rows)

-- `runOnce` of a worker that is not stopped, with no other at work.
unfoldable pub run_once : Config → ℕ → (OutboxEvent → Bool) → List OutboxEvent → List OutboxEvent
run_once cfg now dispatch rows =
    let reaped = reap_stale cfg now rows in
    let (claimed, claimed_rows) = claim now (read_due cfg now reaped) reaped in
    process_rows cfg now dispatch claimed claimed_rows
