-- ===== src/Outbox.antt =====
-- The outbox: `enqueue` of events/outbox/outbox.service.ts. An event carries the id of what it is
-- about; its payload is left out. The index `outbox_events_inflight_aggregate_unique` of the
-- migration 20260917033600_fix_outbox_inflight_unique refuses a second event of one type about the
-- same thing while the first is pending or processed; the violation is answered as a conflict.
pub mod Worker
use biz360_sme_erp_e_tims.Base.{
  ℕ, suc, Bool, true, false, ◌&&◌, ◌||◌, Option, or_default, ◌∷◌, ◌==◌, not, count_where,
}
use biz360_sme_erp_e_tims.Result.{conflict, in_flight}
use biz360_sme_erp_e_tims.Store.{
  OutboxType, AggregateType, OutboxStatus, OutboxEvent, Db, Tx, gets, throw_if, modify, ◌>>=◌, ◌>>◌,
}
use biz360_sme_erp_e_tims.Outbox.Worker.{is_pending, is_processing}

-- The numbers of the types, to test them for equality.
abbrev pub event_code : OutboxType → ℕ
event_code OutboxType.etims_invoice_submit = 0
event_code OutboxType.etims_credit_note_submit = 1
event_code OutboxType.other_event = 2

abbrev pub aggregate_code : AggregateType → ℕ
aggregate_code AggregateType.sale_invoice = 0
aggregate_code AggregateType.credit_note = 1
aggregate_code AggregateType.other_aggregate = 2

-- The unique index, on rows that are in flight.
abbrev pub is_in_flight : OutboxType → AggregateType → ℕ → ℕ → OutboxEvent → Bool
is_in_flight type about aggregate org e =
    e.org == org
    && aggregate_code e.aggregate_type == aggregate_code about
    && e.aggregate_id == aggregate
    && event_code e.type == event_code type
    && (is_pending e.status || is_processing e.status)

abbrev pub insert_event : OutboxType → AggregateType → ℕ → ℕ → Option ℕ → Db → Db
insert_event type about aggregate org limit db = record db {
  next_id = suc db.next_id;
  outbox =
      record {
        id = db.next_id;
        org = org;
        type = type;
        aggregate_type = about;
        aggregate_id = aggregate;
        status = OutboxStatus.pending;
        attempts = 0;
        max_attempts = or_default limit 5;
        next_attempt = db.now;
        updated_at = db.now;
      }
      ∷ db.outbox;
}

unfoldable pub enqueue : OutboxType → AggregateType → ℕ → ℕ → Option ℕ → Tx (Unit {0})
enqueue type about aggregate org limit = do
  n ← gets (λ db. count_where (is_in_flight type about aggregate org) db.outbox)
  throw_if (not (n == 0)) (conflict in_flight)
  modify (insert_event type about aggregate org limit)
