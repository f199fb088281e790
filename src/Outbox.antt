-- ===== src/Outbox.antt =====
-- app/services/outbox_worker.py: outbox rows are marked processed in batches, old ones are purged,
-- and one worker cycle runs the three jobs.
pub mod Drained
pub mod Retention
pub mod Worker
pub mod Cycle
use pruet_web_dev.Base.{
  ℕ, zero, suc, ◌-◌, ◌*◌, Bool, true, false, not, ◌&&◌, ◌||◌, Option, none, some, List, ◌==◌, ltb,
  length, filter, any, take, update_where, if◌then◌else◌,
}
use pruet_web_dev.Base.Sorting.{sort}
use pruet_web_dev.Base.Loops.{batches}
use pruet_web_dev.Models.{OutboxEvent, OutboxStatus, Pg}
use pruet_web_dev.Service.{World, Env}
use pruet_web_dev.Orders.Sweep.{cleanup_expired_seat_holds}

abbrev pub is_unprocessed : OutboxStatus → Bool
is_unprocessed OutboxStatus.pending = true
is_unprocessed _ = false

abbrev pub is_processed : OutboxStatus → Bool
is_processed OutboxStatus.processed = true
is_processed _ = false

abbrev pub older : OutboxEvent → OutboxEvent → Bool
older r s = ltb r.created_at s.created_at || (r.created_at == s.created_at) && ltb r.id s.id

abbrev pub in_rows : List OutboxEvent → ℕ → Bool
in_rows rows k = any (λ r. r.id == k) rows

-- the rows that the inner SELECT claims: oldest first, at most a batch, none that is locked
unfoldable pub claim_rows :
    (OutboxEvent → Bool) → (ℕ → Bool) → ℕ → List OutboxEvent → List OutboxEvent
claim_rows wanted locked batch rows =
    take batch (sort older (filter (λ r. wanted r && not (locked r.id)) rows))

-- `_MARK_PROCESSED_SQL` and its row count
unfoldable pub mark_processed : ℕ → (ℕ → Bool) → ℕ → Pg → ℕ × Pg
mark_processed now locked batch pg =
    let claimed = claim_rows (λ r. is_unprocessed r.status) locked batch pg.outbox in
    (
      length claimed,
      record pg {
        outbox =
            update_where (λ r. in_rows claimed r.id)
              (λ r. record r { status = OutboxStatus.processed; processed_at = some now })
              pg.outbox;
      },
    )

-- `_PURGE_SQL` and its row count; `before` is now() - days
unfoldable pub purge : ℕ → (ℕ → Bool) → ℕ → Pg → ℕ × Pg
purge before locked batch pg =
    let claimed =
      claim_rows (λ r. is_processed r.status && ltb r.created_at before) locked batch pg.outbox in
    (length claimed, record pg { outbox = filter (λ r. not (in_rows claimed r.id)) pg.outbox })

unfoldable pub process_pending_outbox_events :
    (ℕ → Bool) → ℕ → (ℕ → Bool) → ℕ → ℕ → Pg → Option ℕ × Pg
process_pending_outbox_events fault now locked batch_size max_batches =
    batches fault (mark_processed now locked batch_size) batch_size max_batches

abbrev pub seconds_per_day : ℕ
seconds_per_day = 86400

-- zero days keep everything
unfoldable pub purge_processed_outbox_events :
    (ℕ → Bool) → ℕ → (ℕ → Bool) → ℕ → ℕ → ℕ → Pg → Option ℕ × Pg
purge_processed_outbox_events fault now locked zero batch_size max_batches pg = (some 0, pg)
purge_processed_outbox_events fault now locked (suc d) batch_size max_batches pg =
    batches fault (purge (now - suc d * seconds_per_day) locked batch_size) batch_size max_batches
      pg

-- the limits of one cycle, from app/core/config.py
pub record Limits : Type 0 where
  pub sweep_batch_size : ℕ
  pub sweep_max_batches : ℕ
  pub outbox_batch_size : ℕ
  pub outbox_max_batches : ℕ
  pub outbox_retention_days : ℕ

abbrev pub default_limits : Limits
default_limits = record {
  sweep_batch_size = 500;
  sweep_max_batches = 20;
  outbox_batch_size = 1000;
  outbox_max_batches = 20;
  outbox_retention_days = 7;
}

-- what the database refuses during each of the three steps, and which rows others hold
pub record Weather : Type 0 where
  pub sweep_fault : ℕ → Bool
  pub outbox_fault : ℕ → Bool
  pub purge_fault : ℕ → Bool
  pub locked : ℕ → Bool

abbrev pub on_pg : Option ℕ × Pg → World → World
on_pg r w = record w { pg = r.1 }

-- the three jobs, each behind its own `try`: one that fails leaves what it had committed
abbrev pub sweep_step : Env → Limits → Weather → World → World
sweep_step env l x w =
    (cleanup_expired_seat_holds env x.sweep_fault x.locked l.sweep_batch_size l.sweep_max_batches
      w).1

abbrev pub outbox_step : Env → Limits → Weather → World → World
outbox_step env l x w =
    on_pg
      (process_pending_outbox_events x.outbox_fault env.now x.locked l.outbox_batch_size
        l.outbox_max_batches w.pg)
      w

abbrev pub purge_step : Env → Limits → Weather → World → World
purge_step env l x w =
    on_pg
      (purge_processed_outbox_events x.purge_fault env.now x.locked l.outbox_retention_days 5000 10
        w.pg)
      w

-- the jobs one after the other, whatever became of the one before
unfoldable pub run_worker_cycle : Env → Limits → Weather → World → World
run_worker_cycle env l x w = purge_step env l x (outbox_step env l x (sweep_step env l x w))

-- the cycle as far as its thread comes: it raises when it gets no session, or when the rollback of a
-- job that failed raises
unfoldable pub cut_cycle : ℕ → Env → Limits → Weather → World → World
unfolding run_worker_cycle
cut_cycle zero env l x w = w
cut_cycle (suc zero) env l x w = sweep_step env l x w
cut_cycle (suc (suc zero)) env l x w = outbox_step env l x (sweep_step env l x w)
cut_cycle (suc (suc (suc n))) env l x w = run_worker_cycle env l x w

-- a round of the worker: whether the event is set when it looks, when the round runs, and how many of
-- the jobs run before its thread raises, if it does
pub record Round : Type 0 where
  pub is_set : Bool
  pub jobs : ℕ
  pub env : Env
  pub weather : Weather

-- `start_outbox_and_cleanup_worker`: a round that raises is logged, and the wait behind it ends by the
-- event or the timeout alike; `none` when the fuel is used up
unfoldable pub start_outbox_and_cleanup_worker : ℕ → Limits → (ℕ → Round) → ℕ → World → Option World
unfolding cut_cycle
start_outbox_and_cleanup_worker zero l rounds n w = none
start_outbox_and_cleanup_worker (suc fuel) l rounds n w =
    let x : Round = rounds n in
    let w' : World = cut_cycle x.jobs x.env l x.weather w in
    let rest = start_outbox_and_cleanup_worker fuel l rounds (suc n) w' in
    if x.is_set then some w else rest
