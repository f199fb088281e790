-- ===== src/Outbox/Cycle.antt =====
-- app/services/outbox_worker.py: what a cycle of the worker leaves, run_worker_cycle.
use pruet_web_dev.Base.{ℕ, zero, suc, ◌-◌, ◌*◌, ◌<◌, ◌≡◌, Bool, false, not, some, any}
use pruet_web_dev.Base.SortingLaws.{any-filter}
use pruet_web_dev.Models.{Order, Pg}
use pruet_web_dev.Service.{World, Env}
use pruet_web_dev.Orders.Sweep.{cleanup_expired_seat_holds}
use pruet_web_dev.Orders.Leftover.{NothingLeft, is_left, cleanup-NothingLeft}
use pruet_web_dev.Outbox.{
  mark_processed, purge, in_rows, process_pending_outbox_events, purge_processed_outbox_events,
  Limits, Weather, run_worker_cycle, seconds_per_day,
}
use pruet_web_dev.Outbox.Drained.{Drained, is_waiting, process_pending_outbox_events-Drained}
use pruet_web_dev.Integrity.Services.{batches_keep}

-- no pending order is overdue and no outbox row is pending, but those that other sessions hold locked
abbrev pub IsCleared : ℕ → (ℕ → Bool) → World → Type 0
IsCleared now locked w = NothingLeft now locked w × Drained locked w.pg

-- the database commits what the sweep and the outbox loop do, and refuses what it will of the purge
abbrev pub commits : (ℕ → Bool) → (ℕ → Bool) → Weather
commits purge_fault locked = record {
  sweep_fault = λ _. false;
  outbox_fault = λ _. false;
  purge_fault = purge_fault;
  locked = locked;
}

mark_keeps_orders :
    (q : Order → Bool) (fault : ℕ → Bool) (now : ℕ) (locked : ℕ → Bool) (size n : ℕ) (pg : Pg)
    → any q pg.orders ≡ false
    → any q (process_pending_outbox_events fault now locked size n pg).1.orders ≡ false
unfolding process_pending_outbox_events mark_processed
mark_keeps_orders q fault now locked size n pg h =
    batches_keep (λ (s : Pg). any q s.orders ≡ false) fault (mark_processed now locked size) size n
      (λ s k. k) pg h

purge_keeps_orders :
    (q : Order → Bool) (fault : ℕ → Bool) (now : ℕ) (locked : ℕ → Bool) (days size n : ℕ) (pg : Pg)
    → any q pg.orders ≡ false
    → any q (purge_processed_outbox_events fault now locked days size n pg).1.orders ≡ false
unfolding purge_processed_outbox_events purge
purge_keeps_orders q fault now locked zero size n pg h = h
purge_keeps_orders q fault now locked (suc d) size n pg h =
    batches_keep (λ (s : Pg). any q s.orders ≡ false) fault
      (purge (now - suc d * seconds_per_day) locked size) size n (λ s k. k) pg h

purge-Drained :
    (before : ℕ) (locked : ℕ → Bool) (size : ℕ) (pg : Pg)
    → Drained locked pg
    → Drained locked (purge before locked size pg).1
unfolding purge
purge-Drained before locked size pg h =
    any-filter (is_waiting locked) (λ r. not (in_rows _ r.id)) pg.outbox h

purge_processed-Drained :
    (fault : ℕ → Bool) (now : ℕ) (locked : ℕ → Bool) (days size n : ℕ) (pg : Pg)
    → Drained locked pg
    → Drained locked (purge_processed_outbox_events fault now locked days size n pg).1
unfolding purge_processed_outbox_events
purge_processed-Drained fault now locked zero size n pg h = h
purge_processed-Drained fault now locked (suc d) size n pg h =
    batches_keep (Drained locked) fault (purge (now - suc d * seconds_per_day) locked size) size n
      (purge-Drained (now - suc d * seconds_per_day) locked size) pg h

-- A cycle of the worker whose sweep and whose outbox loop commit, and handle fewer rows than their
-- batches could, leaves no overdue pending order and no pending outbox row, also none that its sweep
-- has written, but those that another session holds locked, wherever the purge fails.
pub run_worker_cycle-IsCleared :
    (env : Env) (l : Limits) (purge_fault locked : ℕ → Bool) (expired marked : ℕ) (w : World)
    → (cleanup_expired_seat_holds env
        (λ _. false)
        locked
        l.sweep_batch_size
        l.sweep_max_batches
        w).0
      ≡ some expired
    → expired < l.sweep_max_batches * l.sweep_batch_size
    → (process_pending_outbox_events
        (λ _. false)
        env.now
        locked
        l.outbox_batch_size
        l.outbox_max_batches
        (cleanup_expired_seat_holds env
          (λ _. false)
          locked
          l.sweep_batch_size
          l.sweep_max_batches
          w).1.pg).0
      ≡ some marked
    → marked < l.outbox_max_batches * l.outbox_batch_size
    → IsCleared env.now locked (run_worker_cycle env l (commits purge_fault locked) w)
unfolding run_worker_cycle
run_worker_cycle-IsCleared env l purge_fault locked expired marked w swept few drained short =
    let size : ℕ = l.outbox_batch_size in
    let n : ℕ = l.outbox_max_batches in
    let v : World =
      (cleanup_expired_seat_holds env (λ _. false) locked l.sweep_batch_size l.sweep_max_batches
        w).1 in
    let pg : Pg = (process_pending_outbox_events (λ _. false) env.now locked size n v.pg).1 in
    let days : ℕ = l.outbox_retention_days in
    (
      purge_keeps_orders (is_left env.now locked) purge_fault env.now locked days 5000 10 pg (
          mark_keeps_orders (is_left env.now locked) (λ _. false) env.now locked size n v.pg
            (cleanup-NothingLeft env locked l.sweep_batch_size l.sweep_max_batches expired w swept
              few)),
      purge_processed-Drained purge_fault env.now locked days 5000 10 pg
          (process_pending_outbox_events-Drained env.now locked size n marked v.pg drained short),
    )
