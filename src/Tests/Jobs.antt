-- ===== src/Tests/Jobs.antt =====
-- The background jobs on a few rows.
use pruet_web_dev.Base.{◌≡◌, refl, true, false, none, some, [], ◌∷◌, arith, inl, inr}
use pruet_web_dev.Base.Loops.{batches}
use pruet_web_dev.Base.Sorting.{insert_sorted, sort}
use pruet_web_dev.Text.{text}
use pruet_web_dev.Models.{OutboxEvent, OutboxStatus, seat_hold_expired, Pg, empty_pg}
use pruet_web_dev.Base.Membership.{In}
use pruet_web_dev.Outbox.{
  claim_rows, mark_processed, process_pending_outbox_events, purge_processed_outbox_events,
  run_worker_cycle, default_limits,
}
use pruet_web_dev.Outbox.Retention.{purge_processed_outbox_events-In}
use pruet_web_dev.Orders.Sweep.{
  cleanup_expired_seat_holds, sweep_one_batch, claim_overdue, expire_claimed, expiry_events,
}
use pruet_web_dev.Outbox.Cycle.{IsCleared, commits, run_worker_cycle-IsCleared}
use pruet_web_dev.Tests.Data.{calm, held_seat}
use pruet_web_dev.Outbox.Drained.{Drained, process_pending_outbox_events-Drained}

abbrev waiting_row : OutboxEvent
waiting_row = record {
  id = 5;
  event = seat_hold_expired 2 (text "ORD") (text "timeout");
  aggregate_id = 2;
  status = OutboxStatus.pending;
  created_at = 100;
  processed_at = none;
}

abbrev two_rows : Pg
two_rows = record empty_pg {
  outbox = waiting_row ∷ record waiting_row { id = 4 } ∷ [];
  next_id = 6;
}

both_marked :
    (process_pending_outbox_events (λ _. false) 200 (λ _. false) 1000 20 two_rows).0 ≡ some 2
unfolding process_pending_outbox_events batches mark_processed claim_rows insert_sorted sort
both_marked = refl

process_pending_outbox_events-Drained_example :
    Drained
      (λ _. false)
      (process_pending_outbox_events (λ _. false) 200 (λ _. false) 1000 20 two_rows).1
process_pending_outbox_events-Drained_example =
    process_pending_outbox_events-Drained 200 (λ _. false) 1000 20 2 two_rows both_marked
      (omega arith)

-- one row to purge and one to keep
abbrev old_rows : Pg
old_rows = record empty_pg {
  outbox =
      record waiting_row { id = 4; status = OutboxStatus.processed; processed_at = some 200 }
      ∷ waiting_row
      ∷ [];
  next_id = 6;
}

purge_processed_outbox_events-In_example :
    In waiting_row
      (purge_processed_outbox_events (λ _. false) 900000 (λ _. false) 7 5000 10 old_rows).1.outbox
purge_processed_outbox_events-In_example =
    purge_processed_outbox_events-In (λ _. false) 900000 (λ _. false) 7 5000 10 old_rows waiting_row
      (refl, (refl, tt)) (inr (inl refl)) refl

-- the hold of one seat has run out, and the purge fails
one_expired :
    (cleanup_expired_seat_holds (calm 9000) (λ _. false) (λ _. false) 500 20 held_seat).0 ≡ some 1
unfolding cleanup_expired_seat_holds batches sweep_one_batch claim_overdue insert_sorted sort
one_expired = refl

its_row_marked :
    (process_pending_outbox_events
      (λ _. false)
      9000
      (λ _. false)
      1000
      20
      (cleanup_expired_seat_holds (calm 9000) (λ _. false) (λ _. false) 500 20 held_seat).1.pg).0
    ≡ some 1
unfolding cleanup_expired_seat_holds batches sweep_one_batch claim_overdue insert_sorted sort
    process_pending_outbox_events mark_processed claim_rows expire_claimed expiry_events
its_row_marked = refl

run_worker_cycle-IsCleared_example :
    IsCleared 9000
      (λ _. false)
      (run_worker_cycle (calm 9000) default_limits (commits (λ _. true) (λ _. false)) held_seat)
run_worker_cycle-IsCleared_example =
    run_worker_cycle-IsCleared (calm 9000) default_limits (λ _. true) (λ _. false) 1 1 held_seat
      one_expired (omega arith) its_row_marked (omega arith)
