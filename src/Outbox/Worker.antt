-- ===== src/Outbox/Worker.antt =====
-- app/services/outbox_worker.py: start_outbox_and_cleanup_worker, from its start to the event that
-- stops it.
use pruet_web_dev.Base.{
  ℕ, zero, suc, ◌+◌, ◌-◌, ◌*◌, ◌<◌, ◌≡◌, refl, subst, ◌∙◌, true, false, Option, some, arith,
  Bool-cases, inl, inr,
}
use pruet_web_dev.Models.{Pg}
use pruet_web_dev.Service.{World, Env}
use pruet_web_dev.Orders.Sweep.{sweep_one_batch, cleanup_expired_seat_holds}
use pruet_web_dev.Outbox.{
  mark_processed, purge, process_pending_outbox_events, purge_processed_outbox_events, Limits,
  Weather, Round, sweep_step, outbox_step, purge_step, run_worker_cycle, cut_cycle, seconds_per_day,
  start_outbox_and_cleanup_worker,
}
use pruet_web_dev.Integrity.Services.{batches_keep}
use pruet_web_dev.Integrity.History.{Reach, here, next, sweep, mark, drop}

then-Reach : {w v u : World} → Reach w v → Reach v u → Reach w u
then-Reach r here = r
then-Reach r (next s last) = next (then-Reach r s) last

module _ (env : Env) (l : Limits) (x : Weather) (w : World) where
  sweep_step-Reach : Reach w (sweep_step env l x w)
  unfolding cleanup_expired_seat_holds
  sweep_step-Reach =
      batches_keep (Reach w) x.sweep_fault (sweep_one_batch env x.locked l.sweep_batch_size)
        l.sweep_batch_size l.sweep_max_batches
        (λ v r. next r (sweep env x.locked l.sweep_batch_size)) w here

  outbox_step-Reach : Reach w (outbox_step env l x w)
  unfolding process_pending_outbox_events
  outbox_step-Reach =
      batches_keep (λ (pg : Pg). Reach w (record w { pg = pg })) x.outbox_fault
        (mark_processed env.now x.locked l.outbox_batch_size) l.outbox_batch_size
        l.outbox_max_batches (λ pg r. next r (mark env.now x.locked l.outbox_batch_size)) w.pg here

  purge_days :
      (days : ℕ)
      → Reach w (record w {
        pg = (purge_processed_outbox_events x.purge_fault env.now x.locked days 5000 10 w.pg).1;
      })
  unfolding purge_processed_outbox_events
  purge_days zero = here
  purge_days (suc d) =
      batches_keep (λ (pg : Pg). Reach w (record w { pg = pg })) x.purge_fault
        (purge (env.now - suc d * seconds_per_day) x.locked 5000) 5000 10
        (λ pg r. next r (drop (env.now - suc d * seconds_per_day) x.locked 5000)) w.pg here

  purge_step-Reach : Reach w (purge_step env l x w)
  purge_step-Reach = purge_days l.outbox_retention_days

cut_cycle-Reach :
    (n : ℕ) (env : Env) (l : Limits) (x : Weather) (w : World) → Reach w (cut_cycle n env l x w)
unfolding cut_cycle run_worker_cycle
cut_cycle-Reach zero env l x w = here
cut_cycle-Reach (suc zero) env l x w = sweep_step-Reach env l x w
cut_cycle-Reach (suc (suc zero)) env l x w =
    then-Reach (sweep_step-Reach env l x w) (outbox_step-Reach env l x (sweep_step env l x w))
cut_cycle-Reach (suc (suc (suc n))) env l x w =
    then-Reach
      (then-Reach (sweep_step-Reach env l x w) (outbox_step-Reach env l x (sweep_step env l x w)))
      (purge_step-Reach env l x (outbox_step env l x (sweep_step env l x w)))

-- what a worker that has ended leaves behind
abbrev pub EndsAfter : World → Option World → Type 0
EndsAfter w r = (v : World) × (r ≡ some v) × Reach w v

module _ (l : Limits) (rounds : ℕ → Round) where
  abbrev after_round : ℕ → World → World
  after_round n w = cut_cycle (rounds n).jobs (rounds n).env l (rounds n).weather w

  told :
      (fuel n : ℕ) (w : World)
      → (rounds n).is_set ≡ true
      → start_outbox_and_cleanup_worker (suc fuel) l rounds n w ≡ some w
  unfolding start_outbox_and_cleanup_worker
  told fuel n w e = rw e refl

  untold :
      (fuel n : ℕ) (w : World)
      → (rounds n).is_set ≡ false
      → start_outbox_and_cleanup_worker (suc fuel) l rounds n w
        ≡ start_outbox_and_cleanup_worker fuel l rounds (suc n) (after_round n w)
  unfolding start_outbox_and_cleanup_worker
  untold fuel n w e = rw e refl

  first_round : (n : ℕ) → n + 0 ≡ n
  first_round n = omega arith

  later_round : (n k : ℕ) → n + suc k ≡ suc n + k
  later_round n k = omega arith

  -- the loop ends at the stop event, if the fuel lasts to its round; the state that it leaves is one that
  -- transactions reach from its first
  pub start_outbox_and_cleanup_worker-EndsAfter :
      (k fuel n : ℕ) (w : World)
      → (rounds (n + k)).is_set ≡ true
      → k < fuel
      → EndsAfter w (start_outbox_and_cleanup_worker fuel l rounds n w)
  start_outbox_and_cleanup_worker-EndsAfter k zero n w h lt = absurd (omega arith)
  start_outbox_and_cleanup_worker-EndsAfter zero (suc fuel) n w h lt =
      let at_once : (rounds n).is_set ≡ true =
        subst (λ m. (rounds m).is_set ≡ true) (first_round n) h in
      (w, told fuel n w at_once, here)
  start_outbox_and_cleanup_worker-EndsAfter (suc k) (suc fuel) n w h lt =
      let (v, ends, r) =
        start_outbox_and_cleanup_worker-EndsAfter k fuel (suc n) (after_round n w)
          (subst (λ m. (rounds m).is_set ≡ true) (later_round n k) h) (omega arith) in
      elim (Bool-cases (rounds n).is_set) [
        | inl e ↦ (w, told fuel n w e, here)
        | inr e ↦ (
          v,
          untold fuel n w e ∙ ends,
          then-Reach (cut_cycle-Reach (rounds n).jobs (rounds n).env l (rounds n).weather w) r,
        )
      ]
