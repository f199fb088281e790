-- ===== src/Outbox/Drained.antt =====
-- app/services/outbox_worker.py: what process_pending_outbox_events leaves behind.
use pruet_web_dev.Base.{
  ℕ, ◌*◌, ◌<◌, ◌≡◌, refl, Bool, true, false, not, ◌&&◌, some, List, [], ◌∷◌, arith, All, any,
  update_where,
}
use pruet_web_dev.Base.Claims.{claims_everything}
use pruet_web_dev.Base.Progress.{batches_finish}
use pruet_web_dev.Models.{OutboxEvent, OutboxStatus, Pg}
use pruet_web_dev.Outbox.{
  is_unprocessed, older, in_rows, claim_rows, mark_processed, process_pending_outbox_events,
}

-- a pending row that no other session holds
abbrev pub is_waiting : (ℕ → Bool) → OutboxEvent → Bool
is_waiting locked r = is_unprocessed r.status && not (locked r.id)

abbrev pub Drained : (ℕ → Bool) → Pg → Type 0
Drained locked pg = any (is_waiting locked) pg.outbox ≡ false

none_waiting :
    (now : ℕ) (locked : ℕ → Bool) (claimed rows : List OutboxEvent)
    → All (λ r. is_waiting locked r ≡ true → in_rows claimed r.id ≡ true) rows
    → any (is_waiting locked) (
        update_where
          (λ r. in_rows claimed r.id)
          (λ r. record r { status = OutboxStatus.processed; processed_at = some now })
          rows)
      ≡ false
none_waiting now locked claimed [] h = refl
none_waiting now locked claimed (r ∷ rows) h =
    ground (arith, h.0, none_waiting now locked claimed rows h.1)

mark_drains :
    (now : ℕ) (locked : ℕ → Bool) (n : ℕ) (pg : Pg)
    → (mark_processed now locked n pg).0 < n
    → Drained locked (mark_processed now locked n pg).1
unfolding mark_processed claim_rows
mark_drains now locked n pg h =
    none_waiting now locked _ pg.outbox
      (claims_everything (λ r. r.id) (is_waiting locked) older n pg.outbox h)

-- The outbox loop, on a database that commits: if it has marked fewer rows than its batches could
-- have, then no row is pending any more, but those that another session holds locked.
pub process_pending_outbox_events-Drained :
    (now : ℕ) (locked : ℕ → Bool) (size n k : ℕ) (pg : Pg)
    → (process_pending_outbox_events (λ _. false) now locked size n pg).0 ≡ some k
    → k < n * size
    → Drained locked (process_pending_outbox_events (λ _. false) now locked size n pg).1
unfolding process_pending_outbox_events
process_pending_outbox_events-Drained now locked size n k pg h lt =
    batches_finish (Drained locked) (mark_processed now locked size) size
      (mark_drains now locked size) n k pg h lt
