-- ===== src/Integrity/History.antt =====
-- The transactions of app/services in any order: the row locks and the unique indexes of PostgreSQL
-- make each of them atomic, and everything else may happen between two of them.
use pruet_web_dev.Base.{ℕ, ◌≡◌, subst, sym, ap, ◌∙◌, Bool, Option, List, inl, inr}
use pruet_web_dev.Text.{Str}
use pruet_web_dev.Models.{Order, OutboxEvent, Pg, empty_pg}
use pruet_web_dev.Mongo.{Mongo}
use pruet_web_dev.Service.{World, Env, Result}
use pruet_web_dev.Seats.{Reserved}
use pruet_web_dev.Orders.{OrderCreate}
use pruet_web_dev.Orders.Pricing.{ValidatedItem, lock_order}
use pruet_web_dev.Orders.Create.{place_order, read_events, reserve_seats, create_order_dual_db}
use pruet_web_dev.Orders.Phases.{
  Phase, unread, invalid, unreserved, placed, phase_of, checked, pg-read_events, pg-reserve_seats,
}
use pruet_web_dev.Orders.Sweep.{sweep_one_batch}
use pruet_web_dev.Payments.{PaymentCreate, process_order_payment}
use pruet_web_dev.Outbox.{mark_processed, purge}
use pruet_web_dev.Integrity.Invariant.{IsSound}
use pruet_web_dev.Integrity.Services.{
  place_order-IsSound, process_order_payment-IsSound, sweep_one_batch-IsSound,
}

-- One step of the running system, by any replica: the transaction of a request or of a job. `mongo`
-- is whatever happens to the documents in between, and the steps before it in the same request are
-- part of that.
pub data Step (w : World) : World → Type 0 where
  place :
      (env : Env) (order_in : OrderCreate) (key : Option Str) (items : List ValidatedItem)
      (reserved : List Reserved)
      → Step w (place_order env order_in key items reserved w).1
  pay :
      (env : Env) (k : ℕ) (payment_in : PaymentCreate)
      → Step w (process_order_payment env k payment_in w).1
  sweep : (env : Env) (locked : ℕ → Bool) (n : ℕ) → Step w (sweep_one_batch env locked n w).1
  mark :
      (now : ℕ) (locked : ℕ → Bool) (n : ℕ)
      → Step w (record w { pg = (mark_processed now locked n w.pg).1 })
  drop :
      (before : ℕ) (locked : ℕ → Bool) (n : ℕ)
      → Step w (record w { pg = (purge before locked n w.pg).1 })
  documents : (m : Mongo) → Step w (record w { mongo = m })

pub data Reach (w : World) : World → Type 0 where
  here : Reach w w
  next : {v u : World} → Reach w v → Step v u → Reach w u

-- the outbox is no part of the invariant
outbox-IsSound :
    (pg : Pg) (rows : List OutboxEvent) → IsSound pg → IsSound (record pg { outbox = rows })
outbox-IsSound pg rows s = record {
  orders_fit = s.orders_fit;
  no_double_booking = s.no_double_booking;
  no_double_charge = s.no_double_charge;
  distinct_ids = s.distinct_ids;
  orders_below = s.orders_below;
  tickets_below = s.tickets_below;
  payments_below = s.payments_below;
}

Step-IsSound : {w v : World} → Step w v → IsSound w.pg → IsSound v.pg
Step-IsSound {w} (place env order_in key items reserved) s =
    place_order-IsSound env order_in key items reserved w s
Step-IsSound {w} (pay env k payment_in) s = process_order_payment-IsSound env k payment_in w s
Step-IsSound {w} (sweep env locked n) s = sweep_one_batch-IsSound env locked n w s
Step-IsSound {w} (mark now locked n) s = unfold mark_processed in outbox-IsSound w.pg _ s
Step-IsSound {w} (drop before locked n) s = unfold purge in outbox-IsSound w.pg _ s
Step-IsSound (documents m) s = s

-- Whatever the order of the transactions, and whatever fails in between, a sound database stays
-- sound: every order's total is as near to the sum of its tickets' prices as the rounding to cents
-- allows (half a cent for each ticket and for the total), its tickets and payments fit its status, no
-- seat is active twice and no order is charged twice.
pub Reach-IsSound : {w v : World} → Reach w v → IsSound w.pg → IsSound v.pg
Reach-IsSound here s = s
Reach-IsSound (next r st) s = Step-IsSound st (Reach-IsSound r s)

pub empty_pg-IsSound : IsSound empty_pg
empty_pg-IsSound = record {
  orders_fit = tt;
  no_double_booking = tt;
  no_double_charge = tt;
  distinct_ids = tt;
  orders_below = tt;
  tickets_below = tt;
  payments_below = tt;
}

-- `create_order_dual_db` as a whole keeps the invariant: whether it is refused by its key, refused
-- before or by the reservation, refused by the transaction, or accepted, under any fault.
pub create_order_dual_db-IsSound :
    (env : Env) (order_in : OrderCreate) (key : Option Str) (w : World)
    → IsSound w.pg
    → IsSound (create_order_dual_db env order_in key w).1.pg
create_order_dual_db-IsSound env order_in key w s = elim (checked env order_in key w) [
  | inl same ↦ rw same s
  | inr handed ↦ rw handed (by_phase (phase_of env order_in key w))
]
  where
    read_keeps :
        {r : Result (Unit {0})} {v : World}
        → read_events env order_in.items w ≡ (r, v)
        → IsSound v.pg
    read_keeps e =
        subst IsSound
          (sym (pg-read_events env order_in key w)
            ∙ ap (λ (x : Result (Unit {0}) × World). x.1.pg) e)
          s

    reserve_keeps :
        {r : Result (List Reserved)} {v' : World} (v : World) (items : List ValidatedItem)
        → reserve_seats env items v ≡ (r, v')
        → IsSound v.pg
        → IsSound v'.pg
    reserve_keeps v items e = subst IsSound (
        sym (pg-reserve_seats env order_in key v items)
        ∙ ap (λ (x : Result (List Reserved) × World). x.1.pg) e)

    by_phase : {final : Result Order × World} → Phase env order_in key w final → IsSound final.1.pg
    by_phase (unread e v hr hf) = rw hf (read_keeps hr)
    by_phase (invalid e v hr hv hf) = rw hf (read_keeps hr)
    by_phase (unreserved e v v' items hr hv hs hf) =
        rw hf (reserve_keeps v (lock_order items) hs (read_keeps hr))
    by_phase (placed v v' items reserved hr hv hs hf) = rw hf (
        place_order-IsSound env order_in key (lock_order items) reserved v'
          (reserve_keeps v (lock_order items) hs (read_keeps hr)))
