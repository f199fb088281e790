-- ===== src/Orders/Sweep.antt =====
-- `_sweep_one_batch` and `cleanup_expired_seat_holds`: overdue holds are expired in batches.
use pruet_web_dev.Base.{
  ℕ, suc, ◌+◌, Bool, true, false, not, ◌&&◌, ◌||◌, Option, none, some, List, [], ◌∷◌, ◌++◌, ◌==◌,
  ltb, length, filter, any, take, update_where, if◌then◌else◌,
}
use pruet_web_dev.Base.Sorting.{sort}
use pruet_web_dev.Base.Loops.{batches}
use pruet_web_dev.Text.{str_eq, text}
use pruet_web_dev.Models.{
  Order, OrderStatus, Ticket, TicketStatus, OutboxEvent, OutboxStatus, seat_hold_expired, Pg,
  is_pending, is_held,
}
use pruet_web_dev.Service.{World, Env}
use pruet_web_dev.Seats.{SeatGroup, release_counted_seats}

-- `expires_at < now`, which NULL does not satisfy
abbrev pub overdue : ℕ → Order → Bool
overdue now o = elim o.expires_at [ none ↦ false | some t ↦ ltb t now ]

abbrev pub expires_first : Order → Order → Bool
expires_first o p = elim o.expires_at [
  | none ↦ false
  | some s ↦ elim p.expires_at [ none ↦ true | some t ↦ ltb s t || (s == t) && ltb o.id p.id ]
]

-- the claimed rows: overdue, not locked by another session, oldest first, at most a batch
unfoldable pub claim_overdue : ℕ → (ℕ → Bool) → ℕ → List Order → List Order
claim_overdue now locked batch_size orders = take batch_size (
    sort expires_first
      (filter (λ o. is_pending o.status && (overdue now o && not (locked o.id))) orders))

abbrev pub claims : List Order → ℕ → Bool
claims claimed order_id = any (λ o. o.id == order_id) claimed

-- one row of a `GROUP BY event_id, seat_zone`
unfoldable pub add_seat : Ticket → List SeatGroup → List SeatGroup
add_seat t [] = record { event_id = t.event_id; seat_zone = t.seat_zone; seats = 1 } ∷ []
add_seat t (g ∷ gs) =
    if str_eq g.event_id t.event_id && str_eq g.seat_zone t.seat_zone
    then record g { seats = suc g.seats } ∷ gs
    else g ∷ add_seat t gs

-- SELECT event_id, seat_zone, count(*) of the held tickets of some orders, grouped
unfoldable pub count_held : (ℕ → Bool) → List Ticket → List SeatGroup
unfolding add_seat
count_held of_order [] = []
count_held of_order (t ∷ ts) =
    let rest = count_held of_order ts in
    if of_order t.order_id && is_held t.status then add_seat t rest else rest

-- UPDATE tickets SET status = 'cancelled' of the held tickets of some orders
unfoldable pub cancel_held : (ℕ → Bool) → List Ticket → List Ticket
cancel_held of_order =
    update_where (λ t. of_order t.order_id && is_held t.status)
      (λ t. record t { status = TicketStatus.cancelled })

unfoldable pub expire_orders : (ℕ → Bool) → List Order → List Order
expire_orders of_order =
    update_where (λ o. of_order o.id) (λ o. record o { status = OrderStatus.expired })

-- the SEAT_HOLD_EXPIRED rows of a batch, numbered from `next_id`
unfoldable pub expiry_events : ℕ → ℕ → List Order → List OutboxEvent
expiry_events now next_id [] = []
expiry_events now next_id (o ∷ os) =
    record {
      id = next_id;
      event = seat_hold_expired o.id o.order_number (text "cron_cleanup");
      aggregate_id = o.id;
      status = OutboxStatus.pending;
      created_at = now;
      processed_at = none;
    }
    ∷ expiry_events now (suc next_id) os

-- the three writes of the transaction
unfoldable pub expire_claimed : ℕ → List Order → Pg → Pg
expire_claimed now claimed pg = record pg {
  orders = expire_orders (claims claimed) pg.orders;
  tickets = cancel_held (claims claimed) pg.tickets;
  outbox = pg.outbox ++ expiry_events now pg.next_id claimed;
  next_id = pg.next_id + length claimed;
}

-- one batch; PostgreSQL is committed before MongoDB is touched
unfoldable pub sweep_one_batch : Env → (ℕ → Bool) → ℕ → World → ℕ × World
sweep_one_batch env locked batch_size w =
    elim (claim_overdue env.now locked batch_size w.pg.orders) [
      | [] ↦ (0, w)
      | o ∷ os ↦ (
        length (o ∷ os),
        record {
          pg = expire_claimed env.now (o ∷ os) w.pg;
          mongo = release_counted_seats env (count_held (claims (o ∷ os)) w.pg.tickets) w.mongo;
        },
      )
    ]

-- the loop over at most `max_batches` batches
unfoldable pub cleanup_expired_seat_holds :
    Env → (ℕ → Bool) → (ℕ → Bool) → ℕ → ℕ → World → Option ℕ × World
cleanup_expired_seat_holds env fault locked batch_size max_batches =
    batches fault (sweep_one_batch env locked batch_size) batch_size max_batches
