-- ===== src/Consistency.antt =====
-- scripts/verify_consistency.py: the audit of both databases, and the repair of the seat counters.
use pruet_web_dev.Base.{
  ℕ, zero, suc, ◌+◌, Bool, true, false, not, ◌&&◌, ◌||◌, Option, none, some, List, [], ◌∷◌, ◌++◌,
  map, ◌==◌, ltb, length, count, filter, find?, any, if◌then◌else◌,
}
use pruet_web_dev.Base.Int.{ℤ, pos, ltb_ℤ}
use pruet_web_dev.Text.{Str, str_eq}
use pruet_web_dev.Models.{
  Order, OrderStatus, Ticket, TicketStatus, Payment, Pg, is_confirmed, is_active, is_completed,
}
use pruet_web_dev.Models.Guards.{same_seat}
use pruet_web_dev.Mongo.{Zone, EventDoc, Mongo, modified, no_match, write_error, update_event}
use pruet_web_dev.Service.{Env}
use pruet_web_dev.Seats.{SeatGroup, named}
use pruet_web_dev.Orders.Sweep.{add_seat}

-- one row for each seat that is active more than once: of its tickets, the last but one
unfoldable pub duplicate_active_seats : List Ticket → List Ticket
duplicate_active_seats [] = []
duplicate_active_seats (t ∷ ts) =
    let rest = duplicate_active_seats ts in if count (same_seat t) ts == 1 then t ∷ rest else rest

abbrev pub completed_for : ℕ → Payment → Bool
completed_for order_id p = is_completed p.status && (p.order_id == order_id)

-- one row for each order with several completed payments: of these, the last but one
unfoldable pub double_charged_orders : List Payment → List Payment
double_charged_orders [] = []
double_charged_orders (p ∷ ps) =
    let rest = double_charged_orders ps in
    if is_completed p.status && (count (completed_for p.order_id) ps == 1) then p ∷ rest else rest

unfoldable pub confirmed_without_payment : Pg → List Order
confirmed_without_payment pg =
    filter (λ o. is_confirmed o.status && not (any (completed_for o.id) pg.payments)) pg.orders

-- the sum of the completed payments of an order
abbrev pub paid_sum : ℕ → List Payment → ℕ
paid_sum order_id [] = 0
paid_sum order_id (p ∷ ps) =
    (if completed_for order_id p then p.amount else 0) + paid_sum order_id ps

unfoldable pub payment_amount_mismatch : Pg → List Order
payment_amount_mismatch pg =
    filter
      (λ o.
        any (completed_for o.id) pg.payments && not (o.total_amount == paid_sum o.id pg.payments))
      pg.orders

-- the sum of the ticket prices of an order
abbrev pub price_sum : ℕ → List Ticket → ℕ
price_sum order_id [] = 0
price_sum order_id (t ∷ ts) =
    (if t.order_id == order_id then t.price else 0) + price_sum order_id ts

unfoldable pub order_total_mismatch : Pg → List Order
order_total_mismatch pg = filter (λ o. not (o.total_amount == price_sum o.id pg.tickets)) pg.orders

abbrev pub is_dead : OrderStatus → Bool
is_dead OrderStatus.expired = true
is_dead OrderStatus.cancelled = true
is_dead _ = false

unfoldable pub dead_order_with_active_tickets : Pg → List Order
dead_order_with_active_tickets pg =
    filter
      (λ o. is_dead o.status && any (λ t. (t.order_id == o.id) && is_active t.status) pg.tickets)
      pg.orders

-- pending needs held, confirmed needs valid
abbrev pub contradicts : OrderStatus → TicketStatus → Bool
contradicts OrderStatus.pending TicketStatus.valid = true
contradicts OrderStatus.confirmed TicketStatus.held = true
contradicts _ _ = false

unfoldable pub ticket_state_mismatch : Pg → List Order
ticket_state_mismatch pg =
    filter (λ o. any (λ t. (t.order_id == o.id) && contradicts o.status t.status) pg.tickets)
      pg.orders

-- `ACTIVE_TICKETS_SQL`
unfoldable pub active_seats : List Ticket → List SeatGroup
unfolding add_seat
active_seats [] = []
active_seats (t ∷ ts) =
    let rest = active_seats ts in if is_active t.status then add_seat t rest else rest

-- `active.get(key, 0)`
unfoldable pub active_count : Str → Str → List SeatGroup → ℕ
active_count event_id name [] = 0
active_count event_id name (g ∷ gs) =
    if str_eq g.event_id event_id && str_eq g.seat_zone name
    then g.seats
    else active_count event_id name gs

-- an entry of `zones`
pub record ZoneRow : Type 0 where
  pub event_id : Str
  pub name : Str
  pub capacity : ℕ
  pub booked : ℤ
  pub oid : ℕ

-- `zones[(str(doc["_id"]), zone["name"])] = ...`
unfoldable pub put_row : ZoneRow → List ZoneRow → List ZoneRow
put_row r [] = r ∷ []
put_row r (s ∷ ss) =
    if str_eq s.event_id r.event_id && str_eq s.name r.name then r ∷ ss else s ∷ put_row r ss

unfoldable pub put_zones : Env → ℕ → List Zone → List ZoneRow → List ZoneRow
unfolding put_row
put_zones env oid [] rows = rows
put_zones env oid (z ∷ zs) rows = put_zones env oid zs (
    put_row
      (record {
        event_id = env.hex oid;
        name = z.name;
        capacity = z.capacity;
        booked = z.booked_count;
        oid = oid;
      })
      rows)

unfoldable pub zone_rows : Env → List EventDoc → List ZoneRow → List ZoneRow
unfolding put_zones
zone_rows env [] rows = rows
zone_rows env (d ∷ ds) rows = zone_rows env ds (put_zones env d.id d.zones rows)

-- the six lists of `inventory_checks`
pub record Inventory : Type 0 where
  pub negative : List ZoneRow
  pub over_cap : List ZoneRow
  pub pg_over : List SeatGroup
  pub below : List ZoneRow
  pub above : List ZoneRow
  pub orphans : List SeatGroup

abbrev pub tickets_in : List SeatGroup → ZoneRow → ℤ
tickets_in active r = pos (active_count r.event_id r.name active)

abbrev pub row_of : SeatGroup → List ZoneRow → Option ZoneRow
row_of g rows = find? (λ r. str_eq r.event_id g.event_id && str_eq r.name g.seat_zone) rows

abbrev exceeds : SeatGroup → Option ZoneRow → Bool
exceeds g none = false
exceeds g (some r) = ltb r.capacity g.seats

abbrev is_missing : Option ZoneRow → Bool
is_missing none = true
is_missing (some r) = false

unfoldable pub inventory_checks : List SeatGroup → List ZoneRow → Inventory
unfolding active_count
inventory_checks active rows = record {
  negative = filter (λ r. ltb_ℤ r.booked (pos 0)) rows;
  over_cap = filter (λ r. ltb_ℤ (pos r.capacity) r.booked) rows;
  pg_over = filter (λ g. exceeds g (row_of g rows)) active;
  below = filter (λ r. ltb_ℤ r.booked (tickets_in active r)) rows;
  above = filter (λ r. ltb_ℤ (tickets_in active r) r.booked) rows;
  orphans = filter (λ g. is_missing (row_of g rows)) active;
}

-- an entry of `drift`: the counter that the repair writes
pub record Drift : Type 0 where
  pub oid : ℕ
  pub zone : Str
  pub expected : ℕ

abbrev pub drift_of : List SeatGroup → ZoneRow → Drift
drift_of active r = record {
  oid = r.oid;
  zone = r.name;
  expected = active_count r.event_id r.name active;
}

-- the values of all the checks, in the order of the report
pub record Report : Type 0 where
  pub pg_results : List ℕ
  pub inventory : Inventory
  pub drift : List Drift

unfoldable pub postgres_checks : Pg → List ℕ
unfolding duplicate_active_seats double_charged_orders confirmed_without_payment
    payment_amount_mismatch order_total_mismatch dead_order_with_active_tickets
    ticket_state_mismatch
postgres_checks pg =
    length (duplicate_active_seats pg.tickets)
    ∷ length (double_charged_orders pg.payments)
    ∷ length (confirmed_without_payment pg)
    ∷ length (payment_amount_mismatch pg)
    ∷ length (order_total_mismatch pg)
    ∷ length (dead_order_with_active_tickets pg)
    ∷ length (ticket_state_mismatch pg)
    ∷ []

unfoldable pub audit_once : Env → Pg → Mongo → Report
audit_once env pg mongo =
    let active = active_seats pg.tickets in
    let found = inventory_checks active (zone_rows env mongo.events []) in
    record {
      pg_results = postgres_checks pg;
      inventory = found;
      drift = map (drift_of active) (found.below ++ found.above);
    }

abbrev pub drifting : Report → Bool
drifting r = ltb 0 (length r.inventory.below) || ltb 0 (length r.inventory.above)

-- `run_audit`: the databases are read again, up to `retries` times, while there is drift;
-- `seen n` is what the n-th reading finds
unfoldable pub run_audit : Env → (ℕ → Pg × Mongo) → ℕ → ℕ → Report
run_audit env seen attempt zero = let (pg, mongo) = seen attempt in audit_once env pg mongo
run_audit env seen attempt (suc retries) =
    let (pg, mongo) = seen attempt in
    let again = run_audit env seen (suc attempt) retries in
    let r = audit_once env pg mongo in if drifting r then again else r

-- `repair`: each counter is set past the validator
unfoldable pub repair_one : Drift → List EventDoc → List EventDoc
repair_one d events = elim (update_event false d.oid (named d.zone) (λ b. pos d.expected) events) [
  | modified events' ↦ events'
  | no_match ↦ events
  | write_error ↦ events
]

unfoldable pub repair : List Drift → List EventDoc → List EventDoc
unfolding repair_one
repair [] events = events
repair (d ∷ ds) events = repair ds (repair_one d events)

abbrev pub count_failed : List ℕ → ℕ
count_failed [] = 0
count_failed (zero ∷ rs) = count_failed rs
count_failed (suc n ∷ rs) = suc (count_failed rs)

-- `print_results`: how many checks failed
unfoldable pub failed_checks : Report → ℕ
failed_checks r =
    count_failed r.pg_results
    + count_failed (
        length r.inventory.negative
        ∷ length r.inventory.over_cap
        ∷ length r.inventory.pg_over
        ∷ length r.inventory.below
        ∷ length r.inventory.above
        ∷ length r.inventory.orphans
        ∷ [])
