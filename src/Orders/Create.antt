-- ===== src/Orders/Create.antt =====
-- Steps 3 to 5 of `create_order_dual_db`: reserve in MongoDB, commit in PostgreSQL, give the seats
-- back on any failure; and the whole of it.
use pruet_web_dev.Base.{
  ℕ, suc, ◌+◌, ◌*◌, ◌/◌, Bool, ◌&&◌, Option, none, some, List, [], ◌∷◌, ◌++◌, length, find?, any,
  is_some, ◌==◌, if◌then◌else◌,
}
use pruet_web_dev.Text.{Str, truthy}
use pruet_web_dev.Models.{Order, OrderStatus, Ticket, TicketStatus, OutboxStatus, seat_held, Pg}
use pruet_web_dev.Models.Guards.{
  Constraint, orders_user_id, seat, Insert, inserted, violates, order_violation, insert_tickets,
}
use pruet_web_dev.Mongo.{answered, count_call, hold_seats, log_activity}
use pruet_web_dev.Errors.{
  Exc, http, integrity, mongo_connection, http_error, order_not_found, user_does_not_exist,
  double_booking_prevented, data_integrity_error, transaction_failed, classify_db_error,
}
use pruet_web_dev.Service.{World, Env, Result, ok, err, Service, ◌>>=◌, ◌>>◌}
use pruet_web_dev.Seats.{Reserved, release_reservations, reserve_zones}
use pruet_web_dev.Orders.{TicketItem, OrderCreate}
use pruet_web_dev.Orders.Idempotency.{order_with_key, check_idempotency}
use pruet_web_dev.Orders.Pricing.{
  ValidatedItem, validate_items, total_price, lock_order, collect_requests,
}

-- the hold window in seconds
abbrev pub hold_window : ℕ
hold_window = 600

-- what PostgreSQL stores of a sum in a NUMERIC(10, 2) column: whole cents, halves away from zero
unfoldable pub to_cents : ℕ → ℕ
to_cents p = (2 * p + 1000000) / 2000000

-- `Order(...)` with the id, the time and the columns that the INSERT returns
abbrev pub new_order : Env → OrderCreate → Option Str → ℕ → Pg → Order
new_order env order_in key total pg = record {
  id = pg.next_id;
  order_number = env.token 0;
  user_id = order_in.user_id;
  total_amount = to_cents total;
  status = OrderStatus.pending;
  payment_method = order_in.payment_method;
  expires_at = some (env.now + hold_window);
  idempotency_key = key;
  created_at = env.now;
}

-- `Ticket(...)` for each item, in the order of the items; `n` counts them
unfoldable pub new_tickets : Env → ℕ → ℕ → List ValidatedItem → List Ticket
new_tickets env order_id n [] = []
new_tickets env order_id n (v ∷ vs) =
    record {
      id = order_id + suc n;
      order_id = order_id;
      event_id = v.event_id;
      ticket_code = env.token (suc n);
      seat_zone = v.seat_zone;
      seat_number = v.seat_number;
      price = to_cents v.price;
      status = TicketStatus.held;
      created_at = env.now;
    }
    ∷ new_tickets env order_id (suc n) vs

-- the transaction, all of it or nothing: INSERT order, INSERT tickets, INSERT outbox, COMMIT
unfoldable pub insert_order : Env → Order → List Ticket → Pg → Insert Pg
insert_order env o ts pg = elim (order_violation pg o) [
  | some c ↦ violates c
  | none ↦ elim (insert_tickets pg.tickets ts) [
    | violates c ↦ violates c
    | inserted tickets ↦ inserted (record pg {
      orders = pg.orders ++ o ∷ [];
      tickets = tickets;
      outbox =
          pg.outbox
          ++ record {
            id = o.id + length ts + 1;
            event = seat_held o.id o.order_number (env.now + hold_window);
            aggregate_id = o.id;
            status = OutboxStatus.pending;
            created_at = env.now;
            processed_at = none;
          }
            ∷ [];
      next_id = o.id + length ts + 2;
    })
  ]
]

-- the answer to an IntegrityError, after the rollback and the release
unfoldable pub on_integrity_error : Env → Option Str → Constraint → Pg → Result Order
unfolding order_with_key
on_integrity_error env key c pg =
    let rest : Result Order = elim c [
      | orders_user_id ↦ err (http_error 404 user_does_not_exist)
      | seat ↦ err (http_error 409 double_booking_prevented)
      | _ ↦ err (http_error 500 data_integrity_error)
    ] in
    if truthy key && env.names_key c
    then (elim env.reread_fault [
      | some e ↦ err e
      | none ↦ elim (order_with_key key pg) [ some winning ↦ ok winning | none ↦ rest ]
    ])
    else rest

-- the answer to any other exception of the transaction
unfoldable pub on_database_error : Exc → Exc
on_database_error (http h) = http h
on_database_error e = elim (classify_db_error e) [
  | some h ↦ http h
  | none ↦ http_error 500 transaction_failed
]

-- the two `except` clauses of the transaction, after the rollback
unfoldable pub on_fault : Env → Option Str → Exc → Pg → Result Order
unfolding on_integrity_error on_database_error
on_fault env key (integrity c) pg = on_integrity_error env key c pg
on_fault env key e pg = err (on_database_error e)

-- step 4 and 5, from the seats that were reserved; a fault behind the commit finds the rows stored
unfoldable pub place_order :
    Env → OrderCreate → Option Str → List ValidatedItem → List Reserved → Service Order
place_order env order_in key items reserved w =
    let o : Order = new_order env order_in key (total_price items) w.pg in
    let back : World = record w { mongo = release_reservations env.net reserved w.mongo } in
    elim env.pg_fault [
      | some e ↦ (on_fault env key e w.pg, back)
      | none ↦ elim (insert_order env o (new_tickets env o.id 0 items) w.pg) [
        | violates c ↦ (on_integrity_error env key c w.pg, back)
        | inserted pg ↦ elim env.late_fault [
          | some e ↦ (err (on_database_error e), record back { pg = pg })
          | none ↦ (
            ok o,
            record {
              pg = pg;
              mongo =
                  log_activity env.net
                    (hold_seats o.user_id o.order_number (length items) o.total_amount) w.mongo;
            },
          )
        ]
      ]
    ]

abbrev pub wants_event : Env → List TicketItem → Bool
wants_event env items = any (λ i. is_some (env.object_id i.event_id)) items

-- the one query for the events of the order, if an id of it can be read at all
unfoldable pub read_events : Env → List TicketItem → Service (Unit {0})
read_events env items w =
    if wants_event env items
    then (elim (env.net w.mongo.calls) [
      | answered ↦ (ok tt, record w { mongo = count_call w.mongo })
      | _ ↦ (err mongo_connection, record w { mongo = count_call w.mongo })
    ])
    else (ok tt, w)

-- step 3: the reservation loop over `zone_requests`
unfoldable pub reserve_seats : Env → List ValidatedItem → Service (List Reserved)
reserve_seats env items w =
    let (r, m) = reserve_zones env.net (collect_requests items []) [] w.mongo in
    (r, record w { mongo = m })

-- `create_order_dual_db` behind the idempotency check
unfoldable pub create_new_order : Env → OrderCreate → Option Str → Service Order
create_new_order env order_in key = do
  read_events env order_in.items
  items ← (λ w. (validate_items env w.mongo.events order_in.items, w))
  reserved ← reserve_seats env (lock_order items)
  place_order env order_in key (lock_order items) reserved

-- `create_order_dual_db`
unfoldable pub create_order_dual_db : Env → OrderCreate → Option Str → Service Order
create_order_dual_db env order_in key w = elim (check_idempotency env order_in key w.pg) [
  | err e ↦ (err e, w)
  | ok (some o) ↦ (ok o, w)
  | ok none ↦ create_new_order env order_in key w
]

-- `get_order_by_id`, the order itself
unfoldable pub get_order_by_id : ℕ → Pg → Result Order
get_order_by_id order_id pg = elim (find? (λ o. o.id == order_id) pg.orders) [
  | none ↦ err (http_error 404 order_not_found)
  | some o ↦ ok o
]
