-- ===== src/Payments.antt =====
-- app/services/payment_service.py: paying a pending order, behind a row lock on it.
pub mod Outcomes
use pruet_web_dev.Base.{
  ℕ, suc, ◌+◌, Bool, true, false, not, ◌&&◌, Option, none, some, List, [], ◌∷◌, ◌++◌, ◌==◌, ltb,
  count, filter, find?, any, update_where, if◌then◌else◌,
}
use pruet_web_dev.Base.Sorting.{sort}
use pruet_web_dev.Text.{Str, truthy, text, or_empty}
use pruet_web_dev.Models.{
  Order, OrderStatus, Ticket, TicketStatus, Payment, PaymentStatus, OutboxEvent, OutboxStatus,
  Announcement, seat_hold_expired, order_paid, Pg, is_held,
}
use pruet_web_dev.Models.Guards.{Constraint, completed_payment, payment_violation}
use pruet_web_dev.Mongo.{order_was_paid, log_activity}
use pruet_web_dev.Errors.{
  Exc, integrity, http_error, order_not_found, already_paid, order_expired, order_cancelled,
  hold_expired, amount_mismatch,
}
use pruet_web_dev.Service.{World, Env, Result, ok, err, Service}
use pruet_web_dev.Seats.{release_counted_seats}
use pruet_web_dev.Orders.Sweep.{overdue, count_held, cancel_held}

-- PaymentCreate
pub record PaymentCreate : Type 0 where
  pub amount : ℕ
  pub provider : Str
  pub provider_tx_id : Option Str

-- SELECT ... FOR UPDATE of one order
unfoldable pub order_by_id : ℕ → Pg → Option Order
order_by_id order_id pg = find? (λ o. o.id == order_id) pg.orders

-- the refusals of an order that is resolved already
unfoldable pub resolved : OrderStatus → Option Exc
resolved OrderStatus.paid = some (http_error 409 already_paid)
resolved OrderStatus.confirmed = some (http_error 409 already_paid)
resolved OrderStatus.expired = some (http_error 410 order_expired)
resolved OrderStatus.cancelled = some (http_error 409 order_cancelled)
resolved OrderStatus.pending = none

abbrev pub is_order : ℕ → ℕ → Bool
is_order order_id k = k == order_id

abbrev pub set_order : ℕ → (Order → Order) → List Order → List Order
set_order order_id f = update_where (λ o. o.id == order_id) f

abbrev pub outbox_row : Env → ℕ → ℕ → Announcement → OutboxEvent
outbox_row env next_id order_id event = record {
  id = next_id;
  event = event;
  aggregate_id = order_id;
  status = OutboxStatus.pending;
  created_at = env.now;
  processed_at = none;
}

-- the transaction of an order whose hold has run out
unfoldable pub expire_order : Env → Order → Pg → Pg
unfolding cancel_held
expire_order env o pg = record pg {
  orders = set_order o.id (λ p. record p { status = OrderStatus.expired }) pg.orders;
  tickets = cancel_held (is_order o.id) pg.tickets;
  outbox =
      pg.outbox
      ++ outbox_row env pg.next_id o.id (seat_hold_expired o.id o.order_number (text "timeout"))
        ∷ [];
  next_id = suc pg.next_id;
}

abbrev pub provider_tx : Env → Option Str → Option Str
provider_tx env tx = if truthy tx then tx else some (env.token 1)

abbrev pub new_payment : Env → Order → PaymentCreate → Pg → Payment
new_payment env o payment_in pg = record {
  id = pg.next_id;
  order_id = o.id;
  payment_reference = env.token 0;
  amount = o.total_amount;
  provider = payment_in.provider;
  status = PaymentStatus.completed;
  provider_tx_id = provider_tx env payment_in.provider_tx_id;
  created_at = env.now;
}

-- the held tickets of an order become valid, in one statement
unfoldable pub validate_held : ℕ → List Ticket → List Ticket
validate_held order_id =
    update_where (λ t. (t.order_id == order_id) && is_held t.status)
      (λ t. record t { status = TicketStatus.valid })

-- the transaction of a payment, if the constraints let it pass
unfoldable pub confirm_order : Env → Order → Payment → Pg → Pg
unfolding validate_held
confirm_order env o p pg = record pg {
  orders =
      set_order o.id (λ q. record q { status = OrderStatus.confirmed; expires_at = none })
        pg.orders;
  tickets = validate_held o.id pg.tickets;
  payments = pg.payments ++ p ∷ [];
  outbox =
      pg.outbox
      ++ outbox_row env (suc pg.next_id) o.id (
          order_paid o.id o.order_number p.payment_reference o.total_amount
            (count (λ t. (t.order_id == o.id) && is_held t.status) pg.tickets))
        ∷ [];
  next_id = pg.next_id + 2;
}

-- the branch of a hold that has run out: PostgreSQL first, then the seats, then 410
unfoldable pub pay_overdue : Env → Order → Service Payment
pay_overdue env o w = elim env.pg_fault [
  | some e ↦ (err e, w)
  | none ↦ elim env.late_fault [
    | some e ↦ (err e, record w { pg = expire_order env o w.pg })
    | none ↦ (
      err (http_error 410 hold_expired),
      record {
        pg = expire_order env o w.pg;
        mongo = release_counted_seats env (count_held (is_order o.id) w.pg.tickets) w.mongo;
      },
    )
  ]
]

-- an IntegrityError at the commit
unfoldable pub on_payment_violation : Constraint → Exc
on_payment_violation completed_payment = http_error 409 already_paid
on_payment_violation c = integrity c

abbrev pub on_commit_fault : Exc → Exc
on_commit_fault (integrity c) = on_payment_violation c
on_commit_fault e = e

-- the branch of a payment in time, for the right amount; a fault behind the commit, of the commit or of
-- `db.refresh(payment)`, finds the payment stored
unfoldable pub pay_confirmed : Env → Order → PaymentCreate → Service Payment
pay_confirmed env o payment_in w =
    let p : Payment = new_payment env o payment_in w.pg in
    elim env.pg_fault [
      | some e ↦ (err (on_commit_fault e), w)
      | none ↦ elim (payment_violation w.pg.payments p) [
        | some c ↦ (err (on_payment_violation c), w)
        | none ↦ elim env.late_fault [
          | some e ↦ (err e, record w { pg = confirm_order env o p w.pg })
          | none ↦ (
            ok p,
            record {
              pg = confirm_order env o p w.pg;
              mongo =
                  log_activity env.net (order_was_paid o.user_id p.payment_reference o.total_amount)
                    w.mongo;
            },
          )
        ]
      ]
    ]

-- `process_order_payment`
unfoldable pub process_order_payment : Env → ℕ → PaymentCreate → Service Payment
unfolding resolved
process_order_payment env order_id payment_in w = elim (order_by_id order_id w.pg) [
  | none ↦ (err (http_error 404 order_not_found), w)
  | some o ↦ elim (resolved o.status) [
    | some e ↦ (err e, w)
    | none ↦
        if overdue env.now o
        then pay_overdue env o w
        else if payment_in.amount == o.total_amount
        then pay_confirmed env o payment_in w
        else (err (http_error 400 amount_mismatch), w)
  ]
]

-- `get_payments_by_order_id`: newest first
unfoldable pub get_payments_by_order_id : ℕ → Pg → Result (List Payment)
get_payments_by_order_id order_id pg =
    if any (λ o. o.id == order_id) pg.orders
    then ok (
        sort (λ p q. ltb q.created_at p.created_at)
          (filter (λ p. p.order_id == order_id) pg.payments))
    else err (http_error 404 order_not_found)
