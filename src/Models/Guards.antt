-- ===== src/Models/Guards.antt =====
-- app/models/sql_models.py, the constraints: unique columns, the two partial unique indexes and the
-- foreign key of orders. A row that would break one is refused, and the constraint is named.
use pruet_web_dev.Base.{
  Bool, false, ◌&&◌, Option, none, some, List, [], ◌∷◌, ◌++◌, ◌==◌, any, if◌then◌else◌,
}
use pruet_web_dev.Text.{Str, str_eq}
use pruet_web_dev.Models.{User, Order, Ticket, Payment, Pg, is_active, is_completed}

-- the constraints that the services tell apart
pub data Constraint : Type 0 where
  idempotency_key orders_user_id seat completed_payment users_email users_username other :
      Constraint

-- two nullable columns with one value: SQL equality, so never for NULL
abbrev pub same_value : Option Str → Option Str → Bool
same_value (some s) (some t) = str_eq s t
same_value _ _ = false

-- both rows stand in uq_tickets_event_zone_seat, under the same key
abbrev pub same_seat : Ticket → Ticket → Bool
same_seat t u =
    is_active t.status
    && (is_active u.status
        && (same_value t.seat_number u.seat_number
            && (str_eq t.event_id u.event_id && str_eq t.seat_zone u.seat_zone)))

unfoldable pub order_violation : Pg → Order → Option Constraint
order_violation pg o =
    if any (λ p. str_eq p.order_number o.order_number) pg.orders
    then some other
    else if any (λ p. same_value p.idempotency_key o.idempotency_key) pg.orders
    then some idempotency_key
    else if any (λ u. u.id == o.user_id) pg.users
    then none
    else some orders_user_id

unfoldable pub ticket_violation : List Ticket → Ticket → Option Constraint
ticket_violation rows t =
    if any (λ u. str_eq u.ticket_code t.ticket_code) rows
    then some other
    else if any (λ u. same_seat u t) rows
    then some seat
    else none

unfoldable pub payment_violation : List Payment → Payment → Option Constraint
payment_violation rows p =
    if any (λ q. str_eq q.payment_reference p.payment_reference) rows
    then some other
    else if is_completed p.status
        && any (λ q. is_completed q.status && (q.order_id == p.order_id)) rows
    then some completed_payment
    else none

unfoldable pub user_violation : List User → User → Option Constraint
user_violation rows u =
    if any (λ v. str_eq v.email u.email) rows
    then some users_email
    else if any (λ v. str_eq v.username u.username) rows
    then some users_username
    else none

-- what a statement gives: the new rows, or the constraint that it breaks
pub data Insert (A : Type 0) : Type 0 where
  inserted : A → Insert A
  violates : Constraint → Insert A

-- the rows of one multi-row INSERT are checked one after another, each against those before it
unfoldable pub insert_tickets : List Ticket → List Ticket → Insert (List Ticket)
unfolding ticket_violation
insert_tickets rows [] = inserted rows
insert_tickets rows (t ∷ ts) = elim (ticket_violation rows t) [
  | some c ↦ violates c
  | none ↦ insert_tickets (rows ++ t ∷ []) ts
]
