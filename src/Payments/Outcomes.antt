-- ===== src/Payments/Outcomes.antt =====
-- app/services/payment_service.py: what process_order_payment does, by its outcome.
use pruet_web_dev.Base.{
  ◌⊎◌, ℕ, ◌≡◌, ◌≢◌, refl, subst, sym, ap, ◌∙◌, inl, inr, true, false, ◌&&◌, none, some, List, [],
  ◌∷◌, ◌++◌, ◌==◌, arith, ==_iff, count, Option-cases,
}
use pruet_web_dev.Base.Rows.{find?-update_where, count-update_where_none, find?_passes}
use pruet_web_dev.Models.{
  Order, OrderStatus, Ticket, TicketStatus, Payment, PaymentStatus, Pg, is_held,
}
use pruet_web_dev.Models.Guards.{payment_violation}
use pruet_web_dev.Errors.{Exc, http_error, hold_expired, already_paid, order_expired}
use pruet_web_dev.Service.{World, Env, Result, ok, err}
use pruet_web_dev.Orders.Sweep.{overdue, count_held, cancel_held}
use pruet_web_dev.Seats.{release_counted_seats}
use pruet_web_dev.Payments.{
  PaymentCreate, is_order, order_by_id, new_payment, expire_order, confirm_order, validate_held,
  pay_overdue, pay_confirmed, process_order_payment,
}

abbrev pub held_of : ℕ → List Ticket → ℕ
held_of k ts = count (λ t. (t.order_id == k) && is_held t.status) ts

-- the order as a payment finds it
pub record IsPayable (env : Env) (k : ℕ) (payment_in : PaymentCreate) (w : World) (o : Order)
    : Type 0 where
  pub is_found : order_by_id k w.pg ≡ some o
  pub has_status : o.status ≡ OrderStatus.pending
  pub in_time : overdue env.now o ≡ false
  pub right_amount : payment_in.amount ≡ o.total_amount

pub order_by_id-id : (k : ℕ) (pg : Pg) (o : Order) → order_by_id k pg ≡ some o → o.id ≡ k
unfolding order_by_id
order_by_id-id k pg o h = (==_iff o.id k).0 (find?_passes (λ (q : Order). q.id == k) pg.orders o h)

pay_confirmed_ok :
    (env : Env) (o : Order) (payment_in : PaymentCreate) (w : World) (p : Payment)
    → (pay_confirmed env o payment_in w).0 ≡ ok p
    → (p ≡ new_payment env o payment_in w.pg)
      × ((pay_confirmed env o payment_in w).1.pg ≡ confirm_order env o p w.pg)
      × (payment_violation w.pg.payments p ≡ none)
unfolding pay_confirmed
pay_confirmed_ok env o payment_in w p h = ground arith

pay_overdue_raises :
    (env : Env) (o : Order) (w : World) → (e : Exc) × ((pay_overdue env o w).0 ≡ err e)
unfolding pay_overdue
pay_overdue_raises env o w = elim (Option-cases env.pg_fault) [
  | inl e ↦ elim (Option-cases env.late_fault) [
    | inl e' ↦ (http_error 410 hold_expired, ground arith)
    | inr (x, e') ↦ (x, ground arith)
  ]
  | inr (x, e) ↦ (x, ground arith)
]

process_ok :
    (env : Env) (k : ℕ) (payment_in : PaymentCreate) (w : World) (p : Payment) (o : Order)
    → order_by_id k w.pg ≡ some o
    → (process_order_payment env k payment_in w).0 ≡ ok p
    → IsPayable env k payment_in w o
      × (process_order_payment env k payment_in w ≡ pay_confirmed env o payment_in w)
unfolding process_order_payment
process_ok env k payment_in w p o e h = ground (arith, pay_overdue_raises env o w)

process_ok_found :
    (env : Env) (k : ℕ) (payment_in : PaymentCreate) (w : World) (p : Payment)
    → (process_order_payment env k payment_in w).0 ≡ ok p
    → (o : Order) × (order_by_id k w.pg ≡ some o)
unfolding process_order_payment
process_ok_found env k payment_in w p h = ground arith

held_of-validate_held : (k : ℕ) (ts : List Ticket) → held_of k (validate_held k ts) ≡ 0
unfolding validate_held
held_of-validate_held k ts =
    count-update_where_none (λ t. (t.order_id == k) && is_held t.status)
      (λ t. record t { status = TicketStatus.valid }) ts (λ t h. ground arith)

held_of-cancel_held : (k : ℕ) (ts : List Ticket) → held_of k (cancel_held (is_order k) ts) ≡ 0
unfolding cancel_held
held_of-cancel_held k ts =
    count-update_where_none (λ t. (t.order_id == k) && is_held t.status)
      (λ t. record t { status = TicketStatus.cancelled }) ts (λ t h. ground arith)

-- the order that a payment leaves behind
abbrev pub confirmed_order : Order → Order
confirmed_order o = record o { status = OrderStatus.confirmed; expires_at = none }

order_by_id-confirm_order :
    (env : Env) (o : Order) (p : Payment) (pg : Pg)
    → order_by_id o.id pg ≡ some o
    → order_by_id o.id (confirm_order env o p pg) ≡ some (confirmed_order o)
unfolding confirm_order order_by_id
order_by_id-confirm_order env o p pg h =
    find?-update_where (λ (q : Order). q.id == o.id) confirmed_order pg.orders o (λ q e. e) h

order_by_id-expire_order :
    (env : Env) (o : Order) (pg : Pg)
    → order_by_id o.id pg ≡ some o
    → order_by_id o.id (expire_order env o pg) ≡ some (record o { status = OrderStatus.expired })
unfolding expire_order order_by_id
order_by_id-expire_order env o pg h =
    find?-update_where (λ (q : Order). q.id == o.id)
      (λ q. record q { status = OrderStatus.expired }) pg.orders o (λ q e. e) h

-- an order that is found is found under its own id
pub found_self :
    (k : ℕ) (pg : Pg) (o : Order) → order_by_id k pg ≡ some o → order_by_id o.id pg ≡ some o
found_self k pg o h = subst (λ (j : ℕ). order_by_id j pg ≡ some o) (sym (order_by_id-id k pg o h)) h

-- what a payment that returns has done to the order it is for
pub record IsPaid (env : Env) (k : ℕ) (p : Payment) (w w' : World) (o : Order) : Type 0 where
  pub one_payment : w'.pg.payments ≡ w.pg.payments ++ p ∷ []
  pub is_completed : p.status ≡ PaymentStatus.completed
  pub full_amount : p.amount ≡ o.total_amount
  pub for_order : p.order_id ≡ k
  pub confirmed : order_by_id k w'.pg ≡ some (confirmed_order o)
  pub none_held : held_of k w'.pg.tickets ≡ 0

confirm-IsPaid :
    (env : Env) (payment_in : PaymentCreate) (w w' : World) (o : Order)
    → order_by_id o.id w.pg ≡ some o
    → w'.pg ≡ confirm_order env o (new_payment env o payment_in w.pg) w.pg
    → IsPaid env o.id (new_payment env o payment_in w.pg) w w' o
confirm-IsPaid env payment_in w w' o found e = record {
  one_payment = rw e (unfold confirm_order in refl);
  is_completed = refl;
  full_amount = refl;
  for_order = refl;
  confirmed = rw e (order_by_id-confirm_order env o _ w.pg found);
  none_held = rw e (unfold confirm_order in held_of-validate_held o.id w.pg.tickets);
}

-- A payment that is accepted was for an order that is pending, in time and of exactly the amount
-- paid; it adds one completed payment of the order's total, confirms the order, and leaves none of
-- its tickets held.
pub process_order_payment-IsPaid :
    (env : Env) (k : ℕ) (payment_in : PaymentCreate) (w : World) (p : Payment)
    → (process_order_payment env k payment_in w).0 ≡ ok p
    → (o : Order) × IsPayable env k payment_in w o
      × IsPaid env k p w (process_order_payment env k payment_in w).1 o
process_order_payment-IsPaid env k payment_in w p h =
    let (o, found) = process_ok_found env k payment_in w p h in
    let (payable, same) = process_ok env k payment_in w p o found h in
    let (made, stored, _) =
      pay_confirmed_ok env o payment_in w p
        (sym (ap (λ (r : Result Payment × World). r.0) same) ∙ h) in
    (
      o,
      payable,
      subst (λ (j : ℕ). IsPaid env j p w (process_order_payment env k payment_in w).1 o)
          (order_by_id-id k w.pg o found)
          (subst
            (λ (q : Payment). IsPaid env o.id q w (process_order_payment env k payment_in w).1 o)
            (sym made)
            (confirm-IsPaid env payment_in w _ o (found_self k w.pg o found) (
              ap (λ (r : Result Payment × World). r.1.pg) same
              ∙ stored
              ∙ ap (λ (q : Payment). confirm_order env o q w.pg) made))),
    )

-- A payment that is refused with anything but an expired hold changes nothing in either database,
-- unless the driver raises behind the commit: then the refusal is what it raised, and MongoDB is as it
-- was.
pub process_order_payment_refused :
    (env : Env) (k : ℕ) (payment_in : PaymentCreate) (w : World) (e : Exc)
    → (process_order_payment env k payment_in w).0 ≡ err e
    → e ≢ http_error 410 hold_expired
    → ((process_order_payment env k payment_in w).1 ≡ w)
      ⊎ ((env.late_fault ≡ some e) × ((process_order_payment env k payment_in w).1.mongo ≡ w.mongo))
unfolding process_order_payment pay_overdue pay_confirmed
process_order_payment_refused env k payment_in w e h other = ground arith

-- Paying twice: after an accepted payment every further payment of the order, whatever its amount and
-- whatever the time and the network then, is refused with 409 and changes nothing.
pub process_order_payment_twice :
    (env env' : Env) (k : ℕ) (payment_in payment_in' : PaymentCreate) (w : World) (p : Payment)
    → (process_order_payment env k payment_in w).0 ≡ ok p
    → process_order_payment env' k payment_in' (process_order_payment env k payment_in w).1
      ≡ (err (http_error 409 already_paid), (process_order_payment env k payment_in w).1)
process_order_payment_twice env env' k payment_in payment_in' w p h =
    let (o, _, paid) = process_order_payment-IsPaid env k payment_in w p h in
    unfold process_order_payment in ground (arith, paid.confirmed)

-- both databases after the payment of an overdue order
abbrev expired_world : Env → Order → World → World
expired_world env o w = record {
  pg = expire_order env o w.pg;
  mongo = release_counted_seats env (count_held (is_order o.id) w.pg.tickets) w.mongo;
}

overdue_step :
    (env : Env) (k : ℕ) (payment_in : PaymentCreate) (w : World) (o : Order)
    → order_by_id k w.pg ≡ some o
    → o.status ≡ OrderStatus.pending
    → overdue env.now o ≡ true
    → env.pg_fault ≡ none
    → env.late_fault ≡ none
    → process_order_payment env k payment_in w
      ≡ (err (http_error 410 hold_expired), expired_world env o w)
unfolding process_order_payment pay_overdue
overdue_step env k payment_in w o found pending late up heard = ground arith

expired_step :
    (env : Env) (k : ℕ) (payment_in : PaymentCreate) (w : World) (o : Order)
    → order_by_id k w.pg ≡ some o
    → o.status ≡ OrderStatus.expired
    → process_order_payment env k payment_in w ≡ (err (http_error 410 order_expired), w)
unfolding process_order_payment
expired_step env k payment_in w o found expired = ground arith

-- what is left of an order whose hold has run out
pub record IsExpired (k : ℕ) (o : Order) (w w' : World) : Type 0 where
  pub expired : order_by_id k w'.pg ≡ some (record o { status = OrderStatus.expired })
  pub none_held : held_of k w'.pg.tickets ≡ 0
  pub nothing_paid : w'.pg.payments ≡ w.pg.payments

expired_world-IsExpired :
    (env : Env) (w : World) (o : Order)
    → order_by_id o.id w.pg ≡ some o
    → IsExpired o.id o w (expired_world env o w)
expired_world-IsExpired env w o found = record {
  expired = order_by_id-expire_order env o w.pg found;
  none_held = unfold expire_order in held_of-cancel_held o.id w.pg.tickets;
  nothing_paid = unfold expire_order in refl;
}

-- A hold that has run out: if the database commits, the payment answers 410, the order is expired and
-- none of its tickets stays held, no payment is recorded, and a further payment changes nothing and is
-- refused with 410.
pub process_order_payment-overdue :
    (env env' : Env) (k : ℕ) (payment_in payment_in' : PaymentCreate) (w : World) (o : Order)
    → order_by_id k w.pg ≡ some o
    → o.status ≡ OrderStatus.pending
    → overdue env.now o ≡ true
    → env.pg_fault ≡ none
    → env.late_fault ≡ none
    → let (r, w') = process_order_payment env k payment_in w in
      (r ≡ err (http_error 410 hold_expired))
      × IsExpired k o w w'
      × (process_order_payment env' k payment_in' w' ≡ (err (http_error 410 order_expired), w'))
process_order_payment-overdue env env' k payment_in payment_in' w o found pending late up heard =
    let e = overdue_step env k payment_in w o found pending late up heard in
    let left =
      subst (λ (j : ℕ). IsExpired j o w (expired_world env o w)) (order_by_id-id k w.pg o found)
        (expired_world-IsExpired env w o (found_self k w.pg o found)) in
    rw e (refl, left, expired_step env' k payment_in' (expired_world env o w) _ left.expired refl)
