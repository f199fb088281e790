-- ===== src/Integrity/Place.antt =====
-- The transaction of a new order and the rules on orders.
use native.Mathlib.Omega.{arith}
use native.Mathlib.Nat.{add_assoc}
use pruet_web_dev.Base.{
  ℕ, suc, ◌+◌, ◌*◌, ◌≤◌, ◌<◌, ◌≡◌, refl, subst, sym, false, ◌&&◌, Option, List, [], ◌∷◌, ◌++◌, ◌==◌,
  any, count-append, length, All, All-append,
}
use pruet_web_dev.Text.{Str}
use pruet_web_dev.Models.{Order, Ticket, Payment, Pg, is_held, is_valid}
use pruet_web_dev.Models.Guards.{inserted, insert_tickets}
use pruet_web_dev.Service.{Env}
use pruet_web_dev.Orders.{OrderCreate}
use pruet_web_dev.Orders.Pricing.{ValidatedItem, total_price}
use pruet_web_dev.Orders.Create.{to_cents, new_order, new_tickets, insert_order}
use pruet_web_dev.Payments.Outcomes.{held_of}
use pruet_web_dev.Consistency.{paid_sum, price_sum}
use pruet_web_dev.Integrity.Facts.{facts_of, seats_of, valid_of, completed_of, price_sum-append}
use pruet_web_dev.Integrity.Seats.{insert_tickets-NoDoubleBooking, insert_tickets-append}
use pruet_web_dev.Integrity.Invariant.{IsSound, OrderFits, DistinctIds}
use pruet_web_dev.Integrity.Pay.{FitsFacts, grow_orders, grow_tickets, grow_payments}

-- a sum is rounded by half a cent at most
cents_near :
    (p : ℕ) → (2000000 * to_cents p ≤ 2 * p + 1000000) × (2 * p ≤ 2000000 * to_cents p + 1000000)
unfolding to_cents
cents_near p = (omega arith, omega arith)

module _ (env : Env) (k : ℕ) where
  seats_of-new_tickets :
      (n : ℕ) (items : List ValidatedItem) → seats_of k (new_tickets env k n items) ≡ length items
  unfolding new_tickets
  seats_of-new_tickets n [] = refl
  seats_of-new_tickets n (v ∷ vs) = ground (arith, seats_of-new_tickets (suc n) vs)

  price_sum-new_tickets :
      (n : ℕ) (v : ValidatedItem) (vs : List ValidatedItem)
      → price_sum k (new_tickets env k n (v ∷ vs))
        ≡ to_cents v.price + price_sum k (new_tickets env k (suc n) vs)
  unfolding new_tickets
  price_sum-new_tickets n v vs = ground arith

  -- the rounding of the prices of the tickets adds up to half a cent each
  prices_near :
      (n : ℕ) (items : List ValidatedItem)
      → let prices = price_sum k (new_tickets env k n items) in
        (2000000 * prices ≤ 2 * total_price items + 1000000 * length items)
        × (2 * total_price items ≤ 2000000 * prices + 1000000 * length items)
  prices_near n [] = unfold new_tickets in (omega arith, omega arith)
  prices_near n (v ∷ vs) =
      let (low, high) = prices_near (suc n) vs in
      let (below, above) = cents_near v.price in
      rw (price_sum-new_tickets n v vs) (omega arith, omega arith)

  valid_of-new_tickets :
      (j n : ℕ) (items : List ValidatedItem) → valid_of j (new_tickets env k n items) ≡ 0
  unfolding new_tickets
  valid_of-new_tickets j n [] = refl
  valid_of-new_tickets j n (v ∷ vs) = ground (arith, valid_of-new_tickets j (suc n) vs)

  price_sum-new_tickets_other :
      (j n : ℕ) (items : List ValidatedItem) → j < k → price_sum j (new_tickets env k n items) ≡ 0
  unfolding new_tickets
  price_sum-new_tickets_other j n [] h = refl
  price_sum-new_tickets_other j n (v ∷ vs) h =
      ground (arith, price_sum-new_tickets_other j (suc n) vs h)

  seats_of-new_tickets_other :
      (j n : ℕ) (items : List ValidatedItem) → j < k → seats_of j (new_tickets env k n items) ≡ 0
  unfolding new_tickets
  seats_of-new_tickets_other j n [] h = refl
  seats_of-new_tickets_other j n (v ∷ vs) h =
      ground (arith, seats_of-new_tickets_other j (suc n) vs h)

  held_of-new_tickets_other :
      (j n : ℕ) (items : List ValidatedItem) → j < k → held_of j (new_tickets env k n items) ≡ 0
  unfolding new_tickets
  held_of-new_tickets_other j n [] h = refl
  held_of-new_tickets_other j n (v ∷ vs) h =
      ground (arith, held_of-new_tickets_other j (suc n) vs h)

  new_tickets_below :
      (n m : ℕ) (items : List ValidatedItem)
      → k < m
      → All (λ (t : Ticket). t.order_id < m) (new_tickets env k n items)
  unfolding new_tickets
  new_tickets_below n m [] h = tt
  new_tickets_below n m (v ∷ vs) h = (h, new_tickets_below (suc n) m vs h)

-- an id that is still to be given has no tickets and no payments
module _ (n : ℕ) where
  fresh_prices : (ts : List Ticket) → All (λ (t : Ticket). t.order_id < n) ts → price_sum n ts ≡ 0
  fresh_prices [] h = refl
  fresh_prices (t ∷ ts) h = ground (arith, fresh_prices ts h.1)

  fresh_seats : (ts : List Ticket) → All (λ (t : Ticket). t.order_id < n) ts → seats_of n ts ≡ 0
  fresh_seats [] h = refl
  fresh_seats (t ∷ ts) h = ground (arith, fresh_seats ts h.1)

  fresh_valid : (ts : List Ticket) → All (λ (t : Ticket). t.order_id < n) ts → valid_of n ts ≡ 0
  fresh_valid [] h = refl
  fresh_valid (t ∷ ts) h = ground (arith, fresh_valid ts h.1)

  fresh_completed :
      (ps : List Payment) → All (λ (p : Payment). p.order_id < n) ps → completed_of n ps ≡ 0
  fresh_completed [] h = refl
  fresh_completed (p ∷ ps) h = ground (arith, fresh_completed ps h.1)

  fresh_paid : (ps : List Payment) → All (λ (p : Payment). p.order_id < n) ps → paid_sum n ps ≡ 0
  fresh_paid [] h = refl
  fresh_paid (p ∷ ps) h = ground (arith, fresh_paid ps h.1)

  pub fresh_id :
      (os : List Order) → All (λ (o : Order). o.id < n) os → any (λ p. p.id == n) os ≡ false
  fresh_id [] h = refl
  fresh_id (o ∷ os) h = ground (arith, fresh_id os h.1)

append-DistinctIds :
    (os : List Order) (o : Order)
    → DistinctIds os
    → any (λ p. p.id == o.id) os ≡ false
    → DistinctIds (os ++ o ∷ [])
append-DistinctIds [] o d new = (refl, tt)
append-DistinctIds (q ∷ os) o d new =
    (any_append_other q.id os o d.0 (ground arith), append-DistinctIds os o d.1 (ground arith))
  where
    any_append_other :
        (j : ℕ) (os : List Order) (o : Order)
        → any (λ p. p.id == j) os ≡ false
        → (o.id == j) ≡ false
        → any (λ p. p.id == j) (os ++ o ∷ []) ≡ false
    any_append_other j [] o h ne = ground arith
    any_append_other j (p ∷ os) o h ne = ground (arith, any_append_other j os o)

-- the facts of an older order, with the new tickets behind the others
old_facts :
    (env : Env) (k j n : ℕ) (ts : List Ticket) (ps : List Payment) (items : List ValidatedItem)
    → j < k
    → facts_of j (ts ++ new_tickets env k n items) ps ≡ facts_of j ts ps
old_facts env k j n ts ps items h =
    let new : List Ticket = new_tickets env k n items in
    ground (
      arith,
      price_sum-append j ts new,
      price_sum-new_tickets_other env k j n items h,
      count-append (λ t. t.order_id == j) ts new,
      seats_of-new_tickets_other env k j n items h,
      count-append (λ t. (t.order_id == j) && is_held t.status) ts new,
      held_of-new_tickets_other env k j n items h,
      count-append (λ t. (t.order_id == j) && is_valid t.status) ts new,
      valid_of-new_tickets env k j n items,
    )

old_orders_fit :
    (env : Env) (k : ℕ) (ts : List Ticket) (ps : List Payment) (items : List ValidatedItem)
    (os : List Order)
    → All (λ (o : Order). o.id < k) os
    → All (OrderFits ts ps) os
    → All (OrderFits (ts ++ new_tickets env k 0 items) ps) os
old_orders_fit env k ts ps items [] below h = tt
old_orders_fit env k ts ps items (o ∷ os) below h = (
  subst (FitsFacts o) (sym (old_facts env k o.id 0 ts ps items below.0)) h.0,
  old_orders_fit env k ts ps items os below.1 h.1,
)

new_order_fits :
    (env : Env) (order_in : OrderCreate) (key : Option Str) (items : List ValidatedItem) (pg : Pg)
    → IsSound pg
    → OrderFits
        (pg.tickets ++ new_tickets env pg.next_id 0 items)
        pg.payments
        (new_order env order_in key (total_price items) pg)
new_order_fits env order_in key items pg s =
    let new : List Ticket = new_tickets env pg.next_id 0 items in
    ground (
      arith,
      price_sum-append pg.next_id pg.tickets new,
      prices_near env pg.next_id 0 items,
      cents_near (total_price items),
      count-append (λ t. t.order_id == pg.next_id) pg.tickets new,
      seats_of-new_tickets env pg.next_id 0 items,
      fresh_seats pg.next_id pg.tickets s.tickets_below,
      fresh_prices pg.next_id pg.tickets s.tickets_below,
      count-append (λ t. (t.order_id == pg.next_id) && is_valid t.status) pg.tickets new,
      valid_of-new_tickets env pg.next_id pg.next_id 0 items,
      fresh_valid pg.next_id pg.tickets s.tickets_below,
      fresh_completed pg.next_id pg.payments s.payments_below,
      fresh_paid pg.next_id pg.payments s.payments_below,
    )

-- what an accepted transaction has written
pub insert_order_parts :
    (env : Env) (o : Order) (ts : List Ticket) (pg pg' : Pg)
    → insert_order env o ts pg ≡ inserted pg'
    → (pg'.orders ≡ pg.orders ++ o ∷ [])
      × (insert_tickets pg.tickets ts ≡ inserted pg'.tickets)
      × (pg'.payments ≡ pg.payments)
      × (pg'.next_id ≡ o.id + length ts + 2)
unfolding insert_order
insert_order_parts env o ts pg pg' e = ground arith

-- The transaction of a new order keeps the invariant, whoever ran before it.
pub insert_order-IsSound :
    (env : Env) (order_in : OrderCreate) (key : Option Str) (items : List ValidatedItem)
    (pg pg' : Pg)
    → IsSound pg
    → insert_order env
        (new_order env order_in key (total_price items) pg)
        (new_tickets env pg.next_id 0 items)
        pg
      ≡ inserted pg'
    → IsSound pg'
insert_order-IsSound env order_in key items pg pg' s e =
    let o : Order = new_order env order_in key (total_price items) pg in
    let new : List Ticket = new_tickets env pg.next_id 0 items in
    let (orders, rows, payments, next) = insert_order_parts env o new pg pg' e in
    let tickets = insert_tickets-append pg.tickets new pg'.tickets rows in
    record {
      orders_fit =
          rw (orders, tickets, payments)
            (All-append (OrderFits (pg.tickets ++ new) pg.payments) pg.orders (o ∷ [])
              (old_orders_fit env pg.next_id pg.tickets pg.payments items pg.orders s.orders_below
                s.orders_fit)
              (new_order_fits env order_in key items pg s, tt));
      no_double_booking =
          insert_tickets-NoDoubleBooking pg.tickets new pg'.tickets s.no_double_booking rows;
      no_double_charge = rw payments s.no_double_charge;
      distinct_ids = rw orders (
          append-DistinctIds pg.orders o s.distinct_ids
            (fresh_id pg.next_id pg.orders s.orders_below));
      orders_below =
          rw (orders, next, add_assoc)
            (All-append (λ (q : Order). q.id < pg.next_id + (length new + 2)) pg.orders (o ∷ [])
              (grow_orders pg.next_id (length new + 2) pg.orders s.orders_below) (omega arith, tt));
      tickets_below =
          rw (tickets, next, add_assoc)
            (All-append (λ (t : Ticket). t.order_id < pg.next_id + (length new + 2)) pg.tickets new
              (grow_tickets pg.next_id (length new + 2) pg.tickets s.tickets_below)
              (new_tickets_below env pg.next_id 0 (pg.next_id + (length new + 2)) items
                (omega arith)));
      payments_below =
          rw (payments, next, add_assoc)
            (grow_payments pg.next_id (length new + 2) pg.payments s.payments_below);
    }
