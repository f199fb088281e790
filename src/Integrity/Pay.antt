-- ===== src/Integrity/Pay.antt =====
-- The transactions of app/services/payment_service.py and the rules on orders.
use pruet_web_dev.Base.{
  ℕ, ◌+◌, ◌<◌, ◌≡◌, refl, subst, sym, ◌∙◌, Bool, true, false, none, some, List, [], ◌∷◌, ◌++◌, ◌==◌,
  arith, any, count-append, find?, All, Bool-cases, inl, inr, if◌then◌else◌,
}
use native.Mathlib.Numerals.{add-one}
use pruet_web_dev.Integrity.Seats.{validate_held-NoDoubleBooking, cancel_held-NoDoubleBooking}
use pruet_web_dev.Integrity.Charges.{append-NoDoubleCharge}
use pruet_web_dev.Models.{Order, OrderStatus, Ticket, Payment, PaymentStatus, Pg}
use pruet_web_dev.Models.Guards.{payment_violation}
use pruet_web_dev.Service.{Env}
use pruet_web_dev.Orders.Sweep.{cancel_held}
use pruet_web_dev.Payments.{
  PaymentCreate, order_by_id, set_order, new_payment, confirm_order, expire_order, validate_held,
  is_order,
}
use pruet_web_dev.Payments.Outcomes.{confirmed_order, held_of}
use pruet_web_dev.Consistency.{completed_for}
use pruet_web_dev.Integrity.Facts.{
  Facts, facts_of, completed_of, price_sum-cancel_held, seats_of-cancel_held,
  seats_of-validate_held, held_of-cancel_held, valid_of-cancel_held, price_sum-validate_held,
  held_of-validate_held, valid_of-validate_held, paid_sum-append,
}
use pruet_web_dev.Integrity.Invariant.{IsNear, IsSound, OrderFits, StatusFits, DistinctIds}

-- a key that no row has finds nothing to update
All-other {ℓ} :
    (P Q : Order → Type ℓ) (k : ℕ) (f : Order → Order) (os : List Order)
    → any (λ p. p.id == k) os ≡ false
    → ((q : Order) → (q.id == k) ≡ false → P q → Q q)
    → All P os
    → All Q (set_order k f os)
All-other P Q k f [] none_has keep h = h
All-other P Q k f (o ∷ os) none_has keep h = elim (Bool-cases (o.id == k)) [
  | inl e ↦ absurd (ground arith)
  | inr e ↦ rw e (keep o e h.0, All-other P Q k f os (ground arith) keep h.1)
]

-- An UPDATE of the one row with a key: that row has the new property by what it was, and every
-- other row keeps the old one in the new form.
pub All-set_order {ℓ} :
    (P Q : Order → Type ℓ) (o : Order) (f : Order → Order) (os : List Order)
    → DistinctIds os
    → find? (λ p. p.id == o.id) os ≡ some o
    → (P o → Q (f o))
    → ((q : Order) → (q.id == o.id) ≡ false → P q → Q q)
    → All P os
    → All Q (set_order o.id f os)
All-set_order P Q o f [] d found here keep h = cc
All-set_order P Q o f (q ∷ os) d found here keep h = elim (Bool-cases (q.id == o.id)) [
  | inl e ↦
      let same : q ≡ o = ground arith in
      rw e (
        subst (λ (x : Order). Q (f x)) (sym same) (here (subst P same h.0)),
        All-other P Q o.id f os (subst (λ (x : Order). any (λ p. p.id == x.id) os ≡ false) same d.0)
            keep h.1,
      )
  | inr e ↦ rw e (keep q e h.0, All-set_order P Q o f os d.1 (ground arith) here keep h.1)
]

any-set_order :
    (j k : ℕ) (f : Order → Order) (os : List Order)
    → ((q : Order) → (f q).id ≡ q.id)
    → any (λ p. p.id == j) (set_order k f os) ≡ any (λ p. p.id == j) os
any-set_order j k f [] keep = refl
any-set_order j k f (o ∷ os) keep = ground (arith, keep o, any-set_order j k f os keep)

pub set_order-DistinctIds :
    (k : ℕ) (f : Order → Order) (os : List Order)
    → ((q : Order) → (f q).id ≡ q.id)
    → DistinctIds os
    → DistinctIds (set_order k f os)
set_order-DistinctIds k f [] keep d = tt
set_order-DistinctIds k f (o ∷ os) keep d = elim (Bool-cases (o.id == k)) [
  | inl e ↦
      rw (e, keep o) (any-set_order o.id k f os keep ∙ d.0, set_order-DistinctIds k f os keep d.1)
  | inr e ↦ rw e (any-set_order o.id k f os keep ∙ d.0, set_order-DistinctIds k f os keep d.1)
]

module _ (n : ℕ) where
  pub set_order_below :
      (k : ℕ) (f : Order → Order) (os : List Order)
      → ((q : Order) → (f q).id ≡ q.id)
      → All (λ (o : Order). o.id < n) os
      → All (λ (o : Order). o.id < n) (set_order k f os)
  set_order_below k f [] keep h = tt
  set_order_below k f (o ∷ os) keep h = ground (arith, keep o, set_order_below k f os keep h.1)

  pub validate_held_below :
      (k : ℕ) (ts : List Ticket)
      → All (λ (t : Ticket). t.order_id < n) ts
      → All (λ (t : Ticket). t.order_id < n) (validate_held k ts)
  unfolding validate_held
  validate_held_below k [] h = tt
  validate_held_below k (t ∷ ts) h = ground (arith, validate_held_below k ts h.1)

  pub cancel_held_below :
      (of_order : ℕ → Bool) (ts : List Ticket)
      → All (λ (t : Ticket). t.order_id < n) ts
      → All (λ (t : Ticket). t.order_id < n) (cancel_held of_order ts)
  unfolding cancel_held
  cancel_held_below of_order [] h = tt
  cancel_held_below of_order (t ∷ ts) h = ground (arith, cancel_held_below of_order ts h.1)

completed_of_last :
    (k : ℕ) (ps : List Payment) (p : Payment)
    → completed_of k (ps ++ p ∷ []) ≡ completed_of k ps + completed_of k (p ∷ [])
completed_of_last k ps p = count-append (completed_for k) ps (p ∷ [])

-- the paid order fits its new status
paid-OrderFits :
    (ts : List Ticket) (ps : List Payment) (o : Order) (p : Payment)
    → o.status ≡ OrderStatus.pending
    → p.status ≡ PaymentStatus.completed
    → p.order_id ≡ o.id
    → p.amount ≡ o.total_amount
    → OrderFits ts ps o
    → OrderFits (validate_held o.id ts) (ps ++ p ∷ []) (confirmed_order o)
paid-OrderFits ts ps o p pending done for amount h = ground (
  arith,
  price_sum-validate_held o.id o.id ts,
  seats_of-validate_held o.id o.id ts,
  held_of-validate_held o.id o.id ts,
  completed_of_last o.id ps p,
  paid_sum-append o.id ps (p ∷ []),
)

-- an order that sees the same facts fits as before
abbrev pub FitsFacts : Order → Facts → Type 0
FitsFacts q f = IsNear q.total_amount f.prices f.seats × StatusFits q.status q.total_amount f

other_facts :
    (ts : List Ticket) (ps : List Payment) (k j : ℕ) (p : Payment)
    → p.order_id ≡ k
    → (j == k) ≡ false
    → facts_of j (validate_held k ts) (ps ++ p ∷ []) ≡ facts_of j ts ps
other_facts ts ps k j p for other = ground (
  arith,
  price_sum-validate_held k j ts,
  seats_of-validate_held k j ts,
  held_of-validate_held k j ts,
  valid_of-validate_held k j ts,
  completed_of_last j ps p,
  paid_sum-append j ps (p ∷ []),
)

payment_below :
    (n : ℕ) (ps : List Payment) (p : Payment)
    → All (λ (q : Payment). q.order_id < n) ps
    → p.order_id < n
    → All (λ (q : Payment). q.order_id < n + 2) (ps ++ p ∷ [])
payment_below n [] p h b = (omega arith, tt)
payment_below n (q ∷ ps) p h b = (omega arith, payment_below n ps p h.1 b)

pub found_below :
    (n : ℕ) (os : List Order) (o : Order)
    → All (λ (q : Order). q.id < n) os
    → find? (λ q. q.id == o.id) os ≡ some o
    → o.id < n
found_below n [] o h found = absurd (ground arith)
found_below n (q ∷ os) o h found = ground (arith, found_below n os o h.1)

pub grow_orders :
    (n d : ℕ) (os : List Order)
    → All (λ (o : Order). o.id < n) os
    → All (λ (o : Order). o.id < n + d) os
grow_orders n d [] h = tt
grow_orders n d (o ∷ os) h = (omega arith, grow_orders n d os h.1)

pub grow_tickets :
    (n d : ℕ) (ts : List Ticket)
    → All (λ (t : Ticket). t.order_id < n) ts
    → All (λ (t : Ticket). t.order_id < n + d) ts
grow_tickets n d [] h = tt
grow_tickets n d (t ∷ ts) h = (omega arith, grow_tickets n d ts h.1)

pub grow_payments :
    (n d : ℕ) (ps : List Payment)
    → All (λ (p : Payment). p.order_id < n) ps
    → All (λ (p : Payment). p.order_id < n + d) ps
grow_payments n d [] h = tt
grow_payments n d (p ∷ ps) h = (omega arith, grow_payments n d ps h.1)

-- The transaction of a payment keeps the invariant.
pub confirm_order-IsSound :
    (env : Env) (payment_in : PaymentCreate) (pg : Pg) (o : Order)
    → IsSound pg
    → order_by_id o.id pg ≡ some o
    → o.status ≡ OrderStatus.pending
    → payment_violation pg.payments (new_payment env o payment_in pg) ≡ none
    → IsSound (confirm_order env o (new_payment env o payment_in pg) pg)
unfolding confirm_order order_by_id
confirm_order-IsSound env payment_in pg o s found pending free =
    let p : Payment = new_payment env o payment_in pg in
    record {
      orders_fit =
          All-set_order (OrderFits pg.tickets pg.payments)
            (OrderFits (validate_held o.id pg.tickets) (pg.payments ++ p ∷ [])) o confirmed_order
            pg.orders s.distinct_ids found
            (paid-OrderFits pg.tickets pg.payments o p pending refl refl refl)
            (λ q other h.
              subst (FitsFacts q) (sym (other_facts pg.tickets pg.payments o.id q.id p refl other))
                h)
            s.orders_fit;
      no_double_booking = validate_held-NoDoubleBooking o.id pg.tickets s.no_double_booking;
      no_double_charge = append-NoDoubleCharge pg.payments p s.no_double_charge free;
      distinct_ids =
          set_order-DistinctIds o.id confirmed_order pg.orders (λ q. refl) s.distinct_ids;
      orders_below =
          set_order_below (pg.next_id + 2) o.id confirmed_order pg.orders (λ q. refl)
            (grow_orders pg.next_id 2 pg.orders s.orders_below);
      tickets_below =
          validate_held_below (pg.next_id + 2) o.id pg.tickets
            (grow_tickets pg.next_id 2 pg.tickets s.tickets_below);
      payments_below =
          payment_below pg.next_id pg.payments p s.payments_below
            (found_below pg.next_id pg.orders o s.orders_below found);
    }

expired_facts :
    (of_order : ℕ → Bool) (ts : List Ticket) (ps : List Payment) (j : ℕ)
    → facts_of j (cancel_held of_order ts) ps
      ≡ record (facts_of j ts ps) { held = if of_order j then 0 else held_of j ts }
expired_facts of_order ts ps j = ground (
  arith,
  price_sum-cancel_held of_order j ts,
  seats_of-cancel_held of_order j ts,
  held_of-cancel_held of_order j ts,
  valid_of-cancel_held of_order j ts,
)

abbrev pub expired_order : Order → Order
expired_order o = record o { status = OrderStatus.expired }

pub expired_order_fits :
    (of_order : ℕ → Bool) (ts : List Ticket) (ps : List Payment) (o : Order)
    → o.status ≡ OrderStatus.pending
    → of_order o.id ≡ true
    → OrderFits ts ps o
    → OrderFits (cancel_held of_order ts) ps (expired_order o)
expired_order_fits of_order ts ps o pending chosen h =
    subst (FitsFacts (expired_order o)) (sym (expired_facts of_order ts ps o.id)) (ground arith)

pub spared-OrderFits :
    (of_order : ℕ → Bool) (ts : List Ticket) (ps : List Payment) (o : Order)
    → of_order o.id ≡ false
    → OrderFits ts ps o
    → OrderFits (cancel_held of_order ts) ps o
spared-OrderFits of_order ts ps o spared h =
    subst (FitsFacts o) (sym (expired_facts of_order ts ps o.id)) (rw spared h)

-- The transaction of a payment that comes too late keeps the invariant.
pub expire_order-IsSound :
    (env : Env) (pg : Pg) (o : Order)
    → IsSound pg
    → order_by_id o.id pg ≡ some o
    → o.status ≡ OrderStatus.pending
    → IsSound (expire_order env o pg)
unfolding expire_order order_by_id
expire_order-IsSound env pg o s found pending = record {
  orders_fit =
      All-set_order (OrderFits pg.tickets pg.payments)
        (OrderFits (cancel_held (is_order o.id) pg.tickets) pg.payments) o expired_order pg.orders
        s.distinct_ids found
        (expired_order_fits (is_order o.id) pg.tickets pg.payments o pending (ground arith))
        (λ q other h. spared-OrderFits (is_order o.id) pg.tickets pg.payments q other h)
        s.orders_fit;
  no_double_booking = cancel_held-NoDoubleBooking (is_order o.id) pg.tickets s.no_double_booking;
  no_double_charge = s.no_double_charge;
  distinct_ids = set_order-DistinctIds o.id expired_order pg.orders (λ q. refl) s.distinct_ids;
  orders_below = rw (← add-one) (
      set_order_below (pg.next_id + 1) o.id expired_order pg.orders (λ q. refl)
        (grow_orders pg.next_id 1 pg.orders s.orders_below));
  tickets_below = rw (← add-one) (
      cancel_held_below (pg.next_id + 1) (is_order o.id) pg.tickets
        (grow_tickets pg.next_id 1 pg.tickets s.tickets_below));
  payments_below = rw (← add-one) (grow_payments pg.next_id 1 pg.payments s.payments_below);
}
