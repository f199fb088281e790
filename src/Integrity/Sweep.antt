-- ===== src/Integrity/Sweep.antt =====
-- One batch of the sweeper and the rules on orders.
use pruet_web_dev.Base.{
  ℕ, ◌+◌, ◌<◌, ◌≡◌, refl, Bool, true, not, ◌&&◌, List, [], ◌∷◌, ◌==◌, arith, any, length, All,
  Bool-cases, inl, inr,
}
use pruet_web_dev.Base.Claims.{claims_only}
use pruet_web_dev.Base.SortingLaws.{All-map₂}
use pruet_web_dev.Models.{Order, OrderStatus, Ticket, Payment, Pg, is_pending}
use pruet_web_dev.Orders.Sweep.{
  overdue, expires_first, claim_overdue, claims, cancel_held, expire_orders, expire_claimed,
}
use pruet_web_dev.Integrity.Seats.{cancel_held-NoDoubleBooking}
use pruet_web_dev.Integrity.Invariant.{IsSound, OrderFits, DistinctIds}
use pruet_web_dev.Integrity.Pay.{
  expired_order_fits, spared-OrderFits, cancel_held_below, grow_orders, grow_tickets, grow_payments,
}

abbrev pub claimable : ℕ → (ℕ → Bool) → Order → Bool
claimable now locked o = is_pending o.status && (overdue now o && not (locked o.id))

-- an order whose id is claimed is pending and overdue
pub claimed_passes :
    (now : ℕ) (locked : ℕ → Bool) (n : ℕ) (os : List Order)
    → DistinctIds os
    → All
        (λ (q : Order).
          claims (claim_overdue now locked n os) q.id ≡ true → claimable now locked q ≡ true)
        os
unfolding claim_overdue
claimed_passes now locked n os d =
    claims_only (λ o. o.id) (claimable now locked) expires_first n os d

module _ (of_order : ℕ → Bool) where
  any-expire_orders :
      (j : ℕ) (os : List Order)
      → any (λ p. p.id == j) (expire_orders of_order os) ≡ any (λ p. p.id == j) os
  unfolding expire_orders
  any-expire_orders j [] = refl
  any-expire_orders j (o ∷ os) = ground (arith, any-expire_orders j os)

  expire_orders-DistinctIds :
      (os : List Order) → DistinctIds os → DistinctIds (expire_orders of_order os)
  unfolding expire_orders
  expire_orders-DistinctIds [] d = tt
  expire_orders-DistinctIds (o ∷ os) d =
      ground (arith, any-expire_orders o.id os, expire_orders-DistinctIds os d.1)

  expire_orders_below :
      (n : ℕ) (os : List Order)
      → All (λ (o : Order). o.id < n) os
      → All (λ (o : Order). o.id < n) (expire_orders of_order os)
  unfolding expire_orders
  expire_orders_below n [] h = tt
  expire_orders_below n (o ∷ os) h = ground (arith, expire_orders_below n os h.1)

  expire_orders_fit :
      (ts : List Ticket) (ps : List Payment) (os : List Order)
      → All (λ (q : Order). of_order q.id ≡ true → q.status ≡ OrderStatus.pending) os
      → All (OrderFits ts ps) os
      → All (OrderFits (cancel_held of_order ts) ps) (expire_orders of_order os)
  unfolding expire_orders
  expire_orders_fit ts ps [] p h = tt
  expire_orders_fit ts ps (o ∷ os) p h = elim (Bool-cases (of_order o.id)) [
    | inl e ↦
        rw e (expired_order_fits of_order ts ps o (p.0 e) e h.0, expire_orders_fit ts ps os p.1 h.1)
    | inr e ↦ rw e (spared-OrderFits of_order ts ps o e h.0, expire_orders_fit ts ps os p.1 h.1)
  ]

pub pending_of : (s : OrderStatus) → is_pending s ≡ true → s ≡ OrderStatus.pending
pending_of s h = ground arith

-- The transaction of a batch keeps the invariant, whatever rows other sessions hold.
pub expire_claimed-IsSound :
    (now : ℕ) (locked : ℕ → Bool) (n : ℕ) (pg : Pg)
    → IsSound pg
    → IsSound (expire_claimed now (claim_overdue now locked n pg.orders) pg)
unfolding expire_claimed
expire_claimed-IsSound now locked n pg s =
    let claimed = claim_overdue now locked n pg.orders in
    record {
      orders_fit =
          expire_orders_fit (claims claimed) pg.tickets pg.payments pg.orders
            (All-map₂ (λ (q : Order). claims claimed q.id ≡ true → claimable now locked q ≡ true)
              (λ (q : Order). claims claimed q.id ≡ true → claimable now locked q ≡ true)
              (λ (q : Order). claims claimed q.id ≡ true → q.status ≡ OrderStatus.pending) pg.orders
              (λ q h _ c. let passed = h c in pending_of q.status (ground arith))
              (claimed_passes now locked n pg.orders s.distinct_ids)
              (claimed_passes now locked n pg.orders s.distinct_ids))
            s.orders_fit;
      no_double_booking =
          cancel_held-NoDoubleBooking (claims claimed) pg.tickets s.no_double_booking;
      no_double_charge = s.no_double_charge;
      distinct_ids = expire_orders-DistinctIds (claims claimed) pg.orders s.distinct_ids;
      orders_below =
          expire_orders_below (claims claimed) (pg.next_id + length claimed) pg.orders
            (grow_orders pg.next_id (length claimed) pg.orders s.orders_below);
      tickets_below =
          cancel_held_below (pg.next_id + length claimed) (claims claimed) pg.tickets
            (grow_tickets pg.next_id (length claimed) pg.tickets s.tickets_below);
      payments_below = grow_payments pg.next_id (length claimed) pg.payments s.payments_below;
    }
