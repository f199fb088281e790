-- ===== src/Integrity/Audit.antt =====
-- The PostgreSQL checks of scripts/verify_consistency.py on a database that satisfies the rules.
use pruet_web_dev.Base.{
  ℕ, ◌≡◌, refl, Bool, false, ◌&&◌, List, [], ◌∷◌, arith, ◌==◌, All, any, count, filter, length,
}
use pruet_web_dev.Models.{Order, OrderStatus, Ticket, Payment, Pg}
use pruet_web_dev.Models.Guards.{same_seat}
use pruet_web_dev.Consistency.{
  duplicate_active_seats, double_charged_orders, confirmed_without_payment, payment_amount_mismatch,
  order_total_mismatch, dead_order_with_active_tickets, ticket_state_mismatch, postgres_checks,
  contradicts,
}
use pruet_web_dev.Payments.Outcomes.{held_of}
use pruet_web_dev.Integrity.Facts.{valid_of, any_of-count-pos, any_of-count-zero, no_active_ticket}
use pruet_web_dev.Integrity.Seats.{NoDoubleBooking}
use pruet_web_dev.Integrity.Charges.{NoDoubleCharge}
use pruet_web_dev.Integrity.Invariant.{IsSound, OrderFits}

count-zero_of-any : {A : Type 0} (p : A → Bool) (xs : List A) → any p xs ≡ false → count p xs ≡ 0
count-zero_of-any p [] h = refl
count-zero_of-any p (x ∷ xs) h = ground (arith, count-zero_of-any p xs)

no_duplicates : (ts : List Ticket) → NoDoubleBooking ts → duplicate_active_seats ts ≡ []
unfolding duplicate_active_seats
no_duplicates [] h = refl
no_duplicates (t ∷ ts) h =
    ground (arith, count-zero_of-any (same_seat t) ts h.0, no_duplicates ts h.1)

no_double_charges : (ps : List Payment) → NoDoubleCharge ps → double_charged_orders ps ≡ []
unfolding double_charged_orders
no_double_charges [] h = refl
no_double_charges (p ∷ ps) h = ground (arith, h.0, no_double_charges ps h.1)

pub filter_none :
    {A : Type 0} (P : A → Type 0) (c : A → Bool) (xs : List A)
    → ((x : A) → P x → c x ≡ false)
    → All P xs
    → filter c xs ≡ []
filter_none P c [] f h = refl
filter_none P c (x ∷ xs) f h = ground (arith, f x h.0, filter_none P c xs f h.1)

-- a pending order has no valid ticket, and a confirmed one no held ticket
no_contradiction :
    (k : ℕ) (st : OrderStatus) (ts : List Ticket)
    → (st ≡ OrderStatus.pending → valid_of k ts ≡ 0)
    → (st ≡ OrderStatus.confirmed → held_of k ts ≡ 0)
    → any (λ t. (t.order_id == k) && contradicts st t.status) ts ≡ false
no_contradiction k st [] v h = refl
no_contradiction k st (t ∷ ts) v h = ground (
  arith,
  v,
  h,
  no_contradiction k st ts (λ e. fewer_valid k t ts (v e)) (λ e. fewer_held k t ts (h e)),
)
  where
    fewer_valid :
        (k : ℕ) (t : Ticket) (ts : List Ticket) → valid_of k (t ∷ ts) ≡ 0 → valid_of k ts ≡ 0
    fewer_valid k t ts e = omega arith

    fewer_held : (k : ℕ) (t : Ticket) (ts : List Ticket) → held_of k (t ∷ ts) ≡ 0 → held_of k ts ≡ 0
    fewer_held k t ts e = omega arith

module _ (pg : Pg) (s : IsSound pg) where
  abbrev Fits : Order → Type 0
  Fits = OrderFits pg.tickets pg.payments

  no_unpaid : confirmed_without_payment pg ≡ []
  unfolding confirmed_without_payment
  no_unpaid =
      filter_none Fits _ pg.orders (λ o h. ground (arith, any_of-count-pos o.id pg.payments))
        s.orders_fit

  no_wrong_amount : payment_amount_mismatch pg ≡ []
  unfolding payment_amount_mismatch
  no_wrong_amount =
      filter_none Fits _ pg.orders (λ o h. ground (arith, any_of-count-zero o.id pg.payments))
        s.orders_fit

  no_dead_order : dead_order_with_active_tickets pg ≡ []
  unfolding dead_order_with_active_tickets
  no_dead_order =
      filter_none Fits _ pg.orders (λ o h. ground (arith, no_active_ticket o.id pg.tickets))
        s.orders_fit

  no_state_mismatch : ticket_state_mismatch pg ≡ []
  unfolding ticket_state_mismatch
  no_state_mismatch =
      filter_none Fits _ pg.orders
        (λ o h. no_contradiction o.id o.status pg.tickets (λ e. ground arith) (λ e. ground arith))
        s.orders_fit

  -- a sound database passes the PostgreSQL checks, but for that of the totals, which allows no rounding
  pub postgres_checks-IsSound :
      postgres_checks pg ≡ 0 ∷ 0 ∷ 0 ∷ 0 ∷ length (order_total_mismatch pg) ∷ 0 ∷ 0 ∷ []
  postgres_checks-IsSound =
      unfold postgres_checks in
      rw
        (
          no_duplicates pg.tickets s.no_double_booking,
          no_double_charges pg.payments s.no_double_charge,
          no_unpaid,
          no_wrong_amount,
          no_dead_order,
          no_state_mismatch,
        )
        refl
