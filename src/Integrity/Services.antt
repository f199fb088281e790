-- ===== src/Integrity/Services.antt =====
-- The service calls and the rules on orders, on every path and under every fault.
use pruet_web_dev.Base.{
  ◌⊎◌, ℕ, zero, suc, ◌≡◌, refl, Bool, Option, none, some, List, [], ◌∷◌, arith, ltb, Bool-cases,
  Option-cases, inl, inr,
}
use pruet_web_dev.Base.Loops.{batches}
use pruet_web_dev.Text.{Str}
use pruet_web_dev.Models.{Order, OrderStatus, Pg}
use pruet_web_dev.Models.Guards.{Constraint, Insert, inserted, violates, payment_violation}
use pruet_web_dev.Service.{World, Env}
use pruet_web_dev.Seats.{Reserved}
use pruet_web_dev.Orders.{OrderCreate}
use pruet_web_dev.Orders.Pricing.{ValidatedItem, total_price}
use pruet_web_dev.Orders.Create.{new_order, new_tickets, insert_order, place_order}
use pruet_web_dev.Orders.Sweep.{
  claim_overdue, expire_claimed, sweep_one_batch, cleanup_expired_seat_holds,
}
use pruet_web_dev.Payments.{
  PaymentCreate, order_by_id, new_payment, confirm_order, expire_order, pay_overdue, pay_confirmed,
  process_order_payment,
}
use pruet_web_dev.Payments.Outcomes.{found_self}
use pruet_web_dev.Integrity.Invariant.{IsSound}
use pruet_web_dev.Integrity.Pay.{confirm_order-IsSound, expire_order-IsSound}
use pruet_web_dev.Integrity.Place.{insert_order-IsSound}
use pruet_web_dev.Integrity.Sweep.{expire_claimed-IsSound}

-- a transaction ends with new tables, or with the constraint that it breaks
Insert-cases :
    (r : Insert Pg) → ((pg : Pg) × (r ≡ inserted pg)) ⊎ ((c : Constraint) × (r ≡ violates c))
Insert-cases (inserted pg) = inl (pg, refl)
Insert-cases (violates c) = inr (c, refl)

module _ (env : Env) (order_in : OrderCreate) (key : Option Str) (items : List ValidatedItem)
    (reserved : List Reserved) (w : World) where
  abbrev pub placed : World
  placed = (place_order env order_in key items reserved w).1

  pub place_branches :
      (r : Insert Pg)
      → insert_order env
          (new_order env order_in key (total_price items) w.pg)
          (new_tickets env w.pg.next_id 0 items)
          w.pg
        ≡ r
      → (placed.pg ≡ w.pg) ⊎ ((r ≡ inserted placed.pg))
  unfolding place_order
  place_branches (inserted pg) e = ground arith
  place_branches (violates c) e = ground arith

  -- Placing an order keeps the invariant, whatever items were validated and whatever state the
  -- other requests have left since.
  pub place_order-IsSound : IsSound w.pg → IsSound placed.pg
  place_order-IsSound s = elim (place_branches _ refl) [
    | inl same ↦ rw same s
    | inr stored ↦ insert_order-IsSound env order_in key items w.pg placed.pg s stored
  ]

module _ (env : Env) (o : Order) (w : World) where
  pub confirmed_branches :
      (payment_in : PaymentCreate)
      → ((pay_confirmed env o payment_in w).1.pg ≡ w.pg)
        ⊎ ((payment_violation w.pg.payments (new_payment env o payment_in w.pg) ≡ none)
            × ((pay_confirmed env o payment_in w).1.pg
                ≡ confirm_order env o (new_payment env o payment_in w.pg) w.pg))
  unfolding pay_confirmed
  confirmed_branches payment_in = ground arith

  pub overdue_branches :
      ((pay_overdue env o w).1.pg ≡ w.pg) ⊎ ((pay_overdue env o w).1.pg ≡ expire_order env o w.pg)
  unfolding pay_overdue
  overdue_branches = ground arith

  pay_confirmed-IsSound :
      (payment_in : PaymentCreate)
      → order_by_id o.id w.pg ≡ some o
      → o.status ≡ OrderStatus.pending
      → IsSound w.pg
      → IsSound (pay_confirmed env o payment_in w).1.pg
  pay_confirmed-IsSound payment_in found pending s = elim (confirmed_branches payment_in) [
    | inl same ↦ rw same s
    | inr (free, same) ↦ rw same (confirm_order-IsSound env payment_in w.pg o s found pending free)
  ]

  pay_overdue-IsSound :
      order_by_id o.id w.pg ≡ some o
      → o.status ≡ OrderStatus.pending
      → IsSound w.pg
      → IsSound (pay_overdue env o w).1.pg
  pay_overdue-IsSound found pending s = elim overdue_branches [
    | inl same ↦ rw same s
    | inr same ↦ rw same (expire_order-IsSound env w.pg o s found pending)
  ]

pub pay_found :
    (env : Env) (k : ℕ) (payment_in : PaymentCreate) (w : World) (o : Order)
    → order_by_id k w.pg ≡ some o
    → ((process_order_payment env k payment_in w).1 ≡ w)
      ⊎ ((o.status ≡ OrderStatus.pending)
          × (((process_order_payment env k payment_in w).1 ≡ (pay_overdue env o w).1)
              ⊎ ((process_order_payment env k payment_in w).1
                  ≡ (pay_confirmed env o payment_in w).1)))
unfolding process_order_payment
pay_found env k payment_in w o found = ground arith

pub pay_missing :
    (env : Env) (k : ℕ) (payment_in : PaymentCreate) (w : World)
    → order_by_id k w.pg ≡ none
    → (process_order_payment env k payment_in w).1 ≡ w
unfolding process_order_payment
pay_missing env k payment_in w missing = ground arith

-- Paying keeps the invariant, on every branch.
pub process_order_payment-IsSound :
    (env : Env) (k : ℕ) (payment_in : PaymentCreate) (w : World)
    → IsSound w.pg
    → IsSound (process_order_payment env k payment_in w).1.pg
process_order_payment-IsSound env k payment_in w s = elim (Option-cases (order_by_id k w.pg)) [
  | inl missing ↦ rw (pay_missing env k payment_in w missing) s
  | inr (o, found) ↦ elim (pay_found env k payment_in w o found) [
    | inl same ↦ rw same s
    | inr (pending, inl same) ↦
        rw same (pay_overdue-IsSound env o w (found_self k w.pg o found) pending s)
    | inr (pending, inr same) ↦
        rw same (pay_confirmed-IsSound env o w payment_in (found_self k w.pg o found) pending s)
  ]
]

pub sweep_none :
    (env : Env) (locked : ℕ → Bool) (n : ℕ) (w : World)
    → claim_overdue env.now locked n w.pg.orders ≡ []
    → (sweep_one_batch env locked n w).1.pg ≡ w.pg
unfolding sweep_one_batch
sweep_none env locked n w e = ground arith

pub sweep_some :
    (env : Env) (locked : ℕ → Bool) (n : ℕ) (w : World) (o : Order) (os : List Order)
    → claim_overdue env.now locked n w.pg.orders ≡ o ∷ os
    → (sweep_one_batch env locked n w).1.pg ≡ expire_claimed env.now (o ∷ os) w.pg
unfolding sweep_one_batch
sweep_some env locked n w o os e = ground arith

-- One batch of the sweeper keeps the invariant.
pub sweep_one_batch-IsSound :
    (env : Env) (locked : ℕ → Bool) (n : ℕ) (w : World)
    → IsSound w.pg
    → IsSound (sweep_one_batch env locked n w).1.pg
sweep_one_batch-IsSound env locked n w s =
    sweep_branches (claim_overdue env.now locked n w.pg.orders) refl
  where
    sweep_branches :
        (claimed : List Order)
        → claim_overdue env.now locked n w.pg.orders ≡ claimed
        → IsSound (sweep_one_batch env locked n w).1.pg
    sweep_branches [] e = rw (sweep_none env locked n w e) s
    sweep_branches (o ∷ os) e =
        rw (sweep_some env locked n w o os e, ← e) (expire_claimed-IsSound env.now locked n w.pg s)

-- a rule for the loop: what every round keeps, the loop keeps, also if a round raises
pub batches_keep {ℓ κ} :
    {S : Type ℓ} (P : S → Type κ) (fault : ℕ → Bool) (body : S → ℕ × S) (size n : ℕ)
    → ((s : S) → P s → P (body s).1)
    → (s : S) → P s
    → P (batches fault body size n s).1
unfolding batches
batches_keep P fault body size zero keep s h = h
batches_keep P fault body size (suc n) keep s h = elim (Bool-cases (fault n)) [
  | inl e ↦ rw e h
  | inr e ↦ elim (Bool-cases (ltb (body s).0 size)) [
    | inl e' ↦ rw (e, e') (keep s h)
    | inr e' ↦ rw (e, e') (batches_keep P fault body size n keep (body s).1 (keep s h))
  ]
]

-- The clean-up of expired holds keeps the invariant, however many batches it runs and wherever the
-- database fails.
pub cleanup-IsSound :
    (env : Env) (fault locked : ℕ → Bool) (size n : ℕ) (w : World)
    → IsSound w.pg
    → IsSound (cleanup_expired_seat_holds env fault locked size n w).1.pg
unfolding cleanup_expired_seat_holds
cleanup-IsSound env fault locked size n w s =
    batches_keep (λ (v : World). IsSound v.pg) fault (sweep_one_batch env locked size) size n
      (sweep_one_batch-IsSound env locked size) w s
