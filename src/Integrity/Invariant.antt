-- ===== src/Integrity/Invariant.antt =====
-- The rules on orders, as an invariant of the tables.
use pruet_web_dev.Base.{ℕ, ◌+◌, ◌*◌, ◌≤◌, ◌<◌, ◌≡◌, false, List, [], ◌∷◌, ◌==◌, any, All}
use pruet_web_dev.Models.{Order, OrderStatus, Ticket, Payment, Pg}
use pruet_web_dev.Integrity.Facts.{Facts, facts_of}
use pruet_web_dev.Integrity.Seats.{NoDoubleBooking}
use pruet_web_dev.Integrity.Charges.{NoDoubleCharge}

-- what the status of an order says of its tickets and payments
abbrev pub StatusFits : OrderStatus → ℕ → Facts → Type 0
StatusFits OrderStatus.pending total f = (f.valid ≡ 0) × (f.completed ≡ 0) × (f.paid ≡ 0)
StatusFits OrderStatus.confirmed total f = (f.held ≡ 0) × (f.completed ≡ 1) × (f.paid ≡ total)
StatusFits OrderStatus.paid total f = (f.completed ≡ 1) × (f.paid ≡ total)
StatusFits OrderStatus.expired total f = (f.held ≡ 0) × (f.valid ≡ 0) × (f.completed ≡ 0)
StatusFits OrderStatus.cancelled total f = (f.held ≡ 0) × (f.valid ≡ 0) × (f.completed ≡ 0)

-- The total is the sum of the tickets' prices but for the rounding: PostgreSQL rounds each price and
-- the total to a cent, each by half a cent at most.
abbrev pub IsNear : ℕ → ℕ → ℕ → Type 0
IsNear total prices seats =
    (2 * total ≤ 2 * prices + seats + 1) × (2 * prices ≤ 2 * total + seats + 1)

-- the total is that near to the sum of the prices, and the status fits
abbrev pub OrderFits : List Ticket → List Payment → Order → Type 0
OrderFits ts ps o =
    IsNear o.total_amount (facts_of o.id ts ps).prices (facts_of o.id ts ps).seats
    × StatusFits o.status o.total_amount (facts_of o.id ts ps)

-- no two rows have one primary key
abbrev pub DistinctIds : List Order → Type 0
DistinctIds [] = Unit {0}
DistinctIds (o ∷ os) = (any (λ p. p.id == o.id) os ≡ false) × DistinctIds os

-- The invariant of the relational state. The last three fields are the foreign keys and the
-- sequence: no row refers to an id that is still to be given.
pub record IsSound (pg : Pg) : Type 0 where
  pub orders_fit : All (OrderFits pg.tickets pg.payments) pg.orders
  pub no_double_booking : NoDoubleBooking pg.tickets
  pub no_double_charge : NoDoubleCharge pg.payments
  pub distinct_ids : DistinctIds pg.orders
  pub orders_below : All (λ (o : Order). o.id < pg.next_id) pg.orders
  pub tickets_below : All (λ (t : Ticket). t.order_id < pg.next_id) pg.tickets
  pub payments_below : All (λ (p : Payment). p.order_id < pg.next_id) pg.payments
