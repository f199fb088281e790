-- ===== src/Tests/Ledgers.antt =====
-- The ledger of a few orders.
use pruet_web_dev.Base.{refl, false, none, [], ◌∷◌, inl, arith}
use pruet_web_dev.Base.Membership.{In}
use pruet_web_dev.Text.{text}
use pruet_web_dev.Models.{Order, OrderStatus}
use pruet_web_dev.Service.{World}
use pruet_web_dev.Orders.Create.{place_order}
use pruet_web_dev.Orders.Sweep.{sweep_one_batch}
use pruet_web_dev.Payments.{process_order_payment}
use pruet_web_dev.Integrity.Invariant.{IsSound}
use pruet_web_dev.Integrity.History.{Reach, here, next, place, pay, sweep}
use pruet_web_dev.Integrity.Ledger.{ledger, booking_of, Turns}
use pruet_web_dev.Integrity.Refinement.{Reach-Turns}
use pruet_web_dev.Integrity.Settled.{Reach-settled}
use pruet_web_dev.Tests.Data.{calm, opened, wanted, booking, one_seat, full_price, pending_order}

abbrev closed_order : Order
closed_order = record pending_order {
  order_number = text "OLD";
  status = OrderStatus.expired;
  total_amount = 0;
}

abbrev closed_world : World
closed_world = record opened { pg = record opened.pg { orders = closed_order ∷ []; next_id = 4 } }

closed_world-IsSound : IsSound closed_world.pg
closed_world-IsSound = record {
  orders_fit = (((omega arith, omega arith), (refl, refl, refl)), tt);
  no_double_booking = tt;
  no_double_charge = tt;
  distinct_ids = (refl, tt);
  orders_below = (omega arith, tt);
  tickets_below = tt;
  payments_below = tt;
}

-- another order is placed and paid for, and the sweeper runs
abbrev later : World
later =
    (sweep_one_batch (calm 9000) (λ _. false) 500
      (process_order_payment (calm 1200) 4 full_price
        (place_order (calm 1000) booking none (wanted ∷ []) (one_seat ∷ []) closed_world).1).1).1

reached_later : Reach closed_world later
reached_later =
    next
      (next (next here (place (calm 1000) booking none (wanted ∷ []) (one_seat ∷ [])))
        (pay (calm 1200) 4 full_price))
      (sweep (calm 9000) (λ _. false) 500)

Reach-Turns_example : Turns (ledger closed_world.pg.orders) (ledger later.pg.orders)
Reach-Turns_example = Reach-Turns reached_later closed_world-IsSound

Reach-settled_example : In (booking_of closed_order) (ledger later.pg.orders)
Reach-settled_example =
    Reach-settled closed_order reached_later closed_world-IsSound (inl refl) refl
