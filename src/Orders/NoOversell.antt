-- ===== src/Orders/NoOversell.antt =====
-- app/services/order_service.py: the seat counters under create_order_dual_db as a whole.
use pruet_web_dev.Base.{◌≡◌, subst, sym, ap, ◌∙◌, ◌⊎◌, inl, inr, Option, List, [], All, arith}
use pruet_web_dev.Base.SortingLaws.{All-sort}
use pruet_web_dev.Base.Distinct.{All-map}
use pruet_web_dev.Text.{Str}
use pruet_web_dev.Models.{Order}
use pruet_web_dev.Mongo.{EventDoc, Mongo, Activity, log_activity}
use pruet_web_dev.Service.{World, Env, Result, ok}
use pruet_web_dev.Seats.{Reserved, release_reservations}
use pruet_web_dev.Seats.Updates.{AllZones, DistinctDocs}
use pruet_web_dev.Seats.Capacity.{
  NoOversell, Fits, FitsAndKnown, release_reservations-NoOversell, reserve_zones-NoOversell,
}
use pruet_web_dev.Orders.{OrderCreate, TicketItem}
use pruet_web_dev.Orders.Pricing.{
  ValidatedItem, validate_items, lock_order, first_request, collect_requests,
}
use pruet_web_dev.Orders.Create.{place_order, read_events, reserve_seats, create_order_dual_db}
use pruet_web_dev.Orders.Phases.{Phase, unread, invalid, unreserved, placed, phase_of, checked}
use pruet_web_dev.Orders.Capacity.{
  Informed, AllInformed, validate_items-Informed, collect_requests-Informed, Informed-NoOversell,
}

pub log_activity-events :
    (env : Env) (a : Activity) (m : Mongo) → (log_activity env.net a m).events ≡ m.events
unfolding log_activity
log_activity-events env a m = ground arith

-- the documents behind the transaction: the seats are given back, or nothing changes
place_order-documents :
    (env : Env) (order_in : OrderCreate) (key : Option Str) (items : List ValidatedItem)
    (reserved : List Reserved) (w : World)
    → let m = (place_order env order_in key items reserved w).1.mongo in
      (m ≡ release_reservations env.net reserved w.mongo) ⊎ (m.events ≡ w.mongo.events)
unfolding place_order log_activity
place_order-documents env order_in key items reserved w = ground arith

place_order-NoOversell :
    (env : Env) (order_in : OrderCreate) (key : Option Str) (items : List ValidatedItem)
    (reserved : List Reserved) (w : World)
    → NoOversell [] w.mongo
    → NoOversell [] (place_order env order_in key items reserved w).1.mongo
place_order-NoOversell env order_in key items reserved w h =
    elim (place_order-documents env order_in key items reserved w) [
      | inl same ↦ rw same (release_reservations-NoOversell env.net [] reserved w.mongo h)
      | inr same ↦ rw same h
    ]

pub read_events-events :
    (env : Env) (items : List TicketItem) (w : World)
    → (read_events env items w).1.mongo.events ≡ w.mongo.events
unfolding read_events
read_events-events env items w = ground arith

reserve_seats-NoOversell :
    (env : Env) (items : List ValidatedItem) (w : World)
    → AllInformed w.mongo.events items
    → NoOversell [] w.mongo
    → NoOversell [] (reserve_seats env items w).1.mongo
unfolding reserve_seats
reserve_seats-NoOversell env items w informed h =
    reserve_zones-NoOversell env.net (collect_requests items []) [] w.mongo (
      Informed-NoOversell w.mongo.events (collect_requests items [])
        (All-map (λ d. All (FitsAndKnown [] d.id) d.zones) (λ d. All Fits d.zones) w.mongo.events
          (λ d. All-map (FitsAndKnown [] d.id) Fits d.zones (λ z f. f.0)) h)
        (collect_requests-Informed w.mongo.events items [] informed tt))

lock_order-AllInformed :
    (events : List EventDoc) (items : List ValidatedItem)
    → AllInformed events items
    → AllInformed events (lock_order items)
unfolding lock_order
lock_order-AllInformed events items h = All-sort _ (λ v. Informed events (first_request v)) items h

-- Creating an order brings no seat counter above the capacity of its zone, whatever the request, its
-- key, the faults of the databases and the calls that are lost or unanswered, if no counter was
-- above before, no two documents have one id and no two zones of an event have one name.
pub create_order_dual_db-NoOversell :
    (env : Env) (order_in : OrderCreate) (key : Option Str) (w : World)
    → DistinctDocs w.mongo.events
    → NoOversell [] w.mongo
    → NoOversell [] (create_order_dual_db env order_in key w).1.mongo
create_order_dual_db-NoOversell env order_in key w d h = elim (checked env order_in key w) [
  | inl same ↦ rw same h
  | inr handed ↦ rw handed (by_phase (phase_of env order_in key w))
]
  where
    read_same :
        {r : Result (Unit {0})} {v : World}
        → read_events env order_in.items w ≡ (r, v)
        → w.mongo.events ≡ v.mongo.events
    read_same e =
        sym (read_events-events env order_in.items w)
        ∙ ap (λ (x : Result (Unit {0}) × World). x.1.mongo.events) e

    read_keeps :
        {r : Result (Unit {0})} {v : World}
        → read_events env order_in.items w ≡ (r, v)
        → NoOversell [] v.mongo
    read_keeps e = subst (AllZones (FitsAndKnown [])) (read_same e) h

    reserve_keeps :
        {r : Result (List Reserved)} (v v' : World) (items : List ValidatedItem)
        → read_events env order_in.items w ≡ (ok tt, v)
        → validate_items env v.mongo.events order_in.items ≡ ok items
        → reserve_seats env (lock_order items) v ≡ (r, v')
        → NoOversell [] v'.mongo
    reserve_keeps v v' items hr hv hs =
        subst (λ (m : Mongo). NoOversell [] m)
          (ap (λ (x : Result (List Reserved) × World). x.1.mongo) hs)
          (reserve_seats-NoOversell env (lock_order items) v
            (lock_order-AllInformed v.mongo.events items (
              validate_items-Informed env v.mongo.events order_in.items items
                (subst DistinctDocs (read_same hr) d) hv))
            (read_keeps hr))

    by_phase :
        {final : Result Order × World}
        → Phase env order_in key w final
        → NoOversell [] final.1.mongo
    by_phase (unread e v hr hf) = rw hf (read_keeps hr)
    by_phase (invalid e v hr hv hf) = rw hf (read_keeps hr)
    by_phase (unreserved e v v' items hr hv hs hf) = rw hf (reserve_keeps v v' items hr hv hs)
    by_phase (placed v v' items reserved hr hv hs hf) = rw hf (
        place_order-NoOversell env order_in key (lock_order items) reserved v'
          (reserve_keeps v v' items hr hv hs))
