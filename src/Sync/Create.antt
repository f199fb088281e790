-- ===== src/Sync/Create.antt =====
-- app/services/order_service.py: create_order_dual_db as a whole, the seat counters beside the tickets.
use pruet_web_dev.Base.{none, ℕ, ◌≡◌, subst, sym, ap, ◌∙◌, Option, List, [], map, All, inl, inr}
use pruet_web_dev.Base.SortingLaws.{All-sort}
use pruet_web_dev.Text.{Str}
use pruet_web_dev.Models.{Order, Pg}
use pruet_web_dev.Mongo.{answered}
use pruet_web_dev.Service.{World, Env, IsBson, Result, ok}
use pruet_web_dev.Seats.{Reserved, reserved_of}
use pruet_web_dev.Seats.Updates.{DistinctDocs}
use pruet_web_dev.Seats.Capacity.{NoOversell}
use pruet_web_dev.Seats.AllOrNothing.{InRange, Settled, reserve_zones-Settled}
use pruet_web_dev.Orders.{OrderCreate}
use pruet_web_dev.Orders.Pricing.{ValidatedItem, validate_items, lock_order, collect_requests}
use pruet_web_dev.Orders.Create.{place_order, read_events, reserve_seats, create_order_dual_db}
use pruet_web_dev.Orders.Phases.{
  Phase, unread, invalid, unreserved, placed, phase_of, checked, pg-read_events, pg-reserve_seats,
}
use pruet_web_dev.Orders.NoOversell.{read_events-events, create_order_dual_db-NoOversell}
use pruet_web_dev.Sync.{IsSynced}
use pruet_web_dev.Sync.Requests.{HasId, validate_items-HasId}
use pruet_web_dev.Sync.Cleared.{counted-InRange}
use pruet_web_dev.Sync.Orders.{same-IsSynced, place_order-IsSynced}

pub lock_order-HasId :
    (env : Env) (items : List ValidatedItem)
    → All (HasId env) items
    → All (HasId env) (lock_order items)
unfolding lock_order
lock_order-HasId env items h = All-sort _ (HasId env) items h

reserve_seats-Settled :
    (env : Env) (items : List ValidatedItem) (v : World)
    → ((n : ℕ) → env.net n ≡ answered)
    → DistinctDocs v.mongo.events
    → All InRange v.mongo.events
    → Settled v.mongo.events
        (map (reserved_of env.net) (collect_requests items []))
        ((reserve_seats env items v).0, (reserve_seats env items v).1.mongo)
unfolding reserve_seats
reserve_seats-Settled env items v calm d h =
    reserve_zones-Settled env.net (collect_requests items []) v.mongo calm d h

module _ (env : Env) (heard : env.late_fault ≡ none) (calm : (n : ℕ) → env.net n ≡ answered)
    (bson : IsBson env) (order_in : OrderCreate) (key : Option Str) (w : World)
    (s : IsSynced env.object_id w) where
  read-IsSynced :
      {r : Result (Unit {0})} (v : World)
      → read_events env order_in.items w ≡ (r, v)
      → (v.pg ≡ w.pg) × (IsSynced env.object_id v)
  read-IsSynced v e =
      let rows : v.pg ≡ w.pg =
        sym (ap (λ (x : Result (Unit {0}) × World). x.1.pg) e)
        ∙ pg-read_events env order_in key w in
      let docs : v.mongo.events ≡ w.mongo.events =
        sym (ap (λ (x : Result (Unit {0}) × World). x.1.mongo.events) e)
        ∙ read_events-events env order_in.items w in
      (rows, same-IsSynced env.object_id w v s (ap (λ (x : Pg). x.tickets) rows) docs)

  -- how the reservation leaves the two databases
  reserved_rows :
      {r : Result (List Reserved)} (v v' : World) (items : List ValidatedItem)
      → reserve_seats env items v ≡ (r, v')
      → v'.pg ≡ v.pg
  reserved_rows v v' items e =
      sym (ap (λ (x : Result (List Reserved) × World). x.1.pg) e)
      ∙ pg-reserve_seats env order_in key v items

  reserved_docs :
      {r : Result (List Reserved)} (v v' : World) (items : List ValidatedItem)
      → IsSynced env.object_id v
      → reserve_seats env items v ≡ (r, v')
      → Settled v.mongo.events (map (reserved_of env.net) (collect_requests items [])) (r, v'.mongo)
  reserved_docs v v' items t e =
      subst
        (λ (x : Result (List Reserved) × World).
          Settled v.mongo.events (map (reserved_of env.net) (collect_requests items []))
            (x.0, x.1.mongo))
        e
        (reserve_seats-Settled env items v calm t.distinct
          (counted-InRange env.object_id v.pg.tickets v.mongo.events t.counted t.no_oversell))

  placed-IsSynced :
      (v v' : World) (items : List ValidatedItem) (reserved : List Reserved)
      → read_events env order_in.items w ≡ (ok tt, v)
      → validate_items env v.mongo.events order_in.items ≡ ok items
      → reserve_seats env (lock_order items) v ≡ (ok reserved, v')
      → NoOversell [] (place_order env order_in key (lock_order items) reserved v').1.mongo
      → IsSynced env.object_id (place_order env order_in key (lock_order items) reserved v').1
  placed-IsSynced v v' items reserved hr hv hs fits =
      let (rows, t) = read-IsSynced v hr in
      let (all, docs) = reserved_docs v v' (lock_order items) t hs in
      subst
        (λ (rs : List Reserved).
          IsSynced env.object_id (place_order env order_in key (lock_order items) rs v').1)
        (sym all)
        (place_order-IsSynced env heard calm bson order_in key v t (lock_order items) v'
          (lock_order-HasId env items
            (validate_items-HasId env v.mongo.events order_in.items items hv))
          (reserved_rows v v' (lock_order items) hs) docs
          (subst
            (λ (rs : List Reserved).
              NoOversell [] (place_order env order_in key (lock_order items) rs v').1.mongo)
            all fits))

  by_phase :
      {final : Result Order × World}
      → Phase env order_in key w final
      → NoOversell [] final.1.mongo
      → IsSynced env.object_id final.1
  by_phase (unread e v hr hf) fits = rw hf (read-IsSynced v hr).1
  by_phase (invalid e v hr hv hf) fits = rw hf (read-IsSynced v hr).1
  by_phase (unreserved e v v' items hr hv hs hf) fits =
      let (rows, t) = read-IsSynced v hr in
      rw hf (
        same-IsSynced env.object_id v v' t
          (ap (λ (x : Pg). x.tickets) (reserved_rows v v' (lock_order items) hs))
          (reserved_docs v v' (lock_order items) t hs))
  by_phase (placed v v' items reserved hr hv hs hf) fits = rw hf (
      placed-IsSynced v v' items reserved hr hv hs
        (subst (λ (x : Result Order × World). NoOversell [] x.1.mongo) hf fits))

-- On a network that answers every call, if bson reads the ids that it prints and the driver raises
-- nothing behind a commit, creating an order keeps the two databases synchronised: every seat
-- counter of MongoDB is the number of active tickets of its zone in PostgreSQL, no zone is
-- oversold and documents and zones stay distinct, whether the order is accepted, refused, or
-- undone after a failure of PostgreSQL before the commit.
pub create_order_dual_db-IsSynced :
    (env : Env) (order_in : OrderCreate) (key : Option Str) (w : World)
    → env.late_fault ≡ none
    → ((n : ℕ) → env.net n ≡ answered)
    → IsBson env
    → IsSynced env.object_id w
    → IsSynced env.object_id (create_order_dual_db env order_in key w).1
create_order_dual_db-IsSynced env order_in key w heard calm bson s =
    elim (checked env order_in key w) [
      | inl same ↦ rw same s
      | inr handed ↦ rw handed (
          by_phase env heard calm bson order_in key w s (phase_of env order_in key w) (
            subst (λ (x : Result Order × World). NoOversell [] x.1.mongo) handed
              (create_order_dual_db-NoOversell env order_in key w s.distinct s.no_oversell)))
    ]
