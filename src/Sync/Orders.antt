-- ===== src/Sync/Orders.antt =====
-- app/services/order_service.py: create_order_dual_db, the tickets it inserts and the counters it
-- raises.
use pruet_web_dev.Base.{
  none, ℕ, ◌+◌, ◌≡◌, refl, subst, sym, ap, ◌∙◌, Option, List, [], ◌∷◌, ◌++◌, map, arith, All,
  Option-cases, inl, inr, count,
}
use pruet_web_dev.Text.{Str}
use pruet_web_dev.Models.{Ticket, Pg}
use pruet_web_dev.Models.Guards.{Insert, inserted, violates}
use pruet_web_dev.Mongo.{Mongo, answered, log_activity}
use pruet_web_dev.Service.{World, Env, IsBson}
use pruet_web_dev.Seats.{Reserved, reserved_of, release_reservations}
use pruet_web_dev.Seats.Updates.{AllZones, DistinctDocs}
use pruet_web_dev.Seats.Capacity.{NoOversell, FitsAndKnown}
use pruet_web_dev.Base.Int.{pos}
use pruet_web_dev.Seats.Totals.{total, total-append, plus}
use pruet_web_dev.Seats.AllOrNothing.{InRange, release_undoes}
use pruet_web_dev.Orders.{OrderCreate}
use pruet_web_dev.Orders.Pricing.{ValidatedItem, total_price, collect_requests}
use pruet_web_dev.Orders.Create.{new_order, new_tickets, insert_order, place_order}
use pruet_web_dev.Integrity.Seats.{insert_tickets-append}
use pruet_web_dev.Integrity.Place.{insert_order_parts}
use pruet_web_dev.Sync.{in_zone, taken, IsSynced}
use pruet_web_dev.Sync.Plus.{SameTotals, plus-ext, plus-twice}
use pruet_web_dev.Sync.Tickets.{total-taken}
use pruet_web_dev.Sync.Requests.{HasId, total-collect_requests, total-new_tickets}
use pruet_web_dev.Sync.Cleared.{
  cleared, cleared-Unsold, cleared-DistinctDocs, counted-InRange, synced_plus, plus-IsSynced,
}

total-taken_append :
    (object_id : Str → Option ℕ) (k : ℕ) (n : Str) (ts us : List Ticket)
    → total (taken object_id (ts ++ us)) k n
      ≡ total (taken object_id ts) k n + total (taken object_id us) k n
total-taken_append object_id k n [] us = unfold taken in omega arith
total-taken_append object_id k n (t ∷ ts) us =
    let rest = total-taken_append object_id k n ts us in
    let whole = total-taken object_id k n t (ts ++ us) in
    let first = total-taken object_id k n t ts in omega arith

module _ (env : Env) (heard : env.late_fault ≡ none) (order_in : OrderCreate) (key : Option Str)
    (items : List ValidatedItem) (reserved : List Reserved) (w : World) where
  abbrev after : World
  after = (place_order env order_in key items reserved w).1

  -- the seats are given back and no ticket is inserted, or the order is inserted and nothing given back
  pub data Outcome : Type 0 where
    compensated :
        after.pg ≡ w.pg → after.mongo ≡ release_reservations env.net reserved w.mongo → Outcome
    stored :
        insert_order env
            (new_order env order_in key (total_price items) w.pg)
            (new_tickets env w.pg.next_id 0 items)
            w.pg
          ≡ inserted after.pg
        → after.mongo.events ≡ w.mongo.events
        → Outcome

  by_insert :
      (r : Insert Pg)
      → insert_order env
          (new_order env order_in key (total_price items) w.pg)
          (new_tickets env w.pg.next_id 0 items)
          w.pg
        ≡ r
      → Outcome
  unfolding place_order log_activity
  by_insert (inserted pg) e = elim (Option-cases env.pg_fault) [
    | inl fine ↦ stored (ground arith) (ground arith)
    | inr (x, fault) ↦ compensated (ground arith) (ground arith)
  ]
  by_insert (violates c) e = compensated (ground arith) (ground arith)

  pub outcome : Outcome
  outcome = by_insert _ refl

-- nothing that the two databases say of a seat has changed
pub same-IsSynced :
    (object_id : Str → Option ℕ) (w v : World)
    → IsSynced object_id w
    → v.pg.tickets ≡ w.pg.tickets
    → v.mongo.events ≡ w.mongo.events
    → IsSynced object_id v
same-IsSynced object_id w v s t e = record {
  counted =
      subst
        (λ es.
          AllZones (λ k z. z.booked_count ≡ pos (count (in_zone object_id k z.name) v.pg.tickets))
            es)
        (sym e)
        (subst
          (λ ts.
            AllZones (λ k z. z.booked_count ≡ pos (count (in_zone object_id k z.name) ts))
              w.mongo.events)
          (sym t) s.counted);
  no_oversell = subst (AllZones (FitsAndKnown [])) (sym e) s.no_oversell;
  distinct = subst DistinctDocs (sym e) s.distinct;
}

module _ (env : Env) (heard : env.late_fault ≡ none) (calm : (n : ℕ) → env.net n ≡ answered)
    (bson : IsBson env) (order_in : OrderCreate) (key : Option Str) (w : World)
    (s : IsSynced env.object_id w) where
  abbrev pub seats_of : List ValidatedItem → List Reserved
  seats_of items = map (reserved_of env.net) (collect_requests items [])

  in_range : All InRange w.mongo.events
  in_range = counted-InRange env.object_id w.pg.tickets w.mongo.events s.counted s.no_oversell

  -- the tickets of the order take the seats that were reserved for it
  tickets_take :
      (items : List ValidatedItem) (order_id : ℕ) (old : List Ticket)
      → All (HasId env) items
      → SameTotals
          (taken env.object_id old ++ seats_of items)
          (taken env.object_id (old ++ new_tickets env order_id 0 items))
  tickets_take items order_id old h k n =
      let sum = total-append (taken env.object_id old) (seats_of items) k n in
      let rows = total-taken_append env.object_id k n old (new_tickets env order_id 0 items) in
      let asked = total-collect_requests env k n items [] in
      let sold = total-new_tickets env k n order_id 0 items bson h in omega arith

  pub place_order-IsSynced :
      (items : List ValidatedItem) (v : World)
      → All (HasId env) items
      → v.pg ≡ w.pg
      → v.mongo.events ≡ plus (seats_of items) w.mongo.events
      → NoOversell [] (place_order env order_in key items (seats_of items) v).1.mongo
      → IsSynced env.object_id (place_order env order_in key items (seats_of items) v).1
  place_order-IsSynced items v h rows docs fits =
      elim (outcome env heard order_in key items (seats_of items) v) [
        | compensated same given ↦
            same-IsSynced env.object_id w (after env heard order_in key items (seats_of items) v) s
              (ap (λ (x : Pg). x.tickets) (same ∙ rows))
              (ap (λ (x : Mongo). x.events) given
                ∙ release_undoes env.net calm (seats_of items) w.mongo.events v.mongo s.distinct
                    in_range docs)
        | stored accepted same ↦
            let new : List Ticket = new_tickets env v.pg.next_id 0 items in
            let then : World = after env heard order_in key items (seats_of items) v in
            let parts = insert_order_parts env _ new v.pg then.pg accepted in
            let tickets : then.pg.tickets ≡ w.pg.tickets ++ new =
              insert_tickets-append v.pg.tickets new then.pg.tickets parts.1
              ∙ ap (λ (x : Pg). x.tickets ++ new) rows in
            plus-IsSynced env.object_id then (cleared w.mongo.events)
              (cleared-DistinctDocs w.mongo.events s.distinct) (cleared-Unsold w.mongo.events) fits
              (same
                ∙ docs
                ∙ ap (plus (seats_of items)) (synced_plus env.object_id w s)
                ∙ plus-twice (seats_of items) (taken env.object_id w.pg.tickets)
                    (cleared w.mongo.events)
                ∙ plus-ext (taken env.object_id w.pg.tickets ++ seats_of items)
                    (taken env.object_id (w.pg.tickets ++ new))
                    (tickets_take items v.pg.next_id w.pg.tickets h) (cleared w.mongo.events)
                ∙ ap (λ ts. plus (taken env.object_id ts) (cleared w.mongo.events)) (sym tickets))
      ]
