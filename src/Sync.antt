-- ===== src/Sync.antt =====
-- The seat counters of MongoDB beside the tickets of PostgreSQL, as app/services/order_service.py and
-- app/services/payment_service.py keep them.
pub mod Plus
pub mod Guarded
pub mod Release
pub mod Groups
pub mod Tickets
pub mod Requests
pub mod Cleared
pub mod Orders
pub mod Create
pub mod Services
pub mod Printed
pub mod Audit
pub mod History
use pruet_web_dev.Base.{
  ℕ, ◌≡◌, Bool, false, ◌&&◌, Option, none, some, List, [], ◌∷◌, ◌==◌, count, if◌then◌else◌,
}
use pruet_web_dev.Base.Int.{pos}
use pruet_web_dev.Text.{Str, str_eq}
use pruet_web_dev.Models.{Ticket, is_active}
use pruet_web_dev.Service.{World}
use pruet_web_dev.Seats.{Reserved}
use pruet_web_dev.Seats.Updates.{AllZones, DistinctDocs}
use pruet_web_dev.Seats.Capacity.{NoOversell}

module _ (object_id : Str → Option ℕ) where
  abbrev pub is_event : ℕ → Str → Bool
  is_event k raw = elim (object_id raw) [ none ↦ false | some oid ↦ oid == k ]

  -- an active ticket of a zone
  abbrev pub in_zone : ℕ → Str → Ticket → Bool
  in_zone k name t = is_active t.status && (is_event k t.event_id && str_eq name t.seat_zone)

  -- Every counter is the number of the active tickets of its zone, no zone is oversold, and no two
  -- documents have one id and no two zones of an event one name.
  pub record IsSynced (w : World) : Type 0 where
    pub counted :
        AllZones
          (λ k z. z.booked_count ≡ pos (count (in_zone k z.name) w.pg.tickets))
          w.mongo.events
    pub no_oversell : NoOversell [] w.mongo
    pub distinct : DistinctDocs w.mongo.events

  -- the seats that the active tickets take
  unfoldable pub taken : List Ticket → List Reserved
  taken [] = []
  taken (t ∷ ts) =
      let rest = taken ts in
      if is_active t.status
      then (elim (object_id t.event_id) [
        | none ↦ rest
        | some oid ↦ record { event_oid = oid; zone_name = t.seat_zone; quantity = 1 } ∷ rest
      ])
      else rest
