-- ===== src/Seats.antt =====
-- app/services/order_service.py, the seat counters: the reservation of a whole order, and the two
-- ways in which seats are given back.
pub mod Updates
pub mod Capacity
pub mod Totals
pub mod AllOrNothing
use pruet_web_dev.Base.{ℕ, zero, suc, Bool, ◌&&◌, none, some, List, [], ◌∷◌, ◌++◌}
use pruet_web_dev.Base.Int.{pos, ◌+ℤ◌, ◌-ℤ◌, leb_ℤ}
use pruet_web_dev.Text.{Str, str_eq}
use pruet_web_dev.Errors.{http_error, zone_sold_out}
use pruet_web_dev.Mongo.{Zone, Mongo, Delivery, modified_count, raised, update_one}
use pruet_web_dev.Service.{Env, Result, ok, err}

-- an entry of `zone_requests`
pub record ZoneRequest : Type 0 where
  pub event_oid : ℕ
  pub zone_name : Str
  pub quantity : ℕ
  pub capacity : ℕ
  pub title : Str

-- an entry of `mongo_reserved`
pub record Reserved : Type 0 where
  pub event_oid : ℕ
  pub zone_name : Str
  pub quantity : ℕ

abbrev pub named : Str → Zone → Bool
named name z = str_eq z.name name

-- `booked_count: {"$lte": capacity - quantity}` in the zone of that name
abbrev pub has_room : ZoneRequest → Zone → Bool
has_room r z = named r.zone_name z && leb_ℤ z.booked_count (pos r.capacity -ℤ pos r.quantity)

abbrev pub has_booked : Str → ℕ → Zone → Bool
has_booked name n z = named name z && leb_ℤ (pos n) z.booked_count

module _ (net : ℕ → Delivery) where
  -- `_release_reservations`: a failure is logged, and the loop goes on
  unfoldable pub release_reservations : List Reserved → Mongo → Mongo
  release_reservations [] m = m
  release_reservations (r ∷ rs) m =
      release_reservations rs
        (update_one net r.event_oid (named r.zone_name) (λ b. b -ℤ pos r.quantity) m).1

  abbrev pub reserved_of : ZoneRequest → Reserved
  reserved_of r = record { event_oid = r.event_oid; zone_name = r.zone_name; quantity = r.quantity }

  -- the loop over `zone_requests`; what is in `reserved` is given back on the way out
  unfoldable pub reserve_zones :
      List ZoneRequest → List Reserved → Mongo → Result (List Reserved) × Mongo
  reserve_zones [] reserved m = (ok reserved, m)
  reserve_zones (r ∷ rs) reserved m =
      let (reply, m') = update_one net r.event_oid (has_room r) (λ b. b +ℤ pos r.quantity) m in
      elim reply [
        | raised e ↦ (err e, release_reservations reserved m')
        | modified_count zero ↦
            (err (http_error 409 zone_sold_out), release_reservations reserved m')
        | modified_count (suc n) ↦ reserve_zones rs (reserved ++ reserved_of r ∷ []) m'
      ]

  -- the fallback: one seat at a time, while the counter is above zero; an exception ends it
  unfoldable pub release_singly : ℕ → Str → ℕ → Mongo → Mongo
  release_singly oid name zero m = m
  release_singly oid name (suc n) m =
      let (reply, m') = update_one net oid (has_booked name 1) (λ b. b -ℤ pos 1) m in
      elim reply [ raised e ↦ m' | modified_count k ↦ release_singly oid name n m' ]

  -- one (event, zone) of `_release_counted_seats`
  unfoldable pub release_group : ℕ → Str → ℕ → Mongo → Mongo
  release_group oid name n m =
      let (reply, m') = update_one net oid (has_booked name n) (λ b. b -ℤ pos n) m in
      elim reply [
        | raised e ↦ m'
        | modified_count zero ↦ release_singly oid name n m'
        | modified_count (suc k) ↦ m'
      ]

-- seats per (event id, zone name), as the grouped query returns them
pub record SeatGroup : Type 0 where
  pub event_id : Str
  pub seat_zone : Str
  pub seats : ℕ

-- `_release_counted_seats`; an id that bson refuses is logged and skipped
unfoldable pub release_counted_seats : Env → List SeatGroup → Mongo → Mongo
release_counted_seats env [] m = m
release_counted_seats env (g ∷ gs) m = elim (env.object_id g.event_id) [
  | none ↦ release_counted_seats env gs m
  | some oid ↦ release_counted_seats env gs (release_group env.net oid g.seat_zone g.seats m)
]
