-- ===== src/Seats/Capacity.antt =====
-- app/services/order_service.py: the seat counters against the capacities of the zones, in the
-- reservation loop of create_order_dual_db, _release_reservations and _release_counted_seats.
use pruet_web_dev.Base.{
  ◌⊎◌, ℕ, zero, suc, ◌≤◌, ◌≡◌, refl, true, none, some, List, [], ◌∷◌, ◌++◌, arith, All,
  Option-cases, inl, inr,
}
use pruet_web_dev.Base.Int.{pos, ◌+ℤ◌, ◌-ℤ◌, ◌≤ℤ◌, leb_ℤ, int_laws}
use pruet_web_dev.Text.{Str}
use pruet_web_dev.Mongo.{Zone, EventDoc, Mongo, Delivery, update_one}
use pruet_web_dev.Service.{Env}
use pruet_web_dev.Seats.Updates.{AllZones, update_one-AllZones}
use pruet_web_dev.Seats.{
  ZoneRequest, Reserved, named, has_room, has_booked, release_reservations, reserve_zones,
  reserved_of, release_singly, release_group, SeatGroup, release_counted_seats,
}

-- every counter is at most the capacity of its zone
abbrev pub Fits : Zone → Type 0
Fits z = z.booked_count ≤ℤ pos z.capacity

-- the capacity that a request was given is not above that of the zone it names
abbrev pub Knows : ℕ → Zone → ZoneRequest → Type 0
Knows k z r = r.event_oid ≡ k → named r.zone_name z ≡ true → r.capacity ≤ z.capacity

abbrev pub FitsAndKnown : List ZoneRequest → ℕ → Zone → Type 0
FitsAndKnown rs k z = Fits z × All (Knows k z) rs

-- no zone is oversold, and the requests know the capacities
abbrev pub NoOversell : List ZoneRequest → Mongo → Type 0
NoOversell rs m = AllZones (FitsAndKnown rs) m.events

module _ (net : ℕ → Delivery) where
  singly_step :
      (oid : ℕ) (name : Str) (n : ℕ) (m : Mongo)
      → let m' = (update_one net oid (has_booked name 1) (λ b. b -ℤ pos 1) m).1 in
        (release_singly net oid name (suc n) m ≡ m')
        ⊎ (release_singly net oid name (suc n) m ≡ release_singly net oid name n m')
  unfolding release_singly
  singly_step oid name n m = ground arith

  group_step :
      (oid : ℕ) (name : Str) (n : ℕ) (m : Mongo)
      → let m' = (update_one net oid (has_booked name n) (λ b. b -ℤ pos n) m).1 in
        (release_group net oid name n m ≡ m')
        ⊎ (release_group net oid name n m ≡ release_singly net oid name n m')
  unfolding release_group
  group_step oid name n m = ground arith

  -- one round of the reservation: it ends and gives back, or goes on with the seats taken
  pub reserve_step :
      (r : ZoneRequest) (rs : List ZoneRequest) (reserved : List Reserved) (m : Mongo)
      → let m' = (update_one net r.event_oid (has_room r) (λ b. b +ℤ pos r.quantity) m).1 in
        ((reserve_zones net (r ∷ rs) reserved m).1 ≡ release_reservations net reserved m')
        ⊎ (reserve_zones net (r ∷ rs) reserved m
            ≡ reserve_zones net rs (reserved ++ reserved_of net r ∷ []) m')
  unfolding reserve_zones
  reserve_step r rs reserved m = ground arith

module _ (net : ℕ → Delivery) (rs : List ZoneRequest) where
  pub release_reservations-NoOversell :
      (reserved : List Reserved) (m : Mongo)
      → NoOversell rs m
      → NoOversell rs (release_reservations net reserved m)
  unfolding release_reservations
  release_reservations-NoOversell [] m h = h
  release_reservations-NoOversell (r ∷ reserved) m h = release_reservations-NoOversell reserved _ (
      update_one-AllZones (FitsAndKnown rs) r.event_oid (named r.zone_name)
        (λ b. b -ℤ pos r.quantity) (λ z e k. (omega int_laws, k.1)) net m h)

  release_singly-NoOversell :
      (oid : ℕ) (name : Str) (n : ℕ) (m : Mongo)
      → NoOversell rs m
      → NoOversell rs (release_singly net oid name n m)
  release_singly-NoOversell oid name zero m h = unfold release_singly in h
  release_singly-NoOversell oid name (suc n) m h =
      let after =
        update_one-AllZones (FitsAndKnown rs) oid (has_booked name 1) (λ b. b -ℤ pos 1)
          (λ z e k. (omega int_laws, k.1)) net m h in
      elim (singly_step net oid name n m) [
        | inl same ↦ rw same after
        | inr same ↦ rw same (release_singly-NoOversell oid name n _ after)
      ]

  release_group-NoOversell :
      (oid : ℕ) (name : Str) (n : ℕ) (m : Mongo)
      → NoOversell rs m
      → NoOversell rs (release_group net oid name n m)
  release_group-NoOversell oid name n m h =
      let after =
        update_one-AllZones (FitsAndKnown rs) oid (has_booked name n) (λ b. b -ℤ pos n)
          (λ z e k. (omega int_laws, k.1)) net m h in
      elim (group_step net oid name n m) [
        | inl same ↦ rw same after
        | inr same ↦ rw same (release_singly-NoOversell oid name n _ after)
      ]

counted_skip :
    (env : Env) (g : SeatGroup) (gs : List SeatGroup) (m : Mongo)
    → env.object_id g.event_id ≡ none
    → release_counted_seats env (g ∷ gs) m ≡ release_counted_seats env gs m
unfolding release_counted_seats
counted_skip env g gs m e = ground arith

counted_take :
    (env : Env) (g : SeatGroup) (gs : List SeatGroup) (m : Mongo) (oid : ℕ)
    → env.object_id g.event_id ≡ some oid
    → release_counted_seats env (g ∷ gs) m
      ≡ release_counted_seats env gs (release_group env.net oid g.seat_zone g.seats m)
unfolding release_counted_seats
counted_take env g gs m oid e = ground arith

-- Giving seats back never oversells a zone, whatever the network does.
pub release_counted_seats-NoOversell :
    (env : Env) (gs : List SeatGroup) (m : Mongo)
    → NoOversell [] m
    → NoOversell [] (release_counted_seats env gs m)
release_counted_seats-NoOversell env [] m h = unfold release_counted_seats in h
release_counted_seats-NoOversell env (g ∷ gs) m h = elim (Option-cases (env.object_id g.event_id)) [
  | inl e ↦ rw (counted_skip env g gs m e) (release_counted_seats-NoOversell env gs m h)
  | inr (oid, e) ↦ rw (counted_take env g gs m oid e) (
      release_counted_seats-NoOversell env gs _
        (release_group-NoOversell env.net [] oid g.seat_zone g.seats m h))
]

weaken_zones :
    (P Q : ℕ → Zone → Type 0) (ds : List EventDoc)
    → ((k : ℕ) (z : Zone) → P k z → Q k z)
    → AllZones P ds
    → AllZones Q ds
weaken_zones P Q [] f h = tt
weaken_zones P Q (d ∷ ds) f h = (zones d.zones h.0, weaken_zones P Q ds f h.1)
  where
    zones : (zs : List Zone) → All (P d.id) zs → All (Q d.id) zs
    zones [] hs = tt
    zones (z ∷ zs) hs = (f d.id z hs.0, zones zs hs.1)

-- the guard leaves room for the quantity
room :
    (r : ZoneRequest) (rs : List ZoneRequest) (z : Zone)
    → has_room r z ≡ true
    → FitsAndKnown (r ∷ rs) r.event_oid z
    → z.booked_count +ℤ pos r.quantity ≤ℤ pos z.capacity
room r rs z e k = room_sum (k.1.0 refl (ground arith)) (ground arith)
  where
    room_sum :
        r.capacity ≤ z.capacity
        → leb_ℤ z.booked_count (pos r.capacity -ℤ pos r.quantity) ≡ true
        → z.booked_count +ℤ pos r.quantity ≤ℤ pos z.capacity
    room_sum c e = grind int_laws

-- A reservation never brings a counter above the capacity of its zone, whichever of its calls and of
-- the calls that give seats back are lost or only unanswered, if the capacities that it was given
-- are those of the zones, or lower.
pub reserve_zones-NoOversell :
    (net : ℕ → Delivery) (rs : List ZoneRequest) (reserved : List Reserved) (m : Mongo)
    → NoOversell rs m
    → NoOversell [] (reserve_zones net rs reserved m).1
reserve_zones-NoOversell net [] reserved m h = unfold reserve_zones in h
reserve_zones-NoOversell net (r ∷ rs) reserved m h =
    let after =
      update_one-AllZones (FitsAndKnown (r ∷ rs)) r.event_oid (has_room r)
        (λ b. b +ℤ pos r.quantity) (λ z e k. (room r rs z e k, k.1)) net m h in
    elim (reserve_step net r rs reserved m) [
      | inl same ↦ rw same (
          weaken_zones (FitsAndKnown (r ∷ rs)) (FitsAndKnown []) _ (λ k z h. (h.0, tt))
            (release_reservations-NoOversell net (r ∷ rs) reserved _ after))
      | inr same ↦ rw same (
          reserve_zones-NoOversell net rs _ _ (
            weaken_zones (FitsAndKnown (r ∷ rs)) (FitsAndKnown rs) _ (λ k z h. (h.0, h.1.1)) after))
    ]
