-- ===== src/Sync/Release.antt =====
-- app/services/order_service.py: _release_counted_seats on a network that answers, where the counters
-- hold at least the seats that are given back.
use pruet_web_dev.Base.{
  ℕ, zero, suc, ◌+◌, ◌≡◌, refl, sym, ap, ◌∙◌, Bool, true, ◌&&◌, List, [], ◌∷◌, ◌==◌, ==_iff, arith,
  All, Bool-cases, inl, inr, if◌then◌else◌,
}
use pruet_web_dev.Base.Int.{pos, ◌+ℤ◌, ◌-ℤ◌, int_laws}
use pruet_web_dev.Text.{Str, str_eq}
use pruet_web_dev.Mongo.{
  Zone, EventDoc, Mongo, Delivery, answered, Write, modified, no_match, modified_count, settle,
  count_call, zone_in_range, zones_in_range, refused, update_event, update_one,
}
use pruet_web_dev.Seats.{Reserved, named, has_booked, release_singly, release_group}
use pruet_web_dev.Seats.Updates.{AllZones, DistinctDocs}
use pruet_web_dev.Seats.Totals.{total, plus_zone, plus_zones, plus, Updated, missed, rejected, done}
use pruet_web_dev.Seats.AllOrNothing.{release-Updated, calm_update}
use pruet_web_dev.Sync.Plus.{plus-AllZones}
use pruet_web_dev.Sync.Guarded.{update_event-same, update_event-none}

-- no seat is sold
abbrev pub Unsold : ℕ → Zone → Type 0
Unsold k z = z.booked_count ≡ pos 0

module _ (r : Reserved) (rs : List Reserved) where
  lower_zone :
      (z : Zone) (t u : ℕ)
      → z.booked_count ≡ pos 0
      → zone_in_range (record z { booked_count = z.booked_count +ℤ pos (u + t) }) ≡ true
      → zone_in_range (record z { booked_count = z.booked_count +ℤ pos t }) ≡ true
  unfolding zone_in_range
  lower_zone z t u h h' = grind int_laws

  lower-zones_in_range :
      (k : ℕ) (zs : List Zone)
      → All (Unsold k) zs
      → zones_in_range (plus_zones (r ∷ rs) k zs) ≡ true
      → zones_in_range (plus_zones rs k zs) ≡ true
  unfolding zones_in_range
  lower-zones_in_range k [] h e = refl
  lower-zones_in_range k (z ∷ zs) h e =
      let rest = lower-zones_in_range k zs h.1 in
      let here =
        lower_zone z (total rs k z.name)
          (if (r.event_oid == k) && str_eq z.name r.zone_name then r.quantity else 0) h.0 in
      ground arith

  not_refused :
      (guarded : Bool) (d : EventDoc)
      → All (Unsold d.id) d.zones
      → refused guarded (plus_zones (r ∷ rs) d.id d.zones) (plus_zones rs d.id d.zones) ≡ true
      → ⊥
  unfolding refused
  not_refused guarded d h e = ground (arith, lower-zones_in_range d.id d.zones h)

  guard_passes :
      (k : ℕ) (z : Zone)
      → Unsold k z
      → k ≡ r.event_oid
      → has_booked r.zone_name r.quantity (plus_zone (r ∷ rs) k z)
        ≡ named r.zone_name (plus_zone (r ∷ rs) k z)
  guard_passes k z h e = elim (Bool-cases (str_eq z.name r.zone_name)) [
    | inr miss ↦ rw miss refl
    | inl hit ↦
        let same : (r.event_oid == k) ≡ true = (==_iff r.event_oid k).1 (sym e) in
        rw (hit, same, h) (grind int_laws)
  ]

  -- how the documents answer to the first update of a group
  pub data Given (guarded : Bool) (ds : List EventDoc) : Type 0 where
    given :
        update_event guarded r.event_oid
            (has_booked r.zone_name r.quantity)
            (λ b. b -ℤ pos r.quantity)
            (plus (r ∷ rs) ds)
          ≡ modified (plus rs ds)
        → Given guarded ds
    nowhere :
        update_event guarded r.event_oid
            (has_booked r.zone_name r.quantity)
            (λ b. b -ℤ pos r.quantity)
            (plus (r ∷ rs) ds)
          ≡ no_match
        → update_event guarded r.event_oid
            (named r.zone_name)
            (λ b. b -ℤ pos r.quantity)
            (plus (r ∷ rs) ds)
          ≡ no_match
        → plus rs ds ≡ plus (r ∷ rs) ds
        → Given guarded ds

  -- the seats are given back, or no zone of that name counts them
  release_write :
      (guarded : Bool) (ds : List EventDoc)
      → DistinctDocs ds
      → AllZones Unsold ds
      → Given guarded ds
  release_write guarded ds d h =
      by_update (release-Updated (λ e. All (Unsold e.id) e.zones) r rs ds guarded d h)
    where
      same :
          update_event guarded r.event_oid
            (has_booked r.zone_name r.quantity)
            (λ b. b -ℤ pos r.quantity)
            (plus (r ∷ rs) ds)
          ≡ update_event guarded r.event_oid
              (named r.zone_name)
              (λ b. b -ℤ pos r.quantity)
              (plus (r ∷ rs) ds)
      same =
          update_event-same (has_booked r.zone_name r.quantity) (named r.zone_name)
            (λ b. b -ℤ pos r.quantity) guarded r.event_oid (plus (r ∷ rs) ds)
            (plus-AllZones (r ∷ rs) Unsold
              (λ k z. k ≡ r.event_oid → has_booked r.zone_name r.quantity z ≡ named r.zone_name z)
              ds guard_passes h)

      by_update :
          Updated
            (r ∷ rs)
            rs
            r.event_oid
            r.zone_name
            (named r.zone_name)
            (λ b. b -ℤ pos r.quantity)
            guarded
            (λ e. All (Unsold e.id) e.zones)
            ds
          → Given guarded ds
      by_update (missed e none_seen) = nowhere (same ∙ e) e (none_seen (λ z x. x))
      by_update (rejected x e hx bad) = absurd (not_refused guarded x hx bad)
      by_update (done e) = given (same ∙ e)

module _ (net : ℕ → Delivery) (calm : (n : ℕ) → net n ≡ answered) where
  single_missed :
      (oid : ℕ) (name : Str) (n : ℕ) (m m' : Mongo)
      → update_one net oid (has_booked name 1) (λ b. b -ℤ pos 1) m ≡ (modified_count 0, m')
      → release_singly net oid name (suc n) m ≡ release_singly net oid name n m'
  unfolding release_singly
  single_missed oid name n m m' e = ground arith

  -- where nothing matches, giving back one by one changes nothing
  release_singly-events :
      (oid : ℕ) (name : Str) (q n : ℕ) (m : Mongo)
      → update_event m.guarded oid (named name) (λ b. b -ℤ pos q) m.events ≡ no_match
      → (release_singly net oid name n m).events ≡ m.events
  release_singly-events oid name q zero m e = unfold release_singly in refl
  release_singly-events oid name q (suc n) m e =
      let later = release_singly-events oid name q n (count_call m) e in
      let single =
        calm_update net calm oid (has_booked name 1) (λ b. b -ℤ pos 1) m
        ∙ ap (λ w. settle w (count_call m))
            (update_event-none (named name) (has_booked name 1) (λ b. b -ℤ pos q) (λ b. b -ℤ pos 1)
              (λ z h. ground arith) m.guarded oid m.events e) in
      ap (λ (x : Mongo). x.events) (single_missed oid name n m (count_call m) single) ∙ later

  group_step :
      (oid : ℕ) (name : Str) (n : ℕ) (m : Mongo) (w : Write)
      → update_event m.guarded oid (has_booked name n) (λ b. b -ℤ pos n) m.events ≡ w
      → update_one net oid (has_booked name n) (λ b. b -ℤ pos n) m ≡ settle w (count_call m)
  group_step oid name n m w e =
      calm_update net calm oid (has_booked name n) (λ b. b -ℤ pos n) m
      ∙ ap (λ x. settle x (count_call m)) e

  group_done :
      (oid : ℕ) (name : Str) (n : ℕ) (m m' : Mongo)
      → update_one net oid (has_booked name n) (λ b. b -ℤ pos n) m ≡ (modified_count 1, m')
      → release_group net oid name n m ≡ m'
  unfolding release_group
  group_done oid name n m m' e = ground arith

  group_missed :
      (oid : ℕ) (name : Str) (n : ℕ) (m m' : Mongo)
      → update_one net oid (has_booked name n) (λ b. b -ℤ pos n) m ≡ (modified_count 0, m')
      → release_group net oid name n m ≡ release_singly net oid name n m'
  unfolding release_group
  group_missed oid name n m m' e = ground arith

  pub group_events :
      (r : Reserved) (rs : List Reserved) (ds : List EventDoc) (m : Mongo)
      → DistinctDocs ds
      → AllZones Unsold ds
      → m.events ≡ plus (r ∷ rs) ds
      → (release_group net r.event_oid r.zone_name r.quantity m).events ≡ plus rs ds
  group_events r rs ds m d h e = by_write (release_write r rs m.guarded ds d h)
    where
      asked :
          (p : Zone → Bool) {w : Write}
          → update_event m.guarded r.event_oid p (λ b. b -ℤ pos r.quantity) (plus (r ∷ rs) ds) ≡ w
          → update_event m.guarded r.event_oid p (λ b. b -ℤ pos r.quantity) m.events ≡ w
      asked p x = ap (update_event m.guarded r.event_oid p (λ b. b -ℤ pos r.quantity)) e ∙ x

      by_write :
          Given r rs m.guarded ds
          → (release_group net r.event_oid r.zone_name r.quantity m).events ≡ plus rs ds
      by_write (given x) =
          ap (λ (y : Mongo). y.events)
            (group_done r.event_oid r.zone_name r.quantity m _ (
              group_step r.event_oid r.zone_name r.quantity m _
                (asked (has_booked r.zone_name r.quantity) x)))
      by_write (nowhere x y same) =
          ap (λ (z : Mongo). z.events)
            (group_missed r.event_oid r.zone_name r.quantity m (count_call m) (
              group_step r.event_oid r.zone_name r.quantity m _
                (asked (has_booked r.zone_name r.quantity) x)))
          ∙ release_singly-events r.event_oid r.zone_name r.quantity r.quantity (count_call m)
              (asked (named r.zone_name) y)
          ∙ e
          ∙ sym same
