-- ===== src/Seats/AllOrNothing.antt =====
-- app/services/order_service.py: the reservation loop of create_order_dual_db with
-- _release_reservations, on a network that answers.
use pruet_web_dev.Base.{
  ℕ, suc, ◌+◌, ◌≡◌, refl, subst, sym, ap, ◌∙◌, Bool, true, ◌&&◌, List, [], ◌∷◌, ◌++◌, map, ◌==◌,
  arith, All, if◌then◌else◌,
}
use pruet_web_dev.Base.Int.{ℤ, pos, ◌+ℤ◌, ◌-ℤ◌, int_laws}
use mathlib.Core.List.{append_assoc, append-nil}
use pruet_web_dev.Text.{str_eq}
use pruet_web_dev.Errors.{Exc, mongo_write_error, http_error, zone_sold_out}
use pruet_web_dev.Mongo.{
  Zone, EventDoc, Mongo, Delivery, answered, Write, modified_count, raised, settle, count_call,
  zone_in_range, zones_in_range, refused, update_event, update_one,
}
use pruet_web_dev.Service.{Result, ok, err}
use pruet_web_dev.Seats.{
  ZoneRequest, Reserved, named, has_room, release_reservations, reserved_of, reserve_zones,
}
use pruet_web_dev.Seats.Updates.{DistinctDocs}
use pruet_web_dev.Seats.Totals.{
  total, plus_zones, plus, plus-nil, total-append, Updated, missed, rejected, done,
  update_event_plus,
}

abbrev pub InRange : EventDoc → Type 0
InRange d = zones_in_range d.zones ≡ true

range_between :
    (z : Zone) (t u : ℕ)
    → zone_in_range z ≡ true
    → zone_in_range (record z { booked_count = z.booked_count +ℤ pos (u + t) }) ≡ true
    → zone_in_range (record z { booked_count = z.booked_count +ℤ pos t }) ≡ true
unfolding zone_in_range
range_between z t u h h' = grind int_laws

-- counters between two that are in range are in range
between :
    (r : Reserved) (rs : List Reserved) (k : ℕ) (zs : List Zone)
    → zones_in_range zs ≡ true
    → zones_in_range (plus_zones (r ∷ rs) k zs) ≡ true
    → zones_in_range (plus_zones rs k zs) ≡ true
unfolding zones_in_range
between r rs k [] h h' = refl
between r rs k (z ∷ zs) h h' = ground (
  arith,
  range_between z (total rs k z.name)
      (if (r.event_oid == k) && str_eq z.name r.zone_name then r.quantity else 0),
  between r rs k zs,
)

not_refused :
    (r : Reserved) (rs : List Reserved) (guarded : Bool) (d : EventDoc)
    → InRange d
    → refused guarded (plus_zones (r ∷ rs) d.id d.zones) (plus_zones rs d.id d.zones) ≡ true
    → ⊥
unfolding refused
not_refused r rs guarded d h e = ground (arith, between r rs d.id d.zones)

pub release-Updated :
    (P : EventDoc → Type 0) (r : Reserved) (rs : List Reserved) (ds : List EventDoc)
    (guarded : Bool)
    → DistinctDocs ds
    → All P ds
    → Updated
        (r ∷ rs)
        rs
        r.event_oid
        r.zone_name
        (named r.zone_name)
        (λ b. b -ℤ pos r.quantity)
        guarded
        P
        ds
release-Updated P r rs ds guarded d h =
    update_event_plus (r ∷ rs) rs r.event_oid r.zone_name (named r.zone_name)
      (λ b. b -ℤ pos r.quantity) (λ z e. e) (λ n e. ground arith) (λ k n e. ground arith)
      (λ b n e. grind (arith, int_laws)) guarded P ds d h

-- all is taken, or nothing has changed
abbrev pub Settled : List EventDoc → List Reserved → Result (List Reserved) × Mongo → Type 0
Settled ds wanted (ok reserved, m) = (reserved ≡ wanted) × (m.events ≡ plus wanted ds)
Settled ds wanted (err e, m) = m.events ≡ ds

module _ (net : ℕ → Delivery) (calm : (n : ℕ) → net n ≡ answered) where
  pub calm_update :
      (oid : ℕ) (p : Zone → Bool) (f : ℤ → ℤ) (m : Mongo)
      → update_one net oid p f m ≡ settle (update_event m.guarded oid p f m.events) (count_call m)
  unfolding update_one
  calm_update oid p f m = ground (arith, calm m.calls)

  release_step :
      (r : Reserved) (rs : List Reserved) (ds : List EventDoc) (m : Mongo)
      → DistinctDocs ds
      → All InRange ds
      → m.events ≡ plus (r ∷ rs) ds
      → (update_one net r.event_oid (named r.zone_name) (λ b. b -ℤ pos r.quantity) m).1.events
        ≡ plus rs ds
  release_step r rs ds m d h e =
      rw (calm_update r.event_oid (named r.zone_name) (λ b. b -ℤ pos r.quantity) m) (
        rw
          (ap (update_event m.guarded r.event_oid (named r.zone_name) (λ b. b -ℤ pos r.quantity)) e)
          (settled (release-Updated InRange r rs ds m.guarded d h)))
    where
      settled :
          Updated
            (r ∷ rs)
            rs
            r.event_oid
            r.zone_name
            (named r.zone_name)
            (λ b. b -ℤ pos r.quantity)
            m.guarded
            InRange
            ds
          → (settle
              (update_event m.guarded r.event_oid
                (named r.zone_name)
                (λ b. b -ℤ pos r.quantity)
                (plus (r ∷ rs) ds))
              (count_call m)).1.events
            ≡ plus rs ds
      settled (missed e' same) = rw e' (e ∙ sym (same (λ z x. x)))
      settled (rejected x e' hx bad) = absurd (not_refused r rs m.guarded x hx bad)
      settled (done e') = rw e' refl

  -- giving back what was reserved gives the documents as they were
  pub release_undoes :
      (rs : List Reserved) (ds : List EventDoc) (m : Mongo)
      → DistinctDocs ds
      → All InRange ds
      → m.events ≡ plus rs ds
      → (release_reservations net rs m).events ≡ ds
  unfolding release_reservations
  release_undoes [] ds m d h e = e ∙ plus-nil ds
  release_undoes (r ∷ rs) ds m d h e =
      release_undoes rs ds
        (update_one net r.event_oid (named r.zone_name) (λ b. b -ℤ pos r.quantity) m).1 d h
        (release_step r rs ds m d h e)

  reserve-Updated :
      (r : ZoneRequest) (reserved : List Reserved) (ds : List EventDoc) (guarded : Bool)
      → DistinctDocs ds
      → All InRange ds
      → Updated reserved
          (reserved ++ reserved_of net r ∷ [])
          r.event_oid
          r.zone_name
          (has_room r)
          (λ b. b +ℤ pos r.quantity)
          guarded
          InRange
          ds
  reserve-Updated r reserved ds guarded d h =
      update_event_plus reserved (reserved ++ reserved_of net r ∷ []) r.event_oid r.zone_name
        (has_room r) (λ b. b +ℤ pos r.quantity) (λ z e. ground arith)
        (λ n e. ground (arith, total-append reserved (reserved_of net r ∷ []) r.event_oid n))
        (λ k n e. ground (arith, total-append reserved (reserved_of net r ∷ []) k n))
        (λ b n e.
          let taken : total (reserved ++ reserved_of net r ∷ []) r.event_oid n
              ≡ total reserved r.event_oid n + r.quantity =
            ground (arith, total-append reserved (reserved_of net r ∷ []) r.event_oid n) in
          rw taken (omega int_laws))
        guarded InRange ds d h

  reserve_raised :
      (r : ZoneRequest) (rs : List ZoneRequest) (reserved : List Reserved) (m m' : Mongo) (x : Exc)
      → update_one net r.event_oid (has_room r) (λ b. b +ℤ pos r.quantity) m ≡ (raised x, m')
      → reserve_zones net (r ∷ rs) reserved m ≡ (err x, release_reservations net reserved m')
  unfolding reserve_zones
  reserve_raised r rs reserved m m' x e = ground arith

  reserve_missed :
      (r : ZoneRequest) (rs : List ZoneRequest) (reserved : List Reserved) (m m' : Mongo)
      → update_one net r.event_oid (has_room r) (λ b. b +ℤ pos r.quantity) m
        ≡ (modified_count 0, m')
      → reserve_zones net (r ∷ rs) reserved m
        ≡ (err (http_error 409 zone_sold_out), release_reservations net reserved m')
  unfolding reserve_zones
  reserve_missed r rs reserved m m' e = ground arith

  reserve_taken :
      (r : ZoneRequest) (rs : List ZoneRequest) (reserved : List Reserved) (m m' : Mongo)
      → update_one net r.event_oid (has_room r) (λ b. b +ℤ pos r.quantity) m
        ≡ (modified_count 1, m')
      → reserve_zones net (r ∷ rs) reserved m
        ≡ reserve_zones net rs (reserved ++ reserved_of net r ∷ []) m'
  unfolding reserve_zones
  reserve_taken r rs reserved m m' e = ground arith

  reserve_from :
      (rs : List ZoneRequest) (reserved : List Reserved) (ds : List EventDoc) (m : Mongo)
      → DistinctDocs ds
      → All InRange ds
      → m.events ≡ plus reserved ds
      → Settled ds (reserved ++ map (reserved_of net) rs) (reserve_zones net rs reserved m)
  reserve_from [] reserved ds m d h e = unfold reserve_zones in rw (append-nil reserved) (refl, e)
  reserve_from (r ∷ rs) reserved ds m d h e =
      by_update (reserve-Updated r reserved ds m.guarded d h) (
        subst
          (λ (wanted : List Reserved).
            Settled ds wanted (reserve_zones net rs (reserved ++ reserved_of net r ∷ []) (taken m)))
          (append_assoc reserved (reserved_of net r ∷ []) (map (reserved_of net) rs))
          (reserve_from rs (reserved ++ reserved_of net r ∷ []) ds (taken m) d h refl))
    where
      taken : Mongo → Mongo
      taken n = record n {
        events = plus (reserved ++ reserved_of net r ∷ []) ds;
        calls = suc n.calls;
      }

      asked :
          {write : Write}
          → update_event m.guarded r.event_oid
              (has_room r)
              (λ b. b +ℤ pos r.quantity)
              (plus reserved ds)
            ≡ write
          → update_one net r.event_oid (has_room r) (λ b. b +ℤ pos r.quantity) m
            ≡ settle write (count_call m)
      asked e' =
          calm_update r.event_oid (has_room r) (λ b. b +ℤ pos r.quantity) m
          ∙ ap (λ (es : Write). settle es (count_call m))
              (ap (update_event m.guarded r.event_oid (has_room r) (λ b. b +ℤ pos r.quantity)) e
                ∙ e')

      by_update :
          Updated reserved
            (reserved ++ reserved_of net r ∷ [])
            r.event_oid
            r.zone_name
            (has_room r)
            (λ b. b +ℤ pos r.quantity)
            m.guarded
            InRange
            ds
          → Settled ds
              (reserved ++ map (reserved_of net) (r ∷ rs))
              (reserve_zones net rs (reserved ++ reserved_of net r ∷ []) (taken m))
          → Settled ds
              (reserved ++ map (reserved_of net) (r ∷ rs))
              (reserve_zones net (r ∷ rs) reserved m)
      by_update (missed e' same) rest =
          rw (reserve_missed r rs reserved m _ (asked e'))
            (release_undoes reserved ds (count_call m) d h e)
      by_update (rejected x e' hx bad) rest =
          rw (reserve_raised r rs reserved m _ mongo_write_error (asked e'))
            (release_undoes reserved ds (count_call m) d h e)
      by_update (done e') rest = rw (reserve_taken r rs reserved m _ (asked e')) rest

-- On a network that answers every call, with counters in range and distinct documents and zones, a
-- reservation either takes the seats of every request and reports them, and the counters have risen
-- by exactly these, or it raises and every document is as it was.
pub reserve_zones-Settled :
    (net : ℕ → Delivery) (rs : List ZoneRequest) (m : Mongo)
    → ((n : ℕ) → net n ≡ answered)
    → DistinctDocs m.events
    → All InRange m.events
    → Settled m.events (map (reserved_of net) rs) (reserve_zones net rs [] m)
reserve_zones-Settled net rs m calm d h =
    reserve_from net calm rs [] m.events m d h (sym (plus-nil m.events))
