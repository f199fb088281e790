-- ===== src/Seats/Updates.antt =====
-- What every `update_one` of a seat counter keeps: a property of all zones that the change of one
-- counter keeps, where its guard passes.
use pruet_web_dev.Base.{
  ℕ, ◌≡◌, subst, sym, Bool, true, false, Option, none, some, List, [], ◌∷◌, ◌==◌, ==_iff, arith,
  All, Bool-cases, inl, inr, if◌then◌else◌,
}
use pruet_web_dev.Base.Int.{ℤ}
use pruet_web_dev.Base.Distinct.{Distinct}
use pruet_web_dev.Text.{str_eq}
use pruet_web_dev.Errors.{mongo_connection}
use pruet_web_dev.Mongo.{
  Zone, EventDoc, Mongo, Delivery, answered, lost, unacknowledged, Write, modified, no_match,
  write_error, Reply, raised, settle, count_call, refused, update_zones, update_event, update_one,
}

-- a property of zones, by the id of the event
abbrev pub AllZones : (ℕ → Zone → Type 0) → List EventDoc → Type 0
AllZones P = All (λ (d : EventDoc). All (P d.id) d.zones)

abbrev pub same_id : EventDoc → EventDoc → Bool
same_id e d = e.id == d.id

abbrev pub same_name : Zone → Zone → Bool
same_name y z = str_eq y.name z.name

-- no two documents have one `_id`, and no two zones of an event have one name
abbrev pub DistinctDocs : List EventDoc → Type 0
DistinctDocs ds = Distinct same_id ds × All (λ d. Distinct same_name d.zones) ds

abbrev pub with_count : (ℤ → ℤ) → Zone → Zone
with_count f z = record z { booked_count = f z.booked_count }

abbrev OnSome : (List Zone → Type 0) → Option (List Zone) → Type 0
OnSome P none = Unit {0}
OnSome P (some zs) = P zs

abbrev OnModified : (List EventDoc → Type 0) → Write → Type 0
OnModified P (modified ds) = P ds
OnModified P no_match = Unit {0}
OnModified P write_error = Unit {0}

abbrev pub behind_zone : Zone → Option (List Zone) → Option (List Zone)
behind_zone z none = none
behind_zone z (some zs) = some (z ∷ zs)

abbrev pub behind_event : EventDoc → Write → Write
behind_event d (modified ds) = modified (d ∷ ds)
behind_event d no_match = no_match
behind_event d write_error = write_error

-- the answer of the document that was asked for
abbrev pub in_event : Bool → EventDoc → List EventDoc → Option (List Zone) → Write
in_event guarded d ds none = no_match
in_event guarded d ds (some zs) =
    if refused guarded d.zones zs then write_error else modified (record d { zones = zs } ∷ ds)

module _ (p : Zone → Bool) (f : ℤ → ℤ) where
  pub update_zones_hit :
      (z : Zone) (zs : List Zone)
      → p z ≡ true
      → update_zones p f (z ∷ zs) ≡ some (with_count f z ∷ zs)
  unfolding update_zones
  update_zones_hit z zs e = ground arith

  pub update_zones_miss :
      (z : Zone) (zs : List Zone)
      → p z ≡ false
      → update_zones p f (z ∷ zs) ≡ behind_zone z (update_zones p f zs)
  unfolding update_zones
  update_zones_miss z zs e = ground arith

  pub update_event_hit :
      (guarded : Bool) (oid : ℕ) (d : EventDoc) (ds : List EventDoc)
      → (d.id == oid) ≡ true
      → update_event guarded oid p f (d ∷ ds) ≡ in_event guarded d ds (update_zones p f d.zones)
  unfolding update_event
  update_event_hit guarded oid d ds e = ground arith

  pub update_event_miss :
      (guarded : Bool) (oid : ℕ) (d : EventDoc) (ds : List EventDoc)
      → (d.id == oid) ≡ false
      → update_event guarded oid p f (d ∷ ds) ≡ behind_event d (update_event guarded oid p f ds)
  unfolding update_event
  update_event_miss guarded oid d ds e = ground arith

module _ (P : ℕ → Zone → Type 0) where
  behind_zone-All :
      (k : ℕ) (z : Zone) (o : Option (List Zone))
      → P k z
      → OnSome (All (P k)) o
      → OnSome (All (P k)) (behind_zone z o)
  behind_zone-All k z none h hs = tt
  behind_zone-All k z (some zs) h hs = (h, hs)

  behind_event-All :
      (d : EventDoc) (r : Write)
      → All (P d.id) d.zones
      → OnModified (AllZones P) r
      → OnModified (AllZones P) (behind_event d r)
  behind_event-All d (modified ds) h hs = (h, hs)
  behind_event-All d no_match h hs = tt
  behind_event-All d write_error h hs = tt

  in_event-All :
      (guarded : Bool) (d : EventDoc) (ds : List EventDoc) (o : Option (List Zone))
      → OnSome (All (P d.id)) o
      → AllZones P ds
      → OnModified (AllZones P) (in_event guarded d ds o)
  in_event-All guarded d ds none h hs = tt
  in_event-All guarded d ds (some zs) h hs = elim (Bool-cases (refused guarded d.zones zs)) [
    | inl e ↦ rw (e, OnModified) tt
    | inr e ↦ rw (e, OnModified) (h, hs)
  ]

module _ (P : ℕ → Zone → Type 0) (oid : ℕ) (p : Zone → Bool) (f : ℤ → ℤ)
    (keep : (z : Zone) → p z ≡ true → P oid z → P oid (with_count f z)) where
  update_zones-All : (zs : List Zone) → All (P oid) zs → OnSome (All (P oid)) (update_zones p f zs)
  update_zones-All [] h = unfold update_zones in tt
  update_zones-All (z ∷ zs) h = elim (Bool-cases (p z)) [
    | inl e ↦ rw (update_zones_hit p f z zs e) (keep z e h.0, h.1)
    | inr e ↦
        rw (update_zones_miss p f z zs e)
          (behind_zone-All P oid z (update_zones p f zs) h.0 (update_zones-All zs h.1))
  ]

  update_event-All :
      (guarded : Bool) (ds : List EventDoc)
      → AllZones P ds
      → OnModified (AllZones P) (update_event guarded oid p f ds)
  update_event-All guarded [] h = unfold update_event in tt
  update_event-All guarded (d ∷ ds) h = elim (Bool-cases (d.id == oid)) [
    | inl e ↦ rw (update_event_hit p f guarded oid d ds e) (
        in_event-All P guarded d ds (update_zones p f d.zones)
          (subst (λ (k : ℕ). OnSome (All (P k)) (update_zones p f d.zones))
            (sym ((==_iff d.id oid).0 e))
            (update_zones-All d.zones
              (subst (λ (k : ℕ). All (P k) d.zones) ((==_iff d.id oid).0 e) h.0)))
          h.1)
    | inr e ↦ rw (update_event_miss p f guarded oid d ds e) (
        behind_event-All P d (update_event guarded oid p f ds) h.0
          (update_event-All guarded ds h.1))
  ]

  settle-All :
      (r : Write) (m : Mongo)
      → OnModified (AllZones P) r
      → AllZones P m.events
      → AllZones P (settle r m).1.events
  settle-All (modified ds) m hr h = hr
  settle-All no_match m hr h = h
  settle-All write_error m hr h = h

  -- whatever becomes of the call
  pub update_one-AllZones :
      (net : ℕ → Delivery) (m : Mongo)
      → AllZones P m.events
      → AllZones P (update_one net oid p f m).1.events
  unfolding update_one
  update_one-AllZones net m h = delivered (net m.calls)
    where
      done : AllZones P (settle (update_event m.guarded oid p f m.events) (count_call m)).1.events
      done =
          settle-All (update_event m.guarded oid p f m.events) (count_call m)
            (update_event-All m.guarded m.events h) h

      delivered :
          (d : Delivery)
          → AllZones P
              (elim d as (λ _. Reply × Mongo) [
                | answered ↦ settle (update_event m.guarded oid p f m.events) (count_call m)
                | lost ↦ (raised mongo_connection, count_call m)
                | unacknowledged ↦ (
                  raised mongo_connection,
                  (settle (update_event m.guarded oid p f m.events) (count_call m)).1,
                )
              ]).1.events
      delivered answered = done
      delivered lost = h
      delivered unacknowledged = done
