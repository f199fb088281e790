-- ===== src/Sync/Cleared.antt =====
-- Documents with their seat counters set aside.
use pruet_web_dev.Base.{ℕ, ◌≡◌, refl, subst, sym, ◌∙◌, true, Option, List, [], ◌∷◌, All, any, count}
use pruet_web_dev.Base.Int.{pos, ◌+ℤ◌, ◌≤ℤ◌, int_laws}
use pruet_web_dev.Base.Distinct.{Distinct}
use pruet_web_dev.Text.{Str}
use pruet_web_dev.Models.{Ticket}
use pruet_web_dev.Mongo.{Zone, EventDoc, zone_in_range, zones_in_range}
use pruet_web_dev.Service.{World}
use pruet_web_dev.Seats.Updates.{AllZones, DistinctDocs, same_id, same_name}
use pruet_web_dev.Seats.Capacity.{FitsAndKnown, NoOversell}
use pruet_web_dev.Seats.Totals.{total, plus_zone, plus_zones, plus}
use pruet_web_dev.Seats.AllOrNothing.{InRange}
use pruet_web_dev.Sync.{in_zone, taken, IsSynced}
use pruet_web_dev.Sync.Plus.{plus-AllZones, plus-DistinctDocs}
use pruet_web_dev.Sync.Release.{Unsold}
use pruet_web_dev.Sync.Tickets.{total-count}

-- the documents before a seat was sold
unfoldable pub clear_zones : List Zone → List Zone
clear_zones [] = []
clear_zones (z ∷ zs) = record z { booked_count = pos 0 } ∷ clear_zones zs

unfoldable pub cleared : List EventDoc → List EventDoc
unfolding clear_zones
cleared [] = []
cleared (d ∷ ds) = record d { zones = clear_zones d.zones } ∷ cleared ds

clear_zones-Unsold : (k : ℕ) (zs : List Zone) → All (Unsold k) (clear_zones zs)
unfolding clear_zones
clear_zones-Unsold k [] = tt
clear_zones-Unsold k (z ∷ zs) = (refl, clear_zones-Unsold k zs)

pub cleared-Unsold : (ds : List EventDoc) → AllZones Unsold (cleared ds)
unfolding cleared
cleared-Unsold [] = tt
cleared-Unsold (d ∷ ds) = (clear_zones-Unsold d.id d.zones, cleared-Unsold ds)

any-clear_zones :
    (z : Zone) (zs : List Zone)
    → any (λ y. same_name y z) (clear_zones zs) ≡ any (λ y. same_name y z) zs
unfolding clear_zones
any-clear_zones z [] = refl
any-clear_zones z (y ∷ zs) = rw (any-clear_zones z zs) refl

clear_zones-Distinct :
    (zs : List Zone) → Distinct same_name zs → Distinct same_name (clear_zones zs)
unfolding clear_zones
clear_zones-Distinct [] h = tt
clear_zones-Distinct (z ∷ zs) h = (any-clear_zones z zs ∙ h.0, clear_zones-Distinct zs h.1)

any-cleared :
    (d : EventDoc) (ds : List EventDoc)
    → any (λ e. same_id e d) (cleared ds) ≡ any (λ e. same_id e d) ds
unfolding cleared
any-cleared d [] = refl
any-cleared d (e ∷ ds) = rw (any-cleared d ds) refl

cleared-ids : (es : List EventDoc) → Distinct same_id es → Distinct same_id (cleared es)
unfolding cleared
cleared-ids [] h = tt
cleared-ids (e ∷ es) h = (any-cleared e es ∙ h.0, cleared-ids es h.1)

cleared-names :
    (es : List EventDoc)
    → All (λ e. Distinct same_name e.zones) es
    → All (λ e. Distinct same_name e.zones) (cleared es)
unfolding cleared
cleared-names [] h = tt
cleared-names (e ∷ es) h = (clear_zones-Distinct e.zones h.0, cleared-names es h.1)

pub cleared-DistinctDocs : (ds : List EventDoc) → DistinctDocs ds → DistinctDocs (cleared ds)
cleared-DistinctDocs ds (ids, names) = (cleared-ids ds ids, cleared-names ds names)

module _ (object_id : Str → Option ℕ) (ts : List Ticket) where
  abbrev CountedIn : ℕ → Zone → Type 0
  CountedIn k z = z.booked_count ≡ pos (count (in_zone object_id k z.name) ts)

  zones_counted :
      (k : ℕ) (zs : List Zone)
      → All (CountedIn k) zs
      → zs ≡ plus_zones (taken object_id ts) k (clear_zones zs)
  unfolding clear_zones
  zones_counted k [] h = refl
  zones_counted k (z ∷ zs) h = λ i. record z { booked_count = counter i } ∷ zones_counted k zs h.1 i
    where
      counter : z.booked_count ≡ pos 0 +ℤ pos (total (taken object_id ts) k z.name)
      counter = h.0 ∙ rw (total-count object_id k z.name ts) (omega int_laws)

  pub counted_plus :
      (ds : List EventDoc) → AllZones CountedIn ds → ds ≡ plus (taken object_id ts) (cleared ds)
  unfolding cleared
  counted_plus [] h = refl
  counted_plus (d ∷ ds) h =
      λ i. record d { zones = zones_counted d.id d.zones h.0 i } ∷ counted_plus ds h.1 i

  counter_of : (k : ℕ) (z : Zone) → Unsold k z → CountedIn k (plus_zone (taken object_id ts) k z)
  counter_of k z h = rw (total-count object_id k z.name ts, h) (omega int_laws)

  pub plus_counted :
      (ds : List EventDoc) → AllZones Unsold ds → AllZones CountedIn (plus (taken object_id ts) ds)
  plus_counted ds h = plus-AllZones (taken object_id ts) Unsold CountedIn ds counter_of h

  in_range : (k : ℕ) (z : Zone) → CountedIn k z → FitsAndKnown [] k z → zone_in_range z ≡ true
  unfolding zone_in_range
  in_range k z c (f, known) =
      let fits : pos (count (in_zone object_id k z.name) ts) ≤ℤ pos z.capacity =
        subst (λ b. b ≤ℤ pos z.capacity) c f in
      rw c (grind int_laws)

  zones-InRange :
      (k : ℕ) (zs : List Zone)
      → All (CountedIn k) zs
      → All (FitsAndKnown [] k) zs
      → zones_in_range zs ≡ true
  unfolding zones_in_range
  zones-InRange k [] c f = refl
  zones-InRange k (z ∷ zs) c f = rw (in_range k z c.0 f.0, zones-InRange k zs c.1 f.1) refl

  pub counted-InRange :
      (ds : List EventDoc) → AllZones CountedIn ds → AllZones (FitsAndKnown []) ds → All InRange ds
  counted-InRange [] c f = tt
  counted-InRange (d ∷ ds) c f = (zones-InRange d.id d.zones c.0 f.0, counted-InRange ds c.1 f.1)

-- what a synchronised world looks like from the cleared documents, and back
pub synced_plus :
    (object_id : Str → Option ℕ) (w : World)
    → IsSynced object_id w
    → w.mongo.events ≡ plus (taken object_id w.pg.tickets) (cleared w.mongo.events)
synced_plus object_id w s = counted_plus object_id w.pg.tickets w.mongo.events s.counted

pub plus-IsSynced :
    (object_id : Str → Option ℕ) (w : World) (ds : List EventDoc)
    → DistinctDocs ds
    → AllZones Unsold ds
    → NoOversell [] w.mongo
    → w.mongo.events ≡ plus (taken object_id w.pg.tickets) ds
    → IsSynced object_id w
plus-IsSynced object_id w ds d h fits e = record {
  counted =
      subst
        (AllZones (λ k z. z.booked_count ≡ pos (count (in_zone object_id k z.name) w.pg.tickets)))
        (sym e) (plus_counted object_id w.pg.tickets ds h);
  no_oversell = fits;
  distinct = subst DistinctDocs (sym e) (plus-DistinctDocs (taken object_id w.pg.tickets) ds d);
}
