-- ===== src/Sync/Plus.antt =====
-- Documents with reservations added to their counters: two lists of reservations, and what of the
-- documents they leave alone.
use pruet_web_dev.Base.{ℕ, ◌≡◌, refl, ◌∙◌, List, [], ◌∷◌, ◌++◌, All, any}
use pruet_web_dev.Base.Int.{pos, ◌+ℤ◌, int_laws}
use pruet_web_dev.Base.Distinct.{Distinct}
use pruet_web_dev.Text.{Str}
use pruet_web_dev.Mongo.{Zone, EventDoc}
use pruet_web_dev.Seats.{Reserved}
use pruet_web_dev.Seats.Updates.{AllZones, DistinctDocs, same_id, same_name}
use pruet_web_dev.Seats.Totals.{total, total-append, plus_zone, plus_zones, plus}

abbrev pub SameTotals : List Reserved → List Reserved → Type 0
SameTotals rs ss = (k : ℕ) (n : Str) → total rs k n ≡ total ss k n

module _ (rs ss : List Reserved) (same : SameTotals rs ss) where
  plus_zones-ext : (k : ℕ) (zs : List Zone) → plus_zones rs k zs ≡ plus_zones ss k zs
  plus_zones-ext k [] = refl
  plus_zones-ext k (z ∷ zs) = λ i.
      record z { booked_count = z.booked_count +ℤ pos (same k z.name i) } ∷ plus_zones-ext k zs i

  pub plus-ext : (ds : List EventDoc) → plus rs ds ≡ plus ss ds
  plus-ext [] = refl
  plus-ext (d ∷ ds) = λ i. record d { zones = plus_zones-ext d.id d.zones i } ∷ plus-ext ds i

module _ (rs ss : List Reserved) where
  plus_zones-twice :
      (k : ℕ) (zs : List Zone) → plus_zones rs k (plus_zones ss k zs) ≡ plus_zones (ss ++ rs) k zs
  plus_zones-twice k [] = refl
  plus_zones-twice k (z ∷ zs) = λ i. record z { booked_count = added z i } ∷ plus_zones-twice k zs i
    where
      added :
          (z : Zone)
          → z.booked_count +ℤ pos (total ss k z.name) +ℤ pos (total rs k z.name)
            ≡ z.booked_count +ℤ pos (total (ss ++ rs) k z.name)
      added z = rw (total-append ss rs k z.name) (omega int_laws)

  pub plus-twice : (ds : List EventDoc) → plus rs (plus ss ds) ≡ plus (ss ++ rs) ds
  plus-twice [] = refl
  plus-twice (d ∷ ds) = λ i. record d { zones = plus_zones-twice d.id d.zones i } ∷ plus-twice ds i

module _ (rs : List Reserved) where
  any-plus_zones :
      (n : Str) (k : ℕ) (zs : List Zone) (z : Zone)
      → any (λ y. same_name y z) (plus_zones rs k zs) ≡ any (λ y. same_name y z) zs
  any-plus_zones n k [] z = refl
  any-plus_zones n k (y ∷ zs) z = rw (any-plus_zones n k zs z) refl

  plus_zones-Distinct :
      (k : ℕ) (zs : List Zone) → Distinct same_name zs → Distinct same_name (plus_zones rs k zs)
  plus_zones-Distinct k [] h = tt
  plus_zones-Distinct k (z ∷ zs) h =
      (any-plus_zones z.name k zs z ∙ h.0, plus_zones-Distinct k zs h.1)

  any-plus :
      (d : EventDoc) (ds : List EventDoc)
      → any (λ e. same_id e d) (plus rs ds) ≡ any (λ e. same_id e d) ds
  any-plus d [] = refl
  any-plus d (e ∷ ds) = rw (any-plus d ds) refl

  plus-Distinct : (ds : List EventDoc) → Distinct same_id ds → Distinct same_id (plus rs ds)
  plus-Distinct [] h = tt
  plus-Distinct (d ∷ ds) h = (any-plus d ds ∙ h.0, plus-Distinct ds h.1)

  plus-names :
      (ds : List EventDoc)
      → All (λ d. Distinct same_name d.zones) ds
      → All (λ d. Distinct same_name d.zones) (plus rs ds)
  plus-names [] h = tt
  plus-names (d ∷ ds) h = (plus_zones-Distinct d.id d.zones h.0, plus-names ds h.1)

  pub plus-DistinctDocs : (ds : List EventDoc) → DistinctDocs ds → DistinctDocs (plus rs ds)
  plus-DistinctDocs ds (ids, names) = (plus-Distinct ds ids, plus-names ds names)

-- a property of the zones with their totals
pub plus-AllZones :
    (rs : List Reserved) (P Q : ℕ → Zone → Type 0) (ds : List EventDoc)
    → ((k : ℕ) (z : Zone) → P k z → Q k (plus_zone rs k z))
    → AllZones P ds
    → AllZones Q (plus rs ds)
plus-AllZones rs P Q [] f h = tt
plus-AllZones rs P Q (d ∷ ds) f h = (zones d.zones h.0, plus-AllZones rs P Q ds f h.1)
  where
    zones : (zs : List Zone) → All (P d.id) zs → All (Q d.id) (plus_zones rs d.id zs)
    zones [] hs = tt
    zones (z ∷ zs) hs = (f d.id z hs.0, zones zs hs.1)
