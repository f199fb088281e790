-- ===== src/Sync/Groups.antt =====
-- app/services/order_service.py: the groups that _release_counted_seats gives back.
use pruet_web_dev.Base.{
  ℕ, ◌≡◌, ap, ◌∙◌, Option, none, some, List, [], ◌∷◌, ◌++◌, arith, Option-cases, inl, inr,
}
use pruet_web_dev.Text.{Str}
use pruet_web_dev.Mongo.{EventDoc, Mongo, answered}
use pruet_web_dev.Service.{Env}
use pruet_web_dev.Seats.{Reserved, SeatGroup, release_group, release_counted_seats}
use pruet_web_dev.Seats.Updates.{AllZones, DistinctDocs}
use pruet_web_dev.Seats.Totals.{plus}
use pruet_web_dev.Sync.Release.{Unsold, group_events}

-- the groups as reservations; an id that bson refuses counts for nothing
unfoldable pub group_reserved : (Str → Option ℕ) → List SeatGroup → List Reserved
group_reserved object_id [] = []
group_reserved object_id (g ∷ gs) =
    let rest = group_reserved object_id gs in
    elim (object_id g.event_id) [
      | none ↦ rest
      | some oid ↦ record { event_oid = oid; zone_name = g.seat_zone; quantity = g.seats } ∷ rest
    ]

abbrev pub reserved_group : SeatGroup → ℕ → Reserved
reserved_group g oid = record { event_oid = oid; zone_name = g.seat_zone; quantity = g.seats }

pub group_refused :
    (object_id : Str → Option ℕ) (g : SeatGroup) (gs : List SeatGroup)
    → object_id g.event_id ≡ none
    → group_reserved object_id (g ∷ gs) ≡ group_reserved object_id gs
unfolding group_reserved
group_refused object_id g gs e = ground arith

pub group_read :
    (object_id : Str → Option ℕ) (g : SeatGroup) (gs : List SeatGroup) (oid : ℕ)
    → object_id g.event_id ≡ some oid
    → group_reserved object_id (g ∷ gs) ≡ reserved_group g oid ∷ group_reserved object_id gs
unfolding group_reserved
group_read object_id g gs oid e = ground arith

release_refused :
    (env : Env) (g : SeatGroup) (gs : List SeatGroup) (m : Mongo)
    → env.object_id g.event_id ≡ none
    → release_counted_seats env (g ∷ gs) m ≡ release_counted_seats env gs m
unfolding release_counted_seats
release_refused env g gs m e = ground arith

release_read :
    (env : Env) (g : SeatGroup) (gs : List SeatGroup) (m : Mongo) (oid : ℕ)
    → env.object_id g.event_id ≡ some oid
    → release_counted_seats env (g ∷ gs) m
      ≡ release_counted_seats env gs (release_group env.net oid g.seat_zone g.seats m)
unfolding release_counted_seats
release_read env g gs m oid e = ground arith

-- what the groups hold is given back, and the rest stays
pub release_counted_seats-events :
    (env : Env) (gs : List SeatGroup) (rs : List Reserved) (ds : List EventDoc) (m : Mongo)
    → ((n : ℕ) → env.net n ≡ answered)
    → DistinctDocs ds
    → AllZones Unsold ds
    → m.events ≡ plus (group_reserved env.object_id gs ++ rs) ds
    → (release_counted_seats env gs m).events ≡ plus rs ds
release_counted_seats-events env [] rs ds m calm d h e =
    unfold release_counted_seats group_reserved in e
release_counted_seats-events env (g ∷ gs) rs ds m calm d h e =
    elim (Option-cases (env.object_id g.event_id)) [
      | inl refused ↦
          ap (λ (x : Mongo). x.events) (release_refused env g gs m refused)
          ∙ release_counted_seats-events env gs rs ds m calm d h
              (e ∙ ap (λ x. plus (x ++ rs) ds) (group_refused env.object_id g gs refused))
      | inr (oid, read) ↦
          ap (λ (x : Mongo). x.events) (release_read env g gs m oid read)
          ∙ release_counted_seats-events env gs rs ds
              (release_group env.net oid g.seat_zone g.seats m) calm d h
              (group_events env.net calm (reserved_group g oid)
                (group_reserved env.object_id gs ++ rs) ds m d h
                (e ∙ ap (λ x. plus (x ++ rs) ds) (group_read env.object_id g gs oid read)))
    ]
