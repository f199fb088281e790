-- ===== src/Mongo.antt =====
-- app/models/nosql_models.py and the writes that the services send to MongoDB: the `events`
-- collection with its seat counters and validator, and the `activity_logs` collection.
-- MongoDB itself is not in the repository. Its documented `update_one` is written out: the first
-- zone that satisfies the `$elemMatch` (or `zones.name`) is the one that `zones.$` changes.
use pruet_web_dev.Base.{
  ℕ, suc, Bool, true, false, not, ◌&&◌, Option, none, some, List, [], ◌∷◌, ◌++◌, ◌==◌,
  if◌then◌else◌,
}
use pruet_web_dev.Base.Int.{ℤ, pos, leb_ℤ}
use pruet_web_dev.Text.{Str}
use pruet_web_dev.Errors.{Exc, mongo_connection, mongo_write_error}

pub record Zone : Type 0 where
  pub name : Str
  -- in millionths of a cent
  pub price : ℕ
  pub capacity : ℕ
  pub booked_count : ℤ

pub record EventDoc : Type 0 where
  pub id : ℕ
  pub title : Str
  pub category : Str
  pub date_time : ℕ
  pub organizer_id : Option ℕ
  pub status : Str
  pub zones : List Zone

pub data Activity : Type 0 where
  hold_seats : ℕ → Str → ℕ → ℕ → Activity
  order_was_paid : ℕ → Str → ℕ → Activity
  create_event : ℕ → ℕ → Activity

-- `guarded`: the validator could be installed at startup. `calls` counts the calls made so far.
pub record Mongo : Type 0 where
  pub events : List EventDoc
  pub activity_logs : List Activity
  pub guarded : Bool
  pub calls : ℕ

-- what becomes of a call: it is answered, it never arrives, or only its answer is lost
pub data Delivery : Type 0 where
  answered lost unacknowledged : Delivery

-- EVENT_ZONES_VALIDATOR on one zone
unfoldable pub zone_in_range : Zone → Bool
zone_in_range z = leb_ℤ (pos 0) z.booked_count && leb_ℤ z.booked_count (pos z.capacity)

unfoldable pub zones_in_range : List Zone → Bool
unfolding zone_in_range
zones_in_range [] = true
zones_in_range (z ∷ zs) = zone_in_range z && zones_in_range zs

-- level "moderate": a document that was invalid already may stay so
unfoldable pub refused : Bool → List Zone → List Zone → Bool
unfolding zones_in_range
refused guarded before after = guarded && (zones_in_range before && not (zones_in_range after))

-- the first zone that passes `p` gets the counter `f` of its own; `none` if no zone passes
unfoldable pub update_zones : (Zone → Bool) → (ℤ → ℤ) → List Zone → Option (List Zone)
update_zones p f [] = none
update_zones p f (z ∷ zs) = elim (p z) [
  | true ↦ some (record z { booked_count = f z.booked_count } ∷ zs)
  | false ↦ elim (update_zones p f zs) [ none ↦ none | some rest ↦ some (z ∷ rest) ]
]

pub data Write : Type 0 where
  modified : List EventDoc → Write
  no_match : Write
  write_error : Write

-- the document with the given `_id`, if a zone of it passes
unfoldable pub update_event : Bool → ℕ → (Zone → Bool) → (ℤ → ℤ) → List EventDoc → Write
unfolding update_zones refused
update_event guarded oid p f [] = no_match
update_event guarded oid p f (d ∷ ds) = elim (d.id == oid) [
  | true ↦ elim (update_zones p f d.zones) [
    | none ↦ no_match
    | some zs ↦
        if refused guarded d.zones zs then write_error else modified (record d { zones = zs } ∷ ds)
  ]
  | false ↦ elim (update_event guarded oid p f ds) [
    | modified rest ↦ modified (d ∷ rest)
    | no_match ↦ no_match
    | write_error ↦ write_error
  ]
]

pub data Reply : Type 0 where
  modified_count : ℕ → Reply
  raised : Exc → Reply

abbrev pub settle : Write → Mongo → Reply × Mongo
settle (modified events) m = (modified_count 1, record m { events = events })
settle no_match m = (modified_count 0, m)
settle write_error m = (raised mongo_write_error, m)

abbrev pub count_call : Mongo → Mongo
count_call m = record m { calls = suc m.calls }

-- one `update_one` over the network; the updates of the program always change the counter
unfoldable pub update_one : (ℕ → Delivery) → ℕ → (Zone → Bool) → (ℤ → ℤ) → Mongo → Reply × Mongo
update_one net oid p f m = elim (net m.calls) [
  | answered ↦ settle (update_event m.guarded oid p f m.events) (count_call m)
  | lost ↦ (raised mongo_connection, count_call m)
  | unacknowledged ↦
      (raised mongo_connection, (settle (update_event m.guarded oid p f m.events) (count_call m)).1)
]

-- telemetry: `try: insert_one(...) except Exception: pass`
unfoldable pub log_activity : (ℕ → Delivery) → Activity → Mongo → Mongo
log_activity net a m = elim (net m.calls) [
  | lost ↦ count_call m
  | _ ↦ record m { activity_logs = m.activity_logs ++ a ∷ []; calls = suc m.calls }
]
