-- ===== src/Catalog.antt =====
-- app/services/event_service.py and app/api/v1/events.py: the event catalog.
use pruet_web_dev.Base.{
  ℕ, suc, ◌+◌, ◌-◌, ◌*◌, ◌/◌, Bool, true, false, ◌&&◌, ◌||◌, Option, none, some, List, [], ◌∷◌,
  ◌++◌, map, ◌==◌, ltb, leb, length, filter, find?, take, drop, if◌then◌else◌,
}
use pruet_web_dev.Base.Int.{ℤ, pos, negsuc, ◌-ℤ◌, leb_ℤ}
use pruet_web_dev.Base.Sorting.{sort}
use pruet_web_dev.Text.{Str, text, str_eq}
use pruet_web_dev.Mongo.{Zone, EventDoc, Mongo, create_event}
use pruet_web_dev.Errors.{http_error, invalid_event_id, event_not_found}
use pruet_web_dev.Service.{Env, Result, ok, err}

-- EventSummary, without the artist and venue names
pub record EventSummary : Type 0 where
  pub id : ℕ
  pub title : Str
  pub category : Str
  pub date_time : ℕ
  pub status : Str
  pub organizer_id : Option ℕ
  pub min_price : Option ℕ
  pub seats_left : ℕ

abbrev min_of : ℕ → Option ℕ → ℕ
min_of n none = n
min_of n (some m) = if ltb n m then n else m

-- `{"$min": "$zones.price"}`: null without zones
unfoldable pub min_price : List Zone → Option ℕ
min_price [] = none
min_price (z ∷ zs) = some (min_of z.price (min_price zs))

-- `max(0, n)`
abbrev pub max_zero : ℤ → ℕ
max_zero (pos n) = n
max_zero (negsuc n) = 0

unfoldable pub seats_left : List Zone → ℕ
unfolding ◌-ℤ◌
seats_left [] = 0
seats_left (z ∷ zs) = max_zero (pos z.capacity -ℤ z.booked_count) + seats_left zs

-- EVENT_SUMMARY_PROJECT and `_format_event_summary`
unfoldable pub event_summary : EventDoc → EventSummary
unfolding min_price seats_left
event_summary d = record {
  id = d.id;
  title = d.title;
  category = d.category;
  date_time = d.date_time;
  status = d.status;
  organizer_id = d.organizer_id;
  min_price = min_price d.zones;
  seats_left = seats_left d.zones;
}

-- a text filter: an absent or empty one lets everything pass
abbrev pub text_filter : Option Str → Str → Bool
text_filter none s = true
text_filter (some []) s = true
text_filter (some (c ∷ f)) s = str_eq s (c ∷ f)

abbrev pub id_filter : Option ℕ → Option ℕ → Bool
id_filter none o = true
id_filter (some n) none = false
id_filter (some n) (some m) = m == n

abbrev pub matches : Option Str → Option Str → Option ℕ → EventDoc → Bool
matches category status organizer_id d =
    text_filter category d.category
    && (text_filter status d.status && id_filter organizer_id d.organizer_id)

abbrev pub date_lt : EventDoc → EventDoc → Bool
date_lt d e = ltb d.date_time e.date_time || (d.date_time == e.date_time) && ltb d.id e.id

-- `get_events_paginated`: one page of summaries, and the number of all matches
unfoldable pub get_events_paginated :
    ℕ → ℕ → Option Str → Option Str → Option ℕ → List EventDoc → List EventSummary × ℕ
unfolding event_summary
get_events_paginated page page_size category status organizer_id events =
    let found = filter (matches category status organizer_id) events in
    (
      map event_summary (take page_size (drop ((page - 1) * page_size) (sort date_lt found))),
      length found,
    )

-- `total_pages` of the list endpoints
unfoldable pub total_pages : ℕ → ℕ → ℕ
total_pages total page_size = if ltb 0 total then (total + page_size - 1) / page_size else 0

-- `get_event_by_id`
unfoldable pub get_event_by_id : Env → Str → List EventDoc → Result EventDoc
get_event_by_id env event_id events = elim (env.object_id event_id) [
  | none ↦ err (http_error 400 invalid_event_id)
  | some oid ↦ elim (find? (λ d. d.id == oid) events) [
    | none ↦ err (http_error 404 event_not_found)
    | some d ↦ ok d
  ]
]

-- the fields of EventCreate that the model keeps
pub record EventCreate : Type 0 where
  pub title : Str
  pub category : Str
  pub date_time : ℕ
  pub organizer_id : Option ℕ
  pub zones : List Zone

-- ZoneSchema: a name, a positive capacity, and a counter between zero and the capacity
unfoldable pub valid_zone : Zone → Bool
valid_zone z =
    ltb 0 (length z.name)
    && (leb (length z.name) 50
        && (ltb 0 z.capacity
            && (leb_ℤ (pos 0) z.booked_count && leb_ℤ z.booked_count (pos z.capacity))))

abbrev all_valid : List Zone → Bool
all_valid [] = true
all_valid (z ∷ zs) = valid_zone z && all_valid zs

-- EventCreate
unfoldable pub valid_event : EventCreate → Bool
unfolding valid_zone
valid_event e =
    leb 3 (length e.title)
    && (leb (length e.title) 200 && (ltb 0 (length e.zones) && all_valid e.zones))

abbrev pub event_doc : EventCreate → ℕ → EventDoc
event_doc e oid = record {
  id = oid;
  title = e.title;
  category = e.category;
  date_time = e.date_time;
  organizer_id = e.organizer_id;
  status = text "upcoming";
  zones = e.zones;
}

-- `create_event` behind the schema, with both inserts answered; `oid` is the id that MongoDB gives
unfoldable pub insert_event : ℕ → EventCreate → Mongo → EventDoc × Mongo
insert_event oid e m = (
  event_doc e oid,
  record m {
    events = m.events ++ event_doc e oid ∷ [];
    activity_logs = m.activity_logs ++ create_event oid (length e.zones) ∷ [];
    calls = suc (suc m.calls);
  },
)
