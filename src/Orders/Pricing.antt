-- ===== src/Orders/Pricing.antt =====
-- Step 2 of `create_order_dual_db`: every item is matched with its event and zone, takes its price
-- from there, and the items are put into the one global seat order and counted per zone.
use pruet_web_dev.Base.{
  ℕ, ◌+◌, Bool, ◌&&◌, ◌||◌, Option, none, some, List, [], ◌∷◌, ◌==◌, find?, if◌then◌else◌,
}
use pruet_web_dev.Base.Sorting.{sort}
use pruet_web_dev.Text.{Str, str_eq, str_lt, clean, or_empty}
use pruet_web_dev.Mongo.{Zone, EventDoc}
use pruet_web_dev.Errors.{http_error, invalid_event_id, event_not_found, zone_does_not_exist}
use pruet_web_dev.Service.{Env, Result, ok, err}
use pruet_web_dev.Orders.{TicketItem, zone_key}
use pruet_web_dev.Seats.{ZoneRequest}

-- an entry of `validated_items`
pub record ValidatedItem : Type 0 where
  pub event_id : Str
  pub event_oid : ℕ
  pub event_title : Str
  pub seat_zone : Str
  pub seat_number : Option Str
  -- `Decimal(str(price))`, in the unit of the catalog
  pub price : ℕ
  pub capacity : ℕ

unfoldable pub match_zone : Str → List Zone → Option Zone
match_zone seat_zone zones = find? (λ z. str_eq (zone_key z.name) (zone_key seat_zone)) zones

abbrev pub event_of : ℕ → List EventDoc → Option EventDoc
event_of oid events = find? (λ d. d.id == oid) events

abbrev pub validated : Env → TicketItem → ℕ → EventDoc → Zone → ValidatedItem
validated env item oid d z = record {
  event_id = env.hex oid;
  event_oid = oid;
  event_title = d.title;
  seat_zone = z.name;
  seat_number = clean item.seat_number;
  price = z.price;
  capacity = z.capacity;
}

-- the body of the validation loop
unfoldable pub validate_item : Env → List EventDoc → TicketItem → Result ValidatedItem
unfolding clean match_zone
validate_item env events item = elim (env.object_id item.event_id) [
  | none ↦ err (http_error 400 invalid_event_id)
  | some oid ↦ elim (event_of oid events) [
    | none ↦ err (http_error 404 event_not_found)
    | some d ↦ elim (match_zone item.seat_zone d.zones) [
      | none ↦ err (http_error 400 zone_does_not_exist)
      | some z ↦ ok (validated env item oid d z)
    ]
  ]
]

-- the loop, which stops at the first item that is refused
unfoldable pub validate_items : Env → List EventDoc → List TicketItem → Result (List ValidatedItem)
unfolding validate_item
validate_items env events [] = ok []
validate_items env events (i ∷ is) = elim (validate_item env events i) [
  | err e ↦ err e
  | ok v ↦ elim (validate_items env events is) [ err e ↦ err e | ok vs ↦ ok (v ∷ vs) ]
]

-- `total_amount += authoritative_price`, which is not rounded
abbrev pub total_price : List ValidatedItem → ℕ
total_price [] = 0
total_price (v ∷ vs) = v.price + total_price vs

-- `<` on `_lock_order_key`: event, zone, then seat
unfoldable pub lock_order_lt : ValidatedItem → ValidatedItem → Bool
lock_order_lt v w =
    str_lt v.event_id w.event_id
    || str_eq v.event_id w.event_id
      && (str_lt v.seat_zone w.seat_zone
          || str_eq v.seat_zone w.seat_zone
            && str_lt (or_empty v.seat_number) (or_empty w.seat_number))

unfoldable pub lock_order : List ValidatedItem → List ValidatedItem
unfolding lock_order_lt
lock_order = sort lock_order_lt

abbrev pub same_zone : ValidatedItem → ZoneRequest → Bool
same_zone v r = (r.event_oid == v.event_oid) && str_eq r.zone_name v.seat_zone

abbrev pub first_request : ValidatedItem → ZoneRequest
first_request v = record {
  event_oid = v.event_oid;
  zone_name = v.seat_zone;
  quantity = 1;
  capacity = v.capacity;
  title = v.event_title;
}

-- `zone_requests.setdefault(key, ...)["quantity"] += 1`
unfoldable pub add_request : ValidatedItem → List ZoneRequest → List ZoneRequest
add_request v [] = first_request v ∷ []
add_request v (r ∷ rs) =
    if same_zone v r then record r { quantity = r.quantity + 1 } ∷ rs else r ∷ add_request v rs

-- the loop that fills `zone_requests`, a dict in insertion order
unfoldable pub collect_requests : List ValidatedItem → List ZoneRequest → List ZoneRequest
unfolding add_request
collect_requests [] rs = rs
collect_requests (v ∷ vs) rs = collect_requests vs (add_request v rs)
