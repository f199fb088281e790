-- ===== src/Sync/Requests.antt =====
-- app/services/order_service.py: the seats that create_order_dual_db reserves, and the tickets that it
-- inserts.
use pruet_web_dev.Base.{
  ℕ, suc, ◌+◌, ◌≡◌, refl, subst, sym, ◌&&◌, some, List, [], ◌∷◌, map, ◌==◌, arith, All, Bool-cases,
  inl, inr, if◌then◌else◌,
}
use pruet_web_dev.Text.{Str, str_eq, str_eq_iff}
use pruet_web_dev.Models.{Ticket, TicketStatus}
use pruet_web_dev.Mongo.{EventDoc}
use pruet_web_dev.Service.{Env, IsBson, ok}
use pruet_web_dev.Seats.{ZoneRequest, reserved_of}
use pruet_web_dev.Seats.Totals.{total}
use pruet_web_dev.Orders.{TicketItem}
use pruet_web_dev.Orders.Pricing.{
  ValidatedItem, validate_items, add_request, same_zone, collect_requests,
}
use pruet_web_dev.Orders.Capacity.{validate_items_cons, validate_item-Origin}
use pruet_web_dev.Orders.Create.{to_cents, new_tickets}
use pruet_web_dev.Sync.{taken}
use pruet_web_dev.Sync.Tickets.{total-taken, seats_in-some}

-- the id that an item carries is that of its event
abbrev pub HasId : Env → ValidatedItem → Type 0
HasId env v = v.event_id ≡ env.hex v.event_oid

module _ (env : Env) (k : ℕ) (n : Str) where
  abbrev seat_of : ValidatedItem → ℕ
  seat_of v = if (v.event_oid == k) && str_eq n v.seat_zone then 1 else 0

  -- the seats of the zone among the items
  pub wanted : List ValidatedItem → ℕ
  wanted [] = 0
  wanted (v ∷ vs) = seat_of v + wanted vs

  abbrev total_of : List ZoneRequest → ℕ
  total_of rs = total (map (reserved_of env.net) rs) k n

  total-add_request :
      (v : ValidatedItem) (rs : List ZoneRequest)
      → total_of (add_request v rs) ≡ seat_of v + total_of rs
  unfolding add_request
  total-add_request v [] = refl
  total-add_request v (r ∷ rs) =
      let rest = total-add_request v rs in
      elim (Bool-cases (same_zone v r)) [
        | inl e ↦
            let event : r.event_oid ≡ v.event_oid = ground arith in
            let zone : r.zone_name ≡ v.seat_zone =
              (str_eq_iff r.zone_name v.seat_zone).0 (ground arith) in
            rw (e, event, zone) (ground arith)
        | inr e ↦ rw e (omega arith)
      ]

  pub total-collect_requests :
      (vs : List ValidatedItem) (rs : List ZoneRequest)
      → total_of (collect_requests vs rs) ≡ wanted vs + total_of rs
  unfolding collect_requests wanted
  total-collect_requests [] rs = omega arith
  total-collect_requests (v ∷ vs) rs =
      let rest = total-collect_requests vs (add_request v rs) in
      let one = total-add_request v rs in omega arith

  -- the ticket of an item
  abbrev ticket_of : ℕ → ℕ → ValidatedItem → Ticket
  ticket_of order_id j v = record {
    id = order_id + suc j;
    order_id = order_id;
    event_id = v.event_id;
    ticket_code = env.token (suc j);
    seat_zone = v.seat_zone;
    seat_number = v.seat_number;
    price = to_cents v.price;
    status = TicketStatus.held;
    created_at = env.now;
  }

  pub total-new_tickets :
      (order_id j : ℕ) (vs : List ValidatedItem)
      → IsBson env
      → All (HasId env) vs
      → total (taken env.object_id (new_tickets env order_id j vs)) k n ≡ wanted vs
  unfolding wanted new_tickets
  total-new_tickets order_id j [] bson h = unfold taken in refl
  total-new_tickets order_id j (v ∷ vs) bson h =
      let rest = total-new_tickets order_id (suc j) vs bson h.1 in
      let read : env.object_id v.event_id ≡ some v.event_oid =
        rw h.0 (bson.object_id-hex v.event_oid) in
      let here =
        total-taken env.object_id k n (ticket_of order_id j v)
          (new_tickets env order_id (suc j) vs) in
      let seat = seats_in-some env.object_id k n v.event_id v.seat_zone v.event_oid 1 read in
      omega arith

-- the items that are validated carry the ids of their events
pub validate_items-HasId :
    (env : Env) (events : List EventDoc) (is : List TicketItem) (vs : List ValidatedItem)
    → validate_items env events is ≡ ok vs
    → All (HasId env) vs
validate_items-HasId env events [] vs h =
    let none_left : [] ≡ vs = unfold validate_items in ground arith in
    subst (All (HasId env)) none_left tt
validate_items-HasId env events (i ∷ is) vs h =
    let (v, rest, hv, hr, e) = validate_items_cons env events i is vs h in
    let o = validate_item-Origin env events i v hv in
    subst (All (HasId env)) (sym e)
      (subst (HasId env) (sym o.is_validated) refl, validate_items-HasId env events is rest hr)
