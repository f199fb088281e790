-- ===== src/Orders/Idempotency.antt =====
-- Step 1 of `create_order_dual_db`: a key that is known answers with the stored order, if the
-- request has the same fingerprint.
use pruet_web_dev.Base.{
  ℕ, Bool, true, false, not, ◌&&◌, ◌||◌, Option, none, some, List, [], ◌∷◌, map, ◌==◌, length,
  filter, find?, if◌then◌else◌,
}
use pruet_web_dev.Base.Sorting.{sort}
use pruet_web_dev.Text.{Str, str_eq, truthy}
use pruet_web_dev.Models.{Order, Ticket, Pg}
use pruet_web_dev.Models.Guards.{same_value}
use pruet_web_dev.Errors.{http_error, key_reused_with_other_payload, key_reused_with_other_items}
use pruet_web_dev.Service.{Env, Result, ok, err}
use pruet_web_dev.Orders.{TicketItem, OrderCreate, canonical_event_id, zone_key, pair_lt}

-- the order that a key was used for
unfoldable pub order_with_key : Option Str → Pg → Option Order
order_with_key key pg = find? (λ o. same_value o.idempotency_key key) pg.orders

unfoldable pub tickets_of : ℕ → Pg → List Ticket
tickets_of order_id pg = filter (λ t. t.order_id == order_id) pg.tickets

abbrev pub signature_eq : List (Str × Str) → List (Str × Str) → Bool
signature_eq [] [] = true
signature_eq ((a, b) ∷ s) ((c, d) ∷ t) = (str_eq a c && str_eq b d) && signature_eq s t
signature_eq _ _ = false

unfoldable pub existing_items_sig : List Ticket → List (Str × Str)
existing_items_sig ts = sort pair_lt (map (λ t. (t.event_id, zone_key t.seat_zone)) ts)

unfoldable pub request_items_sig : Env → List TicketItem → List (Str × Str)
request_items_sig env items =
    sort pair_lt (map (λ i. (canonical_event_id env i.event_id, zone_key i.seat_zone)) items)

-- the fingerprint test against the stored order
unfoldable pub check_fingerprint : Env → OrderCreate → Order → List Ticket → Result Order
unfolding existing_items_sig request_items_sig
check_fingerprint env order_in o ts =
    if not (o.user_id == order_in.user_id) || not (length ts == length order_in.items)
    then err (http_error 409 key_reused_with_other_payload)
    else if not (signature_eq (existing_items_sig ts) (request_items_sig env order_in.items))
    then err (http_error 409 key_reused_with_other_items)
    else ok o

-- `none` goes on with a new order
unfoldable pub check_idempotency : Env → OrderCreate → Option Str → Pg → Result (Option Order)
check_idempotency env order_in key pg =
    if truthy key
    then (elim env.read_fault [
      | some e ↦ err e
      | none ↦ elim (order_with_key key pg) [
        | none ↦ ok none
        | some o ↦ elim (check_fingerprint env order_in o (tickets_of o.id pg)) [
          | ok found ↦ ok (some found)
          | err e ↦ err e
        ]
      ]
    ])
    else ok none
