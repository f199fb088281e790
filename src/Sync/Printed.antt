-- ===== src/Sync/Printed.antt =====
-- app/services/order_service.py and app/services/payment_service.py: the event ids on the tickets.
use pruet_web_dev.Base.{
  none, ℕ, suc, ◌≡◌, refl, subst, sym, ap, ◌∙◌, Bool, Option, List, [], ◌∷◌, All, update_where,
  Bool-cases, Option-cases, inl, inr,
}
use pruet_web_dev.Base.Lists.{All-append}
use pruet_web_dev.Text.{Str}
use pruet_web_dev.Models.{Order, Pg, Ticket, TicketStatus}
use pruet_web_dev.Service.{World, Env, Result}
use pruet_web_dev.Seats.{Reserved}
use pruet_web_dev.Orders.{OrderCreate}
use pruet_web_dev.Orders.Pricing.{ValidatedItem, lock_order}
use pruet_web_dev.Orders.Create.{
  new_tickets, place_order, read_events, reserve_seats, create_order_dual_db,
}
use pruet_web_dev.Orders.Phases.{
  Phase, unread, invalid, unreserved, placed, phase_of, checked, pg-read_events, pg-reserve_seats,
}
use pruet_web_dev.Orders.Sweep.{
  claim_overdue, claims, sweep_one_batch, cleanup_expired_seat_holds, cancel_held,
}
use pruet_web_dev.Payments.{
  PaymentCreate, is_order, order_by_id, validate_held, process_order_payment,
}
use pruet_web_dev.Integrity.Place.{insert_order_parts}
use pruet_web_dev.Integrity.Seats.{insert_tickets-append}
use pruet_web_dev.Integrity.Services.{pay_found, pay_missing, batches_keep}
use pruet_web_dev.Sync.Requests.{HasId, validate_items-HasId}
use pruet_web_dev.Sync.Orders.{compensated, stored, outcome}
use pruet_web_dev.Sync.Create.{lock_order-HasId}
use pruet_web_dev.Sync.Services.{confirmed_tables, overdue_tables, batch_tables}

-- the tickets carry event ids as bson prints them
abbrev pub HasPrintedId : Env → Ticket → Type 0
HasPrintedId env t = (oid : ℕ) × (t.event_id ≡ env.hex oid)

abbrev pub AllPrinted : Env → World → Type 0
AllPrinted env w = All (HasPrintedId env) w.pg.tickets

new_tickets-AllPrinted :
    (env : Env) (order_id j : ℕ) (vs : List ValidatedItem)
    → All (HasId env) vs
    → All (HasPrintedId env) (new_tickets env order_id j vs)
unfolding new_tickets
new_tickets-AllPrinted env order_id j [] h = tt
new_tickets-AllPrinted env order_id j (v ∷ vs) h =
    ((v.event_oid, h.0), new_tickets-AllPrinted env order_id (suc j) vs h.1)

-- an update of the status leaves the ids
update_where-AllPrinted :
    (env : Env) (p : Ticket → Bool) (to : TicketStatus) (ts : List Ticket)
    → All (HasPrintedId env) ts
    → All (HasPrintedId env) (update_where p (λ t. record t { status = to }) ts)
update_where-AllPrinted env p to [] h = tt
update_where-AllPrinted env p to (t ∷ ts) h =
    let rest = update_where-AllPrinted env p to ts h.1 in
    elim (Bool-cases (p t)) [ inl e ↦ rw e (h.0, rest) | inr e ↦ rw e (h.0, rest) ]

validate_held-AllPrinted :
    (env : Env) (k : ℕ) (ts : List Ticket)
    → All (HasPrintedId env) ts
    → All (HasPrintedId env) (validate_held k ts)
unfolding validate_held
validate_held-AllPrinted env k ts h = update_where-AllPrinted env _ TicketStatus.valid ts h

cancel_held-AllPrinted :
    (env : Env) (p : ℕ → Bool) (ts : List Ticket)
    → All (HasPrintedId env) ts
    → All (HasPrintedId env) (cancel_held p ts)
unfolding cancel_held
cancel_held-AllPrinted env p ts h = update_where-AllPrinted env _ TicketStatus.cancelled ts h

module _ (env : Env) (heard : env.late_fault ≡ none) where
  place_order-AllPrinted :
      (order_in : OrderCreate) (key : Option Str) (items : List ValidatedItem)
      (reserved : List Reserved) (w : World)
      → All (HasId env) items
      → AllPrinted env w
      → AllPrinted env (place_order env order_in key items reserved w).1
  place_order-AllPrinted order_in key items reserved w h p =
      let new : List Ticket = new_tickets env w.pg.next_id 0 items in
      let then : World = (place_order env order_in key items reserved w).1 in
      elim (outcome env heard order_in key items reserved w) [
        | compensated same given ↦ rw same p
        | stored accepted same ↦
            let parts = insert_order_parts env _ new w.pg then.pg accepted in
            subst (All (HasPrintedId env))
              (sym (insert_tickets-append w.pg.tickets new then.pg.tickets parts.1))
              (All-append (HasPrintedId env) w.pg.tickets new p
                (new_tickets-AllPrinted env w.pg.next_id 0 items h))
      ]

  pub create_order_dual_db-AllPrinted :
      (order_in : OrderCreate) (key : Option Str) (w : World)
      → AllPrinted env w
      → AllPrinted env (create_order_dual_db env order_in key w).1
  create_order_dual_db-AllPrinted order_in key w p = elim (checked env order_in key w) [
    | inl same ↦ rw same p
    | inr handed ↦ rw handed (by_phase (phase_of env order_in key w))
  ]
    where
      read_printed :
          {r : Result (Unit {0})} (v : World)
          → read_events env order_in.items w ≡ (r, v)
          → AllPrinted env v
      read_printed v e =
          subst (λ (x : Pg). All (HasPrintedId env) x.tickets)
            (sym (pg-read_events env order_in key w)
              ∙ ap (λ (x : Result (Unit {0}) × World). x.1.pg) e)
            p

      reserve_printed :
          {r : Result (List Reserved)} (v v' : World) (items : List ValidatedItem)
          → reserve_seats env items v ≡ (r, v')
          → AllPrinted env v
          → AllPrinted env v'
      reserve_printed v v' items e =
          subst (λ (x : Pg). All (HasPrintedId env) x.tickets)
            (sym (pg-reserve_seats env order_in key v items)
              ∙ ap (λ (x : Result (List Reserved) × World). x.1.pg) e)

      by_phase :
          {final : Result Order × World} → Phase env order_in key w final → AllPrinted env final.1
      by_phase (unread e v hr hf) = rw hf (read_printed v hr)
      by_phase (invalid e v hr hv hf) = rw hf (read_printed v hr)
      by_phase (unreserved e v v' items hr hv hs hf) =
          rw hf (reserve_printed v v' (lock_order items) hs (read_printed v hr))
      by_phase (placed v v' items reserved hr hv hs hf) = rw hf (
          place_order-AllPrinted order_in key (lock_order items) reserved v'
            (lock_order-HasId env items
              (validate_items-HasId env v.mongo.events order_in.items items hv))
            (reserve_printed v v' (lock_order items) hs (read_printed v hr)))

  pub process_order_payment-AllPrinted :
      (k : ℕ) (payment_in : PaymentCreate) (w : World)
      → AllPrinted env w
      → AllPrinted env (process_order_payment env k payment_in w).1
  process_order_payment-AllPrinted k payment_in w p = elim (Option-cases (order_by_id k w.pg)) [
    | inl missing ↦ rw (pay_missing env k payment_in w missing) p
    | inr (o, found) ↦ elim (pay_found env k payment_in w o found) [
      | inl same ↦ rw same p
      | inr (pending, inl same) ↦ rw same (elim (overdue_tables env o w heard) [
        | inl kept ↦ rw kept p
        | inr (tickets, docs) ↦
            rw tickets (cancel_held-AllPrinted env (is_order o.id) w.pg.tickets p)
      ])
      | inr (pending, inr same) ↦ rw same (elim (confirmed_tables env o w payment_in) [
        | inl kept ↦ rw kept p
        | inr (tickets, docs) ↦ rw tickets (validate_held-AllPrinted env o.id w.pg.tickets p)
      ])
    ]
  ]

  sweep_one_batch-AllPrinted :
      (locked : ℕ → Bool) (size : ℕ) (w : World)
      → AllPrinted env w
      → AllPrinted env (sweep_one_batch env locked size w).1
  sweep_one_batch-AllPrinted locked size w p = elim (batch_tables env locked size w _ refl) [
    | inl kept ↦ rw kept p
    | inr (tickets, docs) ↦ rw tickets (
        cancel_held-AllPrinted env (claims (claim_overdue env.now locked size w.pg.orders))
          w.pg.tickets p)
  ]

  pub cleanup-AllPrinted :
      (fault locked : ℕ → Bool) (size n : ℕ) (w : World)
      → AllPrinted env w
      → AllPrinted env (cleanup_expired_seat_holds env fault locked size n w).1
  unfolding cleanup_expired_seat_holds
  cleanup-AllPrinted fault locked size n w p =
      batches_keep (AllPrinted env) fault (sweep_one_batch env locked size) size n
        (sweep_one_batch-AllPrinted locked size) w p
