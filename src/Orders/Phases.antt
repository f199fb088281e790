-- ===== src/Orders/Phases.antt =====
-- `create_order_dual_db` by how far it gets: refused by its key, refused before a seat is taken,
-- refused by the reservation, or handed to the transaction.
use pruet_web_dev.Base.{◌≡◌, refl, ◌⊎◌, Option, List, arith}
use pruet_web_dev.Text.{Str}
use pruet_web_dev.Models.{Order}
use pruet_web_dev.Errors.{Exc}
use pruet_web_dev.Service.{World, Env, Result, ok, err}
use pruet_web_dev.Seats.{Reserved}
use pruet_web_dev.Orders.{OrderCreate}
use pruet_web_dev.Orders.Pricing.{ValidatedItem, validate_items, lock_order}
use pruet_web_dev.Orders.Create.{
  place_order, read_events, reserve_seats, create_new_order, create_order_dual_db,
}

-- how a call on a new key went; `final` is its outcome
pub data Phase (env : Env) (order_in : OrderCreate) (key : Option Str) (w : World)
    (final : Result Order × World) : Type 0 where
  unread :
      (e : Exc) (v : World)
      → read_events env order_in.items w ≡ (err e, v)
      → final ≡ (err e, v)
      → Phase env order_in key w final
  invalid :
      (e : Exc) (v : World)
      → read_events env order_in.items w ≡ (ok tt, v)
      → validate_items env v.mongo.events order_in.items ≡ err e
      → final ≡ (err e, v)
      → Phase env order_in key w final
  unreserved :
      (e : Exc) (v v' : World) (items : List ValidatedItem)
      → read_events env order_in.items w ≡ (ok tt, v)
      → validate_items env v.mongo.events order_in.items ≡ ok items
      → reserve_seats env (lock_order items) v ≡ (err e, v')
      → final ≡ (err e, v')
      → Phase env order_in key w final
  placed :
      (v v' : World) (items : List ValidatedItem) (reserved : List Reserved)
      → read_events env order_in.items w ≡ (ok tt, v)
      → validate_items env v.mongo.events order_in.items ≡ ok items
      → reserve_seats env (lock_order items) v ≡ (ok reserved, v')
      → final ≡ place_order env order_in key (lock_order items) reserved v'
      → Phase env order_in key w final

module _ (env : Env) (order_in : OrderCreate) (key : Option Str) (w : World) where
  abbrev final : Result Order × World
  final = create_new_order env order_in key w

  reserve_phase :
      (v : World) (items : List ValidatedItem) (r : Result (List Reserved) × World)
      → read_events env order_in.items w ≡ (ok tt, v)
      → validate_items env v.mongo.events order_in.items ≡ ok items
      → reserve_seats env (lock_order items) v ≡ r
      → Phase env order_in key w final
  unfolding create_new_order
  reserve_phase v items (ok reserved, v') hr hv hs =
      placed v v' items reserved hr hv hs (ground arith)
  reserve_phase v items (err e, v') hr hv hs = unreserved e v v' items hr hv hs (ground arith)

  validate_phase :
      (v : World) (r : Result (List ValidatedItem))
      → read_events env order_in.items w ≡ (ok tt, v)
      → validate_items env v.mongo.events order_in.items ≡ r
      → Phase env order_in key w final
  unfolding create_new_order
  validate_phase v (ok items) hr hv = reserve_phase v items _ hr hv refl
  validate_phase v (err e) hr hv = invalid e v hr hv (ground arith)

  read_phase :
      (r : Result (Unit {0}) × World)
      → read_events env order_in.items w ≡ r
      → Phase env order_in key w final
  unfolding create_new_order
  read_phase (ok tt, v) hr = validate_phase v _ hr refl
  read_phase (err e, v) hr = unread e v hr (ground arith)

  -- every call goes one of the four ways
  pub phase_of : Phase env order_in key w final
  phase_of = read_phase _ refl

  -- the idempotency check answers by itself, or hands over to the four phases
  pub checked :
      ((create_order_dual_db env order_in key w).1 ≡ w)
      ⊎ (create_order_dual_db env order_in key w ≡ final)
  unfolding create_order_dual_db
  checked = ground arith

  pub pg-read_events : (read_events env order_in.items w).1.pg ≡ w.pg
  unfolding read_events
  pg-read_events = ground arith

  pub pg-reserve_seats : (items : List ValidatedItem) → (reserve_seats env items w).1.pg ≡ w.pg
  unfolding reserve_seats
  pg-reserve_seats items = refl
