-- ===== src/Orders/Refusals.antt =====
-- app/services/order_service.py: how the transaction of create_order_dual_db answers a failure.
use pruet_web_dev.Base.{
  ◌≡◌, refl, subst, sym, ◌∙◌, ap, Bool, true, false, Option, none, some, List, arith, Option-cases,
  inl, inr,
}
use pruet_web_dev.Text.{Str}
use pruet_web_dev.Models.{Order, Pg}
use pruet_web_dev.Models.Guards.{Constraint, Insert, inserted, violates}
use pruet_web_dev.Errors.{
  Exc, http, integrity, operational, pool_timeout, mongo_connection, mongo_write_error, other_exc,
}
use pruet_web_dev.Service.{World, Env, Result, err}
use pruet_web_dev.Seats.{Reserved, release_reservations}
use pruet_web_dev.Orders.{OrderCreate}
use pruet_web_dev.Orders.Idempotency.{order_with_key}
use pruet_web_dev.Orders.Pricing.{ValidatedItem, total_price}
use pruet_web_dev.Orders.Create.{
  new_order, new_tickets, insert_order, on_integrity_error, on_database_error, on_fault,
  place_order,
}

abbrev pub is_http : Exc → Bool
is_http (http h) = true
is_http _ = false

-- what a transaction that raises has done: the answer is an HTTP exception, PostgreSQL is as it was,
-- and the seats of the reservation are given back
pub record IsCompensated (env : Env) (reserved : List Reserved) (w w' : World) (e : Exc)
    : Type 0 where
  pub answered : is_http e ≡ true
  pub unchanged : w'.pg ≡ w.pg
  pub given_back : w'.mongo ≡ release_reservations env.net reserved w.mongo

abbrev answer : Exc → Result Order
answer e = err e

is_http-database_error : (x : Exc) → is_http (on_database_error x) ≡ true
unfolding on_database_error
is_http-database_error (http h) = refl
is_http-database_error (integrity c) = ground arith
is_http-database_error (operational s) = ground arith
is_http-database_error pool_timeout = ground arith
is_http-database_error mongo_connection = ground arith
is_http-database_error mongo_write_error = ground arith
is_http-database_error other_exc = ground arith

by_database_error : (x e : Exc) → answer (on_database_error x) ≡ err e → is_http e ≡ true
by_database_error x e h =
    let raised : on_database_error x ≡ e = ground arith in
    subst (λ (y : Exc). is_http y ≡ true) raised (is_http-database_error x)

is_http-integrity_error :
    (env : Env) (key : Option Str) (c : Constraint) (pg : Pg) (e : Exc)
    → env.reread_fault ≡ none
    → on_integrity_error env key c pg ≡ err e
    → is_http e ≡ true
unfolding on_integrity_error order_with_key
is_http-integrity_error env key c pg e read h = ground arith

is_http-on_fault :
    (env : Env) (key : Option Str) (x : Exc) (pg : Pg) (e : Exc)
    → env.reread_fault ≡ none
    → on_fault env key x pg ≡ err e
    → is_http e ≡ true
unfolding on_fault
is_http-on_fault env key (integrity c) pg e read h = is_http-integrity_error env key c pg e read h
is_http-on_fault env key (http a) pg e read h = by_database_error (http a) e h
is_http-on_fault env key (operational s) pg e read h = by_database_error (operational s) e h
is_http-on_fault env key pool_timeout pg e read h = by_database_error pool_timeout e h
is_http-on_fault env key mongo_connection pg e read h = by_database_error mongo_connection e h
is_http-on_fault env key mongo_write_error pg e read h = by_database_error mongo_write_error e h
is_http-on_fault env key other_exc pg e read h = by_database_error other_exc e h

place_fault :
    (env : Env) (order_in : OrderCreate) (key : Option Str) (items : List ValidatedItem)
    (reserved : List Reserved) (w : World) (x : Exc)
    → env.pg_fault ≡ some x
    → place_order env order_in key items reserved w ≡ (
      on_fault env key x w.pg,
      record w { mongo = release_reservations env.net reserved w.mongo },
    )
unfolding place_order
place_fault env order_in key items reserved w x e = ground arith

place_violates :
    (env : Env) (order_in : OrderCreate) (key : Option Str) (items : List ValidatedItem)
    (reserved : List Reserved) (w : World) (e : Exc)
    → env.pg_fault ≡ none
    → env.late_fault ≡ none
    → (place_order env order_in key items reserved w).0 ≡ err e
    → (c : Constraint) × (on_integrity_error env key c w.pg ≡ err e)
      × ((place_order env order_in key items reserved w).1
          ≡ record w { mongo = release_reservations env.net reserved w.mongo })
unfolding place_order
place_violates env order_in key items reserved w e up heard h =
    by_insert (insert_order env o (new_tickets env o.id 0 items) w.pg) refl
  where
    o : Order
    o = new_order env order_in key (total_price items) w.pg

    by_insert :
        (r : Insert Pg)
        → insert_order env o (new_tickets env o.id 0 items) w.pg ≡ r
        → (c : Constraint) × (on_integrity_error env key c w.pg ≡ err e)
          × ((place_order env order_in key items reserved w).1
              ≡ record w { mongo = release_reservations env.net reserved w.mongo })
    by_insert (inserted pg) e' = absurd (ground arith)
    by_insert (violates c) e' = (c, ground arith, ground arith)

-- A transaction of an order that raises answers with an HTTP exception, whatever the driver raised
-- before the commit; PostgreSQL is as it was, and every seat of the reservation has been asked back: if
-- the driver raises nothing behind the commit and the SELECT of the winning order does not raise.
pub place_order-IsCompensated :
    (env : Env) (order_in : OrderCreate) (key : Option Str) (items : List ValidatedItem)
    (reserved : List Reserved) (w : World) (e : Exc)
    → env.late_fault ≡ none
    → env.reread_fault ≡ none
    → (place_order env order_in key items reserved w).0 ≡ err e
    → IsCompensated env reserved w (place_order env order_in key items reserved w).1 e
place_order-IsCompensated env order_in key items reserved w e heard read h =
    elim (Option-cases env.pg_fault) [
      | inl up ↦
          let (c, raised, same) = place_violates env order_in key items reserved w e up heard h in
          record {
            answered = is_http-integrity_error env key c w.pg e read raised;
            unchanged = ap (λ (x : World). x.pg) same;
            given_back = ap (λ (x : World). x.mongo) same;
          }
      | inr (x, down) ↦
          let same = place_fault env order_in key items reserved w x down in
          record {
            answered =
                is_http-on_fault env key x w.pg e read
                  (sym (ap (λ (r : Result Order × World). r.0) same) ∙ h);
            unchanged = ap (λ (r : Result Order × World). r.1.pg) same;
            given_back = ap (λ (r : Result Order × World). r.1.mongo) same;
          }
    ]
