-- ===== src/Tests/Bookings.antt =====
-- Bookings and payments in the small hall.
use pruet_web_dev.Base.{◌⊎◌, ◌≡◌, refl, false, none, some, [], ◌∷◌, arith}
use pruet_web_dev.Errors.{
  Exc, http, operational, serialization_failure, conflict_exception, classify_db_error,
  is_retryable_conflict, pgcode, http_error, order_not_found, hold_expired, already_paid,
  order_expired,
}
use pruet_web_dev.Models.Guards.{inserted, insert_tickets, ticket_violation, payment_violation}
use pruet_web_dev.Text.{str_eq}
use pruet_web_dev.Service.{World, Env, ok, err}
use pruet_web_dev.Seats.{reserve_zones}
use pruet_web_dev.Mongo.{zone_in_range, zones_in_range}
use pruet_web_dev.Seats.AllOrNothing.{InRange, Settled, reserve_zones-Settled}
use pruet_web_dev.Seats.Capacity.{NoOversell, reserve_zones-NoOversell}
use pruet_web_dev.Orders.Refusals.{IsCompensated, place_order-IsCompensated}
use pruet_web_dev.Orders.Create.{on_fault, on_database_error, place_order, create_order_dual_db}
use pruet_web_dev.Orders.NoOversell.{create_order_dual_db-NoOversell}
use pruet_web_dev.Base.Loops.{batches}
use pruet_web_dev.Base.Sorting.{insert_sorted, sort}
use pruet_web_dev.Orders.Leftover.{NothingLeft, cleanup-NothingLeft}
use pruet_web_dev.Orders.Sweep.{claim_overdue, sweep_one_batch, cleanup_expired_seat_holds}
use pruet_web_dev.Payments.{process_order_payment, order_by_id, new_payment, pay_confirmed}
use pruet_web_dev.Payments.Outcomes.{
  IsPayable, IsPaid, IsExpired, process_order_payment-IsPaid, process_order_payment_refused,
  process_order_payment_twice, process_order_payment-overdue,
}
use pruet_web_dev.Integrity.Invariant.{IsSound}
use pruet_web_dev.Integrity.Services.{cleanup-IsSound}
use pruet_web_dev.Integrity.History.{
  Reach, here, next, place, pay, Reach-IsSound, create_order_dual_db-IsSound,
}
use pruet_web_dev.Tests.Data.{
  calm, gala, documents, opened, wanted, booking, one_seat, one_seat_request, full_price,
  pending_order, held_ticket, other_ticket, held_seat, completed_charge,
}

opened-IsSound : IsSound opened.pg
opened-IsSound = record {
  orders_fit = tt;
  no_double_booking = tt;
  no_double_charge = tt;
  distinct_ids = tt;
  orders_below = tt;
  tickets_below = tt;
  payments_below = tt;
}

abbrev placed_world : World
placed_world = (place_order (calm 1000) booking none (wanted ∷ []) (one_seat ∷ []) opened).1

abbrev paid_world : World
paid_world = (process_order_payment (calm 1200) 2 full_price placed_world).1

abbrev swept_world : World
swept_world = (cleanup_expired_seat_holds (calm 9000) (λ _. false) (λ _. false) 500 20 paid_world).1

paid_reached : Reach opened paid_world
paid_reached =
    next (next here (place (calm 1000) booking none (wanted ∷ []) (one_seat ∷ [])))
      (pay (calm 1200) 2 full_price)

Reach-IsSound_example : IsSound paid_world.pg
Reach-IsSound_example = Reach-IsSound paid_reached opened-IsSound

create_order_dual_db-IsSound_example :
    IsSound (create_order_dual_db (calm 1000) booking none opened).1.pg
create_order_dual_db-IsSound_example =
    create_order_dual_db-IsSound (calm 1000) booking none opened opened-IsSound

cleanup-IsSound_example : IsSound swept_world.pg
cleanup-IsSound_example =
    cleanup-IsSound (calm 9000) (λ _. false) (λ _. false) 500 20 paid_world
      (Reach-IsSound paid_reached opened-IsSound)

held_seat_pays :
    (process_order_payment (calm 1200) 2 full_price held_seat).0
    ≡ ok (new_payment (calm 1200) pending_order full_price held_seat.pg)
unfolding process_order_payment order_by_id pay_confirmed payment_violation
held_seat_pays = refl

process_order_payment-IsPaid_example :
    (o : _) × IsPayable (calm 1200) 2 full_price held_seat o
    × IsPaid
        (calm 1200)
        2
        (new_payment (calm 1200) pending_order full_price held_seat.pg)
        held_seat
        (process_order_payment (calm 1200) 2 full_price held_seat).1
        o
process_order_payment-IsPaid_example =
    process_order_payment-IsPaid (calm 1200) 2 full_price held_seat
      (new_payment (calm 1200) pending_order full_price held_seat.pg) held_seat_pays

process_order_payment_twice_example :
    process_order_payment
      (calm 1300)
      2
      full_price
      (process_order_payment (calm 1200) 2 full_price held_seat).1
    ≡ (
      err (http_error 409 already_paid),
      (process_order_payment (calm 1200) 2 full_price held_seat).1,
    )
process_order_payment_twice_example =
    process_order_payment_twice (calm 1200) (calm 1300) 2 full_price full_price held_seat
      (new_payment (calm 1200) pending_order full_price held_seat.pg) held_seat_pays

unknown_order :
    (process_order_payment (calm 1200) 5 full_price held_seat).0
    ≡ err (http_error 404 order_not_found)
unfolding process_order_payment order_by_id
unknown_order = refl

process_order_payment_refused_example :
    ((process_order_payment (calm 1200) 5 full_price held_seat).1 ≡ held_seat)
    ⊎ (((calm 1200).late_fault ≡ some (http_error 404 order_not_found))
        × ((process_order_payment (calm 1200) 5 full_price held_seat).1.mongo ≡ held_seat.mongo))
process_order_payment_refused_example =
    process_order_payment_refused (calm 1200) 5 full_price held_seat
      (http_error 404 order_not_found) unknown_order (λ h. ground arith)

pending_found : order_by_id 2 held_seat.pg ≡ some pending_order
unfolding order_by_id
pending_found = refl

abbrev late_world : World
late_world = (process_order_payment (calm 2000) 2 full_price held_seat).1

process_order_payment-overdue_example :
    ((process_order_payment (calm 2000) 2 full_price held_seat).0
      ≡ err (http_error 410 hold_expired))
    × IsExpired 2 pending_order held_seat late_world
    × (process_order_payment (calm 2100) 2 full_price late_world
        ≡ (err (http_error 410 order_expired), late_world))
process_order_payment-overdue_example =
    process_order_payment-overdue (calm 2000) (calm 2100) 2 full_price full_price held_seat
      pending_order pending_found refl refl refl refl

seats_free :
    insert_tickets (held_ticket ∷ []) (other_ticket ∷ [])
    ≡ inserted (held_ticket ∷ other_ticket ∷ [])
unfolding insert_tickets ticket_violation str_eq
seats_free = refl

not_charged_yet : payment_violation [] completed_charge ≡ none
unfolding payment_violation
not_charged_yet = refl

reserve_zones-NoOversell_example :
    NoOversell []
      (reserve_zones (calm 1000).net (one_seat_request ∷ one_seat_request ∷ []) [] documents).1
reserve_zones-NoOversell_example =
    reserve_zones-NoOversell (calm 1000).net (one_seat_request ∷ one_seat_request ∷ []) [] documents
      (((omega arith, ((λ _ _. omega arith), ((λ _ _. omega arith), tt))), tt), tt)

opened-NoOversell : NoOversell [] opened.mongo
opened-NoOversell = (((omega arith, tt), tt), tt)

create_order_dual_db-NoOversell_example :
    NoOversell [] (create_order_dual_db (calm 1000) booking none opened).1.mongo
create_order_dual_db-NoOversell_example =
    create_order_dual_db-NoOversell (calm 1000) booking none opened ((refl, tt), ((refl, tt), tt))
      opened-NoOversell

gala-InRange : InRange gala
unfolding zones_in_range zone_in_range
gala-InRange = refl

reserve_zones-Settled_example :
    Settled
      (gala ∷ [])
      (one_seat ∷ one_seat ∷ [])
      (reserve_zones (calm 1000).net (one_seat_request ∷ one_seat_request ∷ []) [] documents)
reserve_zones-Settled_example =
    reserve_zones-Settled (calm 1000).net (one_seat_request ∷ one_seat_request ∷ []) documents
      (λ _. refl) ((refl, tt), ((refl, tt), tt)) (gala-InRange, tt)

one_swept :
    (cleanup_expired_seat_holds (calm 9000) (λ _. false) (λ _. false) 500 20 held_seat).0 ≡ some 1
unfolding cleanup_expired_seat_holds batches sweep_one_batch claim_overdue insert_sorted sort
one_swept = refl

cleanup-NothingLeft_example :
    NothingLeft 9000
      (λ _. false)
      (cleanup_expired_seat_holds (calm 9000) (λ _. false) (λ _. false) 500 20 held_seat).1
cleanup-NothingLeft_example =
    cleanup-NothingLeft (calm 9000) (λ _. false) 500 20 1 held_seat one_swept (omega arith)

abbrev conflict : Exc
conflict = http conflict_exception

-- the database cannot serialize the transaction
abbrev contended : Env
contended = record (calm 1000) { pg_fault = some (operational (some serialization_failure)) }

booking_fails :
    (place_order contended booking none (wanted ∷ []) (one_seat ∷ []) opened).0 ≡ err conflict
unfolding place_order on_fault on_database_error classify_db_error is_retryable_conflict pgcode
booking_fails = refl

place_order-IsCompensated_example :
    IsCompensated contended
      (one_seat ∷ [])
      opened
      (place_order contended booking none (wanted ∷ []) (one_seat ∷ []) opened).1
      conflict
place_order-IsCompensated_example =
    place_order-IsCompensated contended booking none (wanted ∷ []) (one_seat ∷ []) opened conflict
      refl refl booking_fails
