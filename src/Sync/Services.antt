-- ===== src/Sync/Services.antt =====
-- app/services/payment_service.py and app/services/order_service.py: paying and the clean-up of expired
-- holds, the seat counters beside the tickets.
use pruet_web_dev.Base.{
  none, ◌⊎◌, ℕ, ◌≡◌, refl, subst, sym, ap, ◌∙◌, Bool, List, [], ◌∷◌, ◌++◌, arith, Option-cases, inl,
  inr,
}
use pruet_web_dev.Models.{Order}
use pruet_web_dev.Mongo.{EventDoc, Mongo, answered, log_activity}
use pruet_web_dev.Service.{World, Env}
use pruet_web_dev.Seats.{release_counted_seats}
use pruet_web_dev.Seats.Capacity.{NoOversell, release_counted_seats-NoOversell}
use pruet_web_dev.Seats.Totals.{total-append, plus}
use pruet_web_dev.Orders.Sweep.{
  claim_overdue, claims, expire_claimed, count_held, cancel_held, sweep_one_batch,
  cleanup_expired_seat_holds,
}
use pruet_web_dev.Payments.{
  PaymentCreate, is_order, order_by_id, validate_held, expire_order, confirm_order, pay_overdue,
  pay_confirmed, process_order_payment,
}
use pruet_web_dev.Integrity.Services.{pay_found, pay_missing, batches_keep}
use pruet_web_dev.Sync.{taken, IsSynced}
use pruet_web_dev.Sync.Plus.{SameTotals, plus-ext}
use pruet_web_dev.Sync.Groups.{group_reserved, release_counted_seats-events}
use pruet_web_dev.Sync.Tickets.{total-cancel_held, total-validate_held}
use pruet_web_dev.Sync.Cleared.{
  cleared, cleared-Unsold, cleared-DistinctDocs, synced_plus, plus-IsSynced,
}

module _ (env : Env) (w : World) (s : IsSynced env.object_id w) where
  abbrev ds : List EventDoc
  ds = cleared w.mongo.events

  -- held tickets that become valid count as before
  validated-IsSynced :
      (k : ℕ) (v : World)
      → v.pg.tickets ≡ validate_held k w.pg.tickets
      → v.mongo.events ≡ w.mongo.events
      → IsSynced env.object_id v
  validated-IsSynced k v t e =
      plus-IsSynced env.object_id v ds (cleared-DistinctDocs w.mongo.events s.distinct)
        (cleared-Unsold w.mongo.events)
        (subst (λ (es : List EventDoc). NoOversell [] (record w.mongo { events = es })) (sym e)
          s.no_oversell)
        (e
          ∙ synced_plus env.object_id w s
          ∙ sym (
              plus-ext (taken env.object_id (validate_held k w.pg.tickets))
                (taken env.object_id w.pg.tickets)
                (λ i n. total-validate_held env.object_id i n k w.pg.tickets) ds)
          ∙ ap (λ ts. plus (taken env.object_id ts) ds) (sym t))

  module _ (calm : (n : ℕ) → env.net n ≡ answered) (p : ℕ → Bool) where
    -- the tickets before are the groups and the tickets after
    split : SameTotals (taken env.object_id w.pg.tickets) (
        group_reserved env.object_id (count_held p w.pg.tickets)
        ++ taken env.object_id (cancel_held p w.pg.tickets))
    split i n =
        let sum =
          total-append (group_reserved env.object_id (count_held p w.pg.tickets))
            (taken env.object_id (cancel_held p w.pg.tickets)) i n in
        let parts = total-cancel_held env.object_id i n p w.pg.tickets in omega arith

    -- held tickets that are cancelled give back their seats
    cancelled-IsSynced :
        (v : World)
        → v.pg.tickets ≡ cancel_held p w.pg.tickets
        → v.mongo ≡ release_counted_seats env (count_held p w.pg.tickets) w.mongo
        → IsSynced env.object_id v
    cancelled-IsSynced v t e =
        plus-IsSynced env.object_id v ds (cleared-DistinctDocs w.mongo.events s.distinct)
          (cleared-Unsold w.mongo.events)
          (subst (λ (m : Mongo). NoOversell [] m) (sym e)
            (release_counted_seats-NoOversell env (count_held p w.pg.tickets) w.mongo
              s.no_oversell))
          (ap (λ (m : Mongo). m.events) e
            ∙ release_counted_seats-events env (count_held p w.pg.tickets)
                (taken env.object_id (cancel_held p w.pg.tickets)) ds w.mongo calm
                (cleared-DistinctDocs w.mongo.events s.distinct) (cleared-Unsold w.mongo.events)
                (synced_plus env.object_id w s ∙ plus-ext _ _ split ds)
            ∙ ap (λ ts. plus (taken env.object_id ts) ds) (sym t))

module _ (env : Env) (o : Order) (w : World) where
  pub confirmed_tables :
      (payment_in : PaymentCreate)
      → let v = (pay_confirmed env o payment_in w).1 in
        (v ≡ w)
        ⊎ ((v.pg.tickets ≡ validate_held o.id w.pg.tickets) × (v.mongo.events ≡ w.mongo.events))
  unfolding pay_confirmed confirm_order log_activity
  confirmed_tables payment_in = ground arith

  pub overdue_tables :
      env.late_fault ≡ none
      → let v = (pay_overdue env o w).1 in
        (v ≡ w)
        ⊎ ((v.pg.tickets ≡ cancel_held (is_order o.id) w.pg.tickets)
            × (v.mongo
                ≡ release_counted_seats env (count_held (is_order o.id) w.pg.tickets) w.mongo))
  unfolding pay_overdue expire_order
  overdue_tables heard = ground arith

-- On a network that answers every call, paying keeps the two databases synchronised, on every
-- branch, if the driver raises nothing behind a commit: a payment in time makes held tickets
-- valid, and a late one gives back exactly their seats.
pub process_order_payment-IsSynced :
    (env : Env) (k : ℕ) (payment_in : PaymentCreate) (w : World)
    → env.late_fault ≡ none
    → ((n : ℕ) → env.net n ≡ answered)
    → IsSynced env.object_id w
    → IsSynced env.object_id (process_order_payment env k payment_in w).1
process_order_payment-IsSynced env k payment_in w heard calm s =
    elim (Option-cases (order_by_id k w.pg)) [
      | inl missing ↦ rw (pay_missing env k payment_in w missing) s
      | inr (o, found) ↦ elim (pay_found env k payment_in w o found) [
        | inl same ↦ rw same s
        | inr (pending, inl same) ↦ rw same (elim (overdue_tables env o w heard) [
          | inl kept ↦ rw kept s
          | inr (tickets, docs) ↦
              cancelled-IsSynced env w s calm (is_order o.id) (pay_overdue env o w).1 tickets docs
        ])
        | inr (pending, inr same) ↦ rw same (elim (confirmed_tables env o w payment_in) [
          | inl kept ↦ rw kept s
          | inr (tickets, docs) ↦
              validated-IsSynced env w s o.id (pay_confirmed env o payment_in w).1 tickets docs
        ])
      ]
    ]

module _ (env : Env) (locked : ℕ → Bool) (size : ℕ) (w : World) where
  pub batch_tables :
      (claimed : List Order)
      → claim_overdue env.now locked size w.pg.orders ≡ claimed
      → let v = (sweep_one_batch env locked size w).1 in
        (v ≡ w)
        ⊎ ((v.pg.tickets ≡ cancel_held (claims claimed) w.pg.tickets)
            × (v.mongo
                ≡ release_counted_seats env (count_held (claims claimed) w.pg.tickets) w.mongo))
  unfolding sweep_one_batch expire_claimed
  batch_tables [] e = ground arith
  batch_tables (o ∷ os) e = ground arith

  pub sweep_one_batch-IsSynced :
      ((n : ℕ) → env.net n ≡ answered)
      → IsSynced env.object_id w
      → IsSynced env.object_id (sweep_one_batch env locked size w).1
  sweep_one_batch-IsSynced calm s = elim (batch_tables _ refl) [
    | inl kept ↦ rw kept s
    | inr (tickets, docs) ↦
        cancelled-IsSynced env w s calm (claims (claim_overdue env.now locked size w.pg.orders))
          (sweep_one_batch env locked size w).1 tickets docs
  ]

-- On a network that answers every call, the clean-up of expired holds keeps the two databases
-- synchronised, however many batches it runs and wherever PostgreSQL fails.
pub cleanup-IsSynced :
    (env : Env) (fault locked : ℕ → Bool) (size n : ℕ) (w : World)
    → ((n : ℕ) → env.net n ≡ answered)
    → IsSynced env.object_id w
    → IsSynced env.object_id (cleanup_expired_seat_holds env fault locked size n w).1
unfolding cleanup_expired_seat_holds
cleanup-IsSynced env fault locked size n w calm s =
    batches_keep (λ (v : World). IsSynced env.object_id v) fault (sweep_one_batch env locked size)
      size n (λ v t. sweep_one_batch-IsSynced env locked size v calm t) w s
