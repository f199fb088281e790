-- ===== src/Integrity/Refinement.antt =====
-- The transactions of app/services as turns of the ledger.
use pruet_web_dev.Base.{
  ℕ, ◌≡◌, refl, subst, sym, ap, ◌∙◌, Bool, true, Option, List, [], ◌∷◌, ◌++◌, ◌==◌, arith, any,
  none, some, Option-cases, inl, inr,
}
use pruet_web_dev.Base.Distinct.{All-map}
use pruet_web_dev.Text.{Str}
use pruet_web_dev.Models.{Order, OrderStatus, Pg}
use pruet_web_dev.Service.{World, Env}
use pruet_web_dev.Seats.{Reserved}
use pruet_web_dev.Orders.{OrderCreate}
use pruet_web_dev.Orders.Pricing.{ValidatedItem, total_price}
use pruet_web_dev.Orders.Create.{new_order, new_tickets, place_order}
use pruet_web_dev.Orders.Sweep.{claims, claim_overdue, expire_claimed, sweep_one_batch}
use pruet_web_dev.Payments.{
  PaymentCreate, order_by_id, new_payment, confirm_order, expire_order, pay_overdue, pay_confirmed,
  process_order_payment,
}
use pruet_web_dev.Payments.Outcomes.{found_self}
use pruet_web_dev.Outbox.{mark_processed, purge}
use pruet_web_dev.Integrity.Invariant.{IsSound, DistinctIds}
use pruet_web_dev.Integrity.Place.{fresh_id, insert_order_parts}
use pruet_web_dev.Integrity.Sweep.{claimable, claimed_passes, pending_of}
use pruet_web_dev.Integrity.Services.{
  place_branches, placed, confirmed_branches, overdue_branches, pay_found, pay_missing, sweep_none,
  sweep_some,
}
use pruet_web_dev.Integrity.History.{
  Step, place, pay, sweep, mark, drop, documents, Reach, here, next, Reach-IsSound,
}
use pruet_web_dev.Integrity.Ledger.{
  booking_of, ledger, Turns, stay, turn, then-Turns, opened, confirmed, expired, PendingAt,
  found-PendingAt, ledger-set_order, expire_each-Turns, ledger-expire_orders,
}

ledger-append :
    (os : List Order) (o : Order) → ledger (os ++ o ∷ []) ≡ ledger os ++ booking_of o ∷ []
ledger-append [] o = refl
ledger-append (p ∷ os) o = ap (λ x. booking_of p ∷ x) (ledger-append os o)

any-ledger : (k : ℕ) (os : List Order) → any (λ b. b.id == k) (ledger os) ≡ any (λ o. o.id == k) os
any-ledger k [] = refl
any-ledger k (o ∷ os) = ground (arith, any-ledger k os)

-- equal tables are reached by no turn
same-Turns : (pg pg' : Pg) → pg' ≡ pg → Turns (ledger pg.orders) (ledger pg'.orders)
same-Turns pg pg' e = subst (λ (x : Pg). Turns (ledger pg.orders) (ledger x.orders)) (sym e) stay

place-Turns :
    (env : Env) (order_in : OrderCreate) (key : Option Str) (items : List ValidatedItem)
    (reserved : List Reserved) (w : World)
    → IsSound w.pg
    → Turns
        (ledger w.pg.orders)
        (ledger (place_order env order_in key items reserved w).1.pg.orders)
place-Turns env order_in key items reserved w s =
    let o : Order = new_order env order_in key (total_price items) w.pg in
    elim (place_branches env order_in key items reserved w _ refl) [
      | inl same ↦ same-Turns w.pg _ same
      | inr stored ↦
          let (orders, rows, payments, next_id) =
            insert_order_parts env o (new_tickets env w.pg.next_id 0 items) w.pg
              (placed env order_in key items reserved w).pg stored in
          subst (Turns (ledger w.pg.orders)) (sym (ap ledger orders ∙ ledger-append w.pg.orders o))
            (turn stay (
              opened (booking_of o) refl
                (any-ledger o.id w.pg.orders ∙ fresh_id w.pg.next_id w.pg.orders s.orders_below)))
    ]

confirm-Turns :
    (env : Env) (payment_in : PaymentCreate) (pg : Pg) (o : Order)
    → IsSound pg
    → order_by_id o.id pg ≡ some o
    → o.status ≡ OrderStatus.pending
    → Turns
        (ledger pg.orders)
        (ledger (confirm_order env o (new_payment env o payment_in pg) pg).orders)
unfolding confirm_order order_by_id
confirm-Turns env payment_in pg o s found pending =
    subst (Turns (ledger pg.orders))
      (sym (
        ledger-set_order o.id OrderStatus.confirmed
          (λ q. record q { status = OrderStatus.confirmed; expires_at = none }) pg.orders
          (λ q. refl) (found-PendingAt o pg.orders s.distinct_ids found pending)))
      (turn stay (confirmed o.id))

expire-Turns :
    (env : Env) (pg : Pg) (o : Order)
    → IsSound pg
    → order_by_id o.id pg ≡ some o
    → o.status ≡ OrderStatus.pending
    → Turns (ledger pg.orders) (ledger (expire_order env o pg).orders)
unfolding expire_order order_by_id
expire-Turns env pg o s found pending =
    subst (Turns (ledger pg.orders))
      (sym (
        ledger-set_order o.id OrderStatus.expired (λ q. record q { status = OrderStatus.expired })
          pg.orders (λ q. refl) (found-PendingAt o pg.orders s.distinct_ids found pending)))
      (turn stay (expired o.id))

-- the world of an outcome, seen as the world it is equal to
moved_to :
    (w v u : World)
    → v ≡ u
    → Turns (ledger w.pg.orders) (ledger u.pg.orders)
    → Turns (ledger w.pg.orders) (ledger v.pg.orders)
moved_to w v u e = subst (λ (x : World). Turns (ledger w.pg.orders) (ledger x.pg.orders)) (sym e)

moved_pg :
    (pg pg' pg'' : Pg)
    → pg' ≡ pg''
    → Turns (ledger pg.orders) (ledger pg''.orders)
    → Turns (ledger pg.orders) (ledger pg'.orders)
moved_pg pg pg' pg'' e = subst (λ (x : Pg). Turns (ledger pg.orders) (ledger x.orders)) (sym e)

pay-Turns :
    (env : Env) (k : ℕ) (payment_in : PaymentCreate) (w : World)
    → IsSound w.pg
    → Turns (ledger w.pg.orders) (ledger (process_order_payment env k payment_in w).1.pg.orders)
pay-Turns env k payment_in w s = elim (Option-cases (order_by_id k w.pg)) [
  | inl missing ↦
      moved_to w (process_order_payment env k payment_in w).1 w
        (pay_missing env k payment_in w missing) stay
  | inr (o, found) ↦
      let self = found_self k w.pg o found in
      elim (pay_found env k payment_in w o found) [
        | inl same ↦ moved_to w (process_order_payment env k payment_in w).1 w same stay
        | inr (pending, inl same) ↦
            moved_to w (process_order_payment env k payment_in w).1 (pay_overdue env o w).1 same
              (elim (overdue_branches env o w) [
                | inl kept ↦ same-Turns w.pg (pay_overdue env o w).1.pg kept
                | inr moved ↦
                    moved_pg w.pg (pay_overdue env o w).1.pg (expire_order env o w.pg) moved
                      (expire-Turns env w.pg o s self pending)
              ])
        | inr (pending, inr same) ↦
            moved_to w (process_order_payment env k payment_in w).1
              (pay_confirmed env o payment_in w).1 same
              (elim (confirmed_branches env o w payment_in) [
                | inl kept ↦ same-Turns w.pg (pay_confirmed env o payment_in w).1.pg kept
                | inr (free, moved) ↦
                    moved_pg w.pg (pay_confirmed env o payment_in w).1.pg
                      (confirm_order env o (new_payment env o payment_in w.pg) w.pg) moved
                      (confirm-Turns env payment_in w.pg o s self pending)
              ])
      ]
]

claimed-PendingAt :
    (now : ℕ) (locked : ℕ → Bool) (n : ℕ) (os : List Order)
    → DistinctIds os
    → PendingAt (claims (claim_overdue now locked n os)) os
claimed-PendingAt now locked n os d =
    All-map
      (λ (q : Order).
        claims (claim_overdue now locked n os) q.id ≡ true → claimable now locked q ≡ true)
      (λ (q : Order).
        claims (claim_overdue now locked n os) q.id ≡ true → q.status ≡ OrderStatus.pending)
      os (λ q h c. let passed = h c in pending_of q.status (ground arith))
      (claimed_passes now locked n os d)

sweep-Turns :
    (env : Env) (locked : ℕ → Bool) (n : ℕ) (w : World)
    → IsSound w.pg
    → Turns (ledger w.pg.orders) (ledger (sweep_one_batch env locked n w).1.pg.orders)
unfolding expire_claimed
sweep-Turns env locked n w s = by_claimed (claim_overdue env.now locked n w.pg.orders) refl
  where
    by_claimed :
        (claimed : List Order)
        → claim_overdue env.now locked n w.pg.orders ≡ claimed
        → Turns (ledger w.pg.orders) (ledger (sweep_one_batch env locked n w).1.pg.orders)
    by_claimed [] e =
        same-Turns w.pg (sweep_one_batch env locked n w).1.pg (sweep_none env locked n w e)
    by_claimed (o ∷ os) e =
        moved_pg w.pg (sweep_one_batch env locked n w).1.pg (expire_claimed env.now (o ∷ os) w.pg)
          (sweep_some env locked n w o os e)
          (subst (Turns (ledger w.pg.orders))
            (sym (
              ledger-expire_orders (o ∷ os) w.pg.orders (
                subst (λ x. PendingAt (claims x) w.pg.orders) e
                  (claimed-PendingAt env.now locked n w.pg.orders s.distinct_ids))))
            (expire_each-Turns (o ∷ os) (ledger w.pg.orders)))

Step-Turns :
    {w v : World} → Step w v → IsSound w.pg → Turns (ledger w.pg.orders) (ledger v.pg.orders)
Step-Turns {w} (place env order_in key items reserved) s =
    place-Turns env order_in key items reserved w s
Step-Turns {w} (pay env k payment_in) s = pay-Turns env k payment_in w s
Step-Turns {w} (sweep env locked n) s = sweep-Turns env locked n w s
Step-Turns (mark now locked n) s = unfold mark_processed in stay
Step-Turns (drop before locked n) s = unfold purge in stay
Step-Turns (documents m) s = stay

-- From a database that satisfies the rules, whatever transactions place, pay and expire orders and
-- drain the outbox, in any order and under any fault, do to the orders is what turns of the ledger
-- do: a pending booking with a new id is added, or a pending booking is confirmed or expires.
pub Reach-Turns :
    {w v : World} → Reach w v → IsSound w.pg → Turns (ledger w.pg.orders) (ledger v.pg.orders)
Reach-Turns here s = stay
Reach-Turns (next r st) s = then-Turns (Reach-Turns r s) (Step-Turns st (Reach-IsSound r s))
