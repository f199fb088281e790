-- ===== src/Orders/Leftover.antt =====
-- app/services/order_service.py: what cleanup_expired_seat_holds leaves behind.
use pruet_web_dev.Base.{
  ℕ, ◌*◌, ◌<◌, ◌≡◌, refl, subst, ap, Bool, true, false, not, ◌&&◌, some, List, [], ◌∷◌, arith, All,
  any, length,
}
use pruet_web_dev.Base.Claims.{claims_everything}
use pruet_web_dev.Base.Progress.{batches_finish}
use pruet_web_dev.Models.{Order, is_pending}
use pruet_web_dev.Service.{World, Env}
use pruet_web_dev.Orders.Sweep.{
  overdue, expires_first, claim_overdue, claims, expire_orders, expire_claimed, sweep_one_batch,
  cleanup_expired_seat_holds,
}

-- what a batch would claim: a pending order, overdue and not locked
abbrev pub is_left : ℕ → (ℕ → Bool) → Order → Bool
is_left now locked o = is_pending o.status && (overdue now o && not (locked o.id))

none_left :
    (now : ℕ) (locked : ℕ → Bool) (claimed xs : List Order)
    → All (λ o. is_left now locked o ≡ true → claims claimed o.id ≡ true) xs
    → any (is_left now locked) (expire_orders (claims claimed) xs) ≡ false
unfolding expire_orders
none_left now locked claimed [] h = refl
none_left now locked claimed (x ∷ xs) h = ground (arith, h.0, none_left now locked claimed xs h.1)

-- a batch that is not full takes everything there is
short_batch :
    (now : ℕ) (locked : ℕ → Bool) (n : ℕ) (xs : List Order)
    → length (claim_overdue now locked n xs) < n
    → All (λ o. is_left now locked o ≡ true → claims (claim_overdue now locked n xs) o.id ≡ true) xs
unfolding claim_overdue
short_batch now locked n xs h =
    claims_everything (λ o. o.id) (is_left now locked) expires_first n xs h

-- no pending order is overdue, but those that another session holds
abbrev pub NothingLeft : ℕ → (ℕ → Bool) → World → Type 0
NothingLeft now locked w = any (is_left now locked) w.pg.orders ≡ false

sweep_none :
    (env : Env) (locked : ℕ → Bool) (n : ℕ) (w : World)
    → claim_overdue env.now locked n w.pg.orders ≡ []
    → sweep_one_batch env locked n w ≡ (0, w)
unfolding sweep_one_batch
sweep_none env locked n w e = ground arith

sweep_some :
    (env : Env) (locked : ℕ → Bool) (n : ℕ) (w : World) (o : Order) (os : List Order)
    → claim_overdue env.now locked n w.pg.orders ≡ o ∷ os
    → ((sweep_one_batch env locked n w).0 ≡ length (o ∷ os))
      × ((sweep_one_batch env locked n w).1.pg.orders ≡ expire_orders (claims (o ∷ os)) w.pg.orders)
unfolding sweep_one_batch expire_claimed
sweep_some env locked n w o os e = ground arith

none_claimable :
    (p : Order → Bool) (xs : List Order)
    → All (λ o. p o ≡ true → claims [] o.id ≡ true) xs
    → any p xs ≡ false
none_claimable p [] h = refl
none_claimable p (x ∷ xs) h = ground (arith, h.0, none_claimable p xs h.1)

sweep_finishes :
    (env : Env) (locked : ℕ → Bool) (n : ℕ) (w : World)
    → (sweep_one_batch env locked n w).0 < n
    → NothingLeft env.now locked (sweep_one_batch env locked n w).1
sweep_finishes env locked n w h = by_claimed (claim_overdue env.now locked n w.pg.orders) refl
  where
    by_claimed :
        (claimed : List Order)
        → claim_overdue env.now locked n w.pg.orders ≡ claimed
        → NothingLeft env.now locked (sweep_one_batch env locked n w).1
    by_claimed [] e =
        let few : length (claim_overdue env.now locked n w.pg.orders) < n = rw e (
          subst (λ (k : ℕ). k < n) (ap (λ (r : ℕ × World). r.0) (sweep_none env locked n w e)) h) in
        rw (sweep_none env locked n w e) (
          none_claimable (is_left env.now locked) w.pg.orders (
            subst
              (λ (c : List Order).
                All (λ o. is_left env.now locked o ≡ true → claims c o.id ≡ true) w.pg.orders)
              e (short_batch env.now locked n w.pg.orders few)))
    by_claimed (o ∷ os) e =
        let (count, orders) = sweep_some env locked n w o os e in
        let few : length (claim_overdue env.now locked n w.pg.orders) < n =
          rw e (subst (λ (k : ℕ). k < n) count h) in
        rw orders (
          none_left env.now locked (o ∷ os) w.pg.orders (
            subst
              (λ (c : List Order).
                All (λ o. is_left env.now locked o ≡ true → claims c o.id ≡ true) w.pg.orders)
              e (short_batch env.now locked n w.pg.orders few)))

-- The clean-up, on a database that commits: if it has expired fewer orders than its batches could
-- have, then no pending order is overdue any more, but those that another session holds locked.
pub cleanup-NothingLeft :
    (env : Env) (locked : ℕ → Bool) (size n k : ℕ) (w : World)
    → (cleanup_expired_seat_holds env (λ _. false) locked size n w).0 ≡ some k
    → k < n * size
    → NothingLeft env.now locked (cleanup_expired_seat_holds env (λ _. false) locked size n w).1
unfolding cleanup_expired_seat_holds
cleanup-NothingLeft env locked size n k w h lt =
    batches_finish (NothingLeft env.now locked) (sweep_one_batch env locked size) size
      (sweep_finishes env locked size) n k w h lt
