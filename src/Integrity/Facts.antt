-- ===== src/Integrity/Facts.antt =====
-- Everything that the rules on one order read from the tickets and the payments.
use pruet_web_dev.Base.{
  ℕ, ◌+◌, ◌≡◌, refl, Bool, true, false, ◌&&◌, List, [], ◌∷◌, ◌++◌, ◌==◌, arith, count, any,
  if◌then◌else◌,
}
use pruet_web_dev.Models.{Ticket, Payment, is_held, is_valid, is_active}
use pruet_web_dev.Orders.Sweep.{cancel_held}
use pruet_web_dev.Payments.{validate_held}
use pruet_web_dev.Payments.Outcomes.{held_of}
use pruet_web_dev.Consistency.{completed_for, paid_sum, price_sum}

pub record Facts : Type 0 where
  pub prices : ℕ
  pub seats : ℕ
  pub held : ℕ
  pub valid : ℕ
  pub completed : ℕ
  pub paid : ℕ

abbrev pub valid_of : ℕ → List Ticket → ℕ
valid_of k ts = count (λ t. (t.order_id == k) && is_valid t.status) ts

abbrev pub seats_of : ℕ → List Ticket → ℕ
seats_of k ts = count (λ t. t.order_id == k) ts

abbrev pub completed_of : ℕ → List Payment → ℕ
completed_of k ps = count (completed_for k) ps

-- the facts of the order with a given id
abbrev pub facts_of : ℕ → List Ticket → List Payment → Facts
facts_of k ts ps = record {
  prices = price_sum k ts;
  seats = seats_of k ts;
  held = held_of k ts;
  valid = valid_of k ts;
  completed = completed_of k ps;
  paid = paid_sum k ps;
}

module _ (of_order : ℕ → Bool) (k : ℕ) where
  pub price_sum-cancel_held :
      (ts : List Ticket) → price_sum k (cancel_held of_order ts) ≡ price_sum k ts
  unfolding cancel_held
  price_sum-cancel_held [] = refl
  price_sum-cancel_held (t ∷ ts) = ground (arith, price_sum-cancel_held ts)

  pub seats_of-cancel_held :
      (ts : List Ticket) → seats_of k (cancel_held of_order ts) ≡ seats_of k ts
  unfolding cancel_held
  seats_of-cancel_held [] = refl
  seats_of-cancel_held (t ∷ ts) = ground (arith, seats_of-cancel_held ts)

  pub held_of-cancel_held :
      (ts : List Ticket)
      → held_of k (cancel_held of_order ts) ≡ (if of_order k then 0 else held_of k ts)
  unfolding cancel_held
  held_of-cancel_held [] = ground arith
  held_of-cancel_held (t ∷ ts) = grind (arith, held_of-cancel_held ts)

  pub valid_of-cancel_held :
      (ts : List Ticket) → valid_of k (cancel_held of_order ts) ≡ valid_of k ts
  unfolding cancel_held
  valid_of-cancel_held [] = refl
  valid_of-cancel_held (t ∷ ts) = ground (arith, valid_of-cancel_held ts)

module _ (j k : ℕ) where
  pub price_sum-validate_held :
      (ts : List Ticket) → price_sum k (validate_held j ts) ≡ price_sum k ts
  unfolding validate_held
  price_sum-validate_held [] = refl
  price_sum-validate_held (t ∷ ts) = ground (arith, price_sum-validate_held ts)

  pub seats_of-validate_held : (ts : List Ticket) → seats_of k (validate_held j ts) ≡ seats_of k ts
  unfolding validate_held
  seats_of-validate_held [] = refl
  seats_of-validate_held (t ∷ ts) = ground (arith, seats_of-validate_held ts)

  pub held_of-validate_held :
      (ts : List Ticket) → held_of k (validate_held j ts) ≡ (if k == j then 0 else held_of k ts)
  unfolding validate_held
  held_of-validate_held [] = ground arith
  held_of-validate_held (t ∷ ts) = ground (arith, held_of-validate_held ts)

  pub valid_of-validate_held :
      (ts : List Ticket)
      → valid_of k (validate_held j ts)
        ≡ (if k == j then valid_of k ts + held_of k ts else valid_of k ts)
  unfolding validate_held
  valid_of-validate_held [] = ground arith
  valid_of-validate_held (t ∷ ts) = ground (arith, valid_of-validate_held ts)

module _ (k : ℕ) where
  pub price_sum-append :
      (ts us : List Ticket) → price_sum k (ts ++ us) ≡ price_sum k ts + price_sum k us
  price_sum-append [] us = omega arith
  price_sum-append (t ∷ ts) us = omega (arith, price_sum-append ts us)

  pub paid_sum-append :
      (ps qs : List Payment) → paid_sum k (ps ++ qs) ≡ paid_sum k ps + paid_sum k qs
  paid_sum-append [] qs = omega arith
  paid_sum-append (p ∷ ps) qs = omega (arith, paid_sum-append ps qs)

  -- a test that some row passes, and the number of rows that pass
  pub any_of-count-pos :
      (ps : List Payment) → completed_of k ps ≡ 1 → any (completed_for k) ps ≡ true
  any_of-count-pos [] h = absurd (omega arith)
  any_of-count-pos (p ∷ ps) h = ground (arith, any_of-count-pos ps)

  pub any_of-count-zero :
      (ps : List Payment) → completed_of k ps ≡ 0 → any (completed_for k) ps ≡ false
  any_of-count-zero [] h = refl
  any_of-count-zero (p ∷ ps) h = ground (arith, any_of-count-zero ps)

  pub no_active_ticket :
      (ts : List Ticket)
      → held_of k ts ≡ 0
      → valid_of k ts ≡ 0
      → any (λ t. (t.order_id == k) && is_active t.status) ts ≡ false
  no_active_ticket [] h v = refl
  no_active_ticket (t ∷ ts) h v = ground (arith, no_active_ticket ts)

  pub no_held_ticket :
      (ts : List Ticket)
      → held_of k ts ≡ 0
      → any (λ t. (t.order_id == k) && is_held t.status) ts ≡ false
  no_held_ticket [] h = refl
  no_held_ticket (t ∷ ts) h = ground (arith, no_held_ticket ts)

  pub no_valid_ticket :
      (ts : List Ticket)
      → valid_of k ts ≡ 0
      → any (λ t. (t.order_id == k) && is_valid t.status) ts ≡ false
  no_valid_ticket [] h = refl
  no_valid_ticket (t ∷ ts) h = ground (arith, no_valid_ticket ts)
