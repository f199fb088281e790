-- ===== src/Integrity/Charges.antt =====
-- app/models/sql_models.py: the partial unique index on completed payments.
use pruet_web_dev.Base.{ℕ, ◌+◌, ◌≤◌, ◌≡◌, refl, true, none, List, [], ◌∷◌, ◌++◌, arith}
use pruet_web_dev.Models.{Payment, is_completed}
use pruet_web_dev.Models.Guards.{payment_violation}
use pruet_web_dev.Integrity.Facts.{completed_of}

-- a completed payment has no second one for its order behind it
abbrev pub NoDoubleCharge : List Payment → Type 0
NoDoubleCharge [] = Unit {0}
NoDoubleCharge (p ∷ ps) =
    (is_completed p.status ≡ true → completed_of p.order_id ps ≡ 0) × NoDoubleCharge ps

completed_append :
    (k : ℕ) (ps : List Payment) (p : Payment)
    → completed_of k (ps ++ p ∷ []) ≡ completed_of k ps + completed_of k (p ∷ [])
completed_append k [] p = omega arith
completed_append k (q ∷ ps) p = omega (arith, completed_append k ps p)

-- A payment that the database lets pass charges no order twice.
pub append-NoDoubleCharge :
    (ps : List Payment) (p : Payment)
    → NoDoubleCharge ps
    → payment_violation ps p ≡ none
    → NoDoubleCharge (ps ++ p ∷ [])
unfolding payment_violation
append-NoDoubleCharge [] p h free = ((λ _. refl), tt)
append-NoDoubleCharge (q ∷ ps) p h free = (
  (λ c. ground (arith, h.0 c, completed_append q.order_id ps p)),
  append-NoDoubleCharge ps p h.1 (ground arith),
)

-- So an order has at most one completed payment.
pub completed_of-le-one : (k : ℕ) (ps : List Payment) → NoDoubleCharge ps → completed_of k ps ≤ 1
completed_of-le-one k [] h = omega arith
completed_of-le-one k (p ∷ ps) h = ground (arith, h.0, completed_of-le-one k ps h.1)
