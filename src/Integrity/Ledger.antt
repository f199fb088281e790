-- ===== src/Integrity/Ledger.antt =====
-- What the bookings of app/services promise, without tables: a ledger to which bookings are added, and
-- in which a pending one is confirmed or expires, once.
use pruet_web_dev.Base.{
  ℕ, ◌≡◌, refl, subst, sym, ap, ◌∙◌, Bool, true, false, ◌&&◌, List, [], ◌∷◌, ◌++◌, map, ◌==◌, arith,
  any, All, find?, update_where, Bool-cases, inl, inr, if◌then◌else◌, some,
}
use pruet_web_dev.Text.{Str}
use pruet_web_dev.Models.{Order, OrderStatus, is_pending}
use pruet_web_dev.Orders.Sweep.{claims, expire_orders}
use pruet_web_dev.Payments.{set_order}
use pruet_web_dev.Integrity.Invariant.{DistinctIds}

pub record Booking : Type 0 where
  pub id : ℕ
  pub order_number : Str
  pub user_id : ℕ
  pub total_amount : ℕ
  pub created_at : ℕ
  pub stage : OrderStatus

abbrev pub booking_of : Order → Booking
booking_of o = record {
  id = o.id;
  order_number = o.order_number;
  user_id = o.user_id;
  total_amount = o.total_amount;
  created_at = o.created_at;
  stage = o.status;
}

abbrev pub ledger : List Order → List Booking
ledger os = map booking_of os

-- a pending booking moves on; any other stays
abbrev pub resolve : ℕ → OrderStatus → List Booking → List Booking
resolve k to = update_where (λ b. (b.id == k) && is_pending b.stage) (λ b. record b { stage = to })

-- one turn of the ledger
pub data Turn (s : List Booking) : List Booking → Type 0 where
  opened :
      (b : Booking)
      → b.stage ≡ OrderStatus.pending
      → any (λ c. c.id == b.id) s ≡ false
      → Turn s (s ++ b ∷ [])
  confirmed : (k : ℕ) → Turn s (resolve k OrderStatus.confirmed s)
  expired : (k : ℕ) → Turn s (resolve k OrderStatus.expired s)

pub data Turns (s : List Booking) : List Booking → Type 0 where
  stay : Turns s s
  turn : {t u : List Booking} → Turns s t → Turn t u → Turns s u

pub then-Turns : {s t u : List Booking} → Turns s t → Turns t u → Turns s u
then-Turns h stay = h
then-Turns h (turn k last) = turn (then-Turns h k) last

-- all orders with an id are pending
abbrev pub PendingAt : (ℕ → Bool) → List Order → Type 0
PendingAt at os = All (λ (q : Order). at q.id ≡ true → q.status ≡ OrderStatus.pending) os

others-PendingAt :
    (k : ℕ) (ps : List Order) → any (λ p. p.id == k) ps ≡ false → PendingAt (λ j. j == k) ps
others-PendingAt k [] h = tt
others-PendingAt k (p ∷ ps) h = ((λ e. absurd (ground arith)), others-PendingAt k ps (ground arith))

pub found-PendingAt :
    (o : Order) (os : List Order)
    → DistinctIds os
    → find? (λ p. p.id == o.id) os ≡ some o
    → o.status ≡ OrderStatus.pending
    → PendingAt (λ k. k == o.id) os
found-PendingAt o [] d found pending = tt
found-PendingAt o (q ∷ os) d found pending = elim (Bool-cases (q.id == o.id)) [
  | inl e ↦
      let same : q ≡ o = ground arith in
      (
        (λ _. ap (λ (x : Order). x.status) same ∙ pending),
        others-PendingAt o.id os
            (subst (λ (x : Order). any (λ p. p.id == x.id) os ≡ false) same d.0),
      )
  | inr e ↦ ((λ h. absurd (ground arith)), found-PendingAt o os d.1 (ground arith) pending)
]

resolved_one : ℕ → OrderStatus → Booking → Booking
resolved_one k to b = if (b.id == k) && is_pending b.stage then record b { stage = to } else b

set_row :
    (k : ℕ) (to : OrderStatus) (f : Order → Order) (q : Order)
    → booking_of (f q) ≡ record (booking_of q) { stage = to }
    → ((q.id == k) ≡ true → q.status ≡ OrderStatus.pending)
    → booking_of (if q.id == k then f q else q) ≡ resolved_one k to (booking_of q)
unfolding resolved_one
set_row k to f q same h = elim (Bool-cases (q.id == k)) [
  | inl e ↦
      let pending = h e in
      let hit : (q.id == k) && is_pending q.status ≡ true = ground arith in
      ap (λ b. booking_of (if b then f q else q)) e
      ∙ same
      ∙ sym (ap (λ b. if b then record (booking_of q) { stage = to } else booking_of q) hit)
  | inr e ↦ rw e refl
]

-- an UPDATE of a pending row that sets its status is a turn
pub ledger-set_order :
    (k : ℕ) (to : OrderStatus) (f : Order → Order) (os : List Order)
    → ((q : Order) → booking_of (f q) ≡ record (booking_of q) { stage = to })
    → PendingAt (λ j. j == k) os
    → ledger (set_order k f os) ≡ resolve k to (ledger os)
unfolding resolved_one
ledger-set_order k to f [] same h = refl
ledger-set_order k to f (o ∷ os) same h =
    ap (λ x. x ∷ ledger (set_order k f os)) (set_row k to f o (same o) h.0)
    ∙ ap (λ x. resolved_one k to (booking_of o) ∷ x) (ledger-set_order k to f os same h.1)

-- the turns of a batch of expired holds, the last claimed first
pub expire_each : List Order → List Booking → List Booking
expire_each [] bs = bs
expire_each (o ∷ os) bs = resolve o.id OrderStatus.expired (expire_each os bs)

pub expire_each-Turns :
    (claimed : List Order) (bs : List Booking) → Turns bs (expire_each claimed bs)
unfolding expire_each
expire_each-Turns [] bs = stay
expire_each-Turns (o ∷ os) bs = turn (expire_each-Turns os bs) (expired o.id)

expire_nobody : (os : List Order) → expire_orders (claims []) os ≡ os
unfolding expire_orders
expire_nobody [] = refl
expire_nobody (o ∷ os) = ap (λ x. o ∷ x) (expire_nobody os)

expired_row : (ℕ → Bool) → Order → Order
expired_row at q = if at q.id then record q { status = OrderStatus.expired } else q

same_swap : (m n : ℕ) → (m == n) ≡ (n == m)
same_swap m n = ground arith

expire_row_more :
    (o : Order) (claimed : List Order) (q : Order)
    → (claims (o ∷ claimed) q.id ≡ true → q.status ≡ OrderStatus.pending)
    → booking_of (expired_row (claims (o ∷ claimed)) q)
      ≡ resolved_one o.id OrderStatus.expired (booking_of (expired_row (claims claimed) q))
unfolding expired_row resolved_one
expire_row_more o claimed q h = elim (Bool-cases (o.id == q.id)) [
  | inl same ↦ elim (Bool-cases (claims claimed q.id)) [
    | inl e ↦ rw (same, e, same_swap q.id o.id, same) refl
    | inr e ↦
        let pending = h (ground arith) in rw (same, e, same_swap q.id o.id, same, pending) refl
  ]
  | inr other ↦ elim (Bool-cases (claims claimed q.id)) [
    | inl e ↦ rw (other, e, same_swap q.id o.id, other) refl
    | inr e ↦ rw (other, e, same_swap q.id o.id, other) refl
  ]
]

expire_one_more :
    (o : Order) (claimed os : List Order)
    → PendingAt (claims (o ∷ claimed)) os
    → ledger (expire_orders (claims (o ∷ claimed)) os)
      ≡ resolve o.id OrderStatus.expired (ledger (expire_orders (claims claimed) os))
unfolding expire_orders expired_row resolved_one
expire_one_more o claimed [] h = refl
expire_one_more o claimed (q ∷ os) h =
    ap (λ x. x ∷ ledger (expire_orders (claims (o ∷ claimed)) os)) (expire_row_more o claimed q h.0)
    ∙ ap
        (λ x.
          resolved_one o.id OrderStatus.expired (booking_of (expired_row (claims claimed) q)) ∷ x)
        (expire_one_more o claimed os h.1)

pub ledger-expire_orders :
    (claimed os : List Order)
    → PendingAt (claims claimed) os
    → ledger (expire_orders (claims claimed) os) ≡ expire_each claimed (ledger os)
unfolding expire_each
ledger-expire_orders [] os h = ap ledger (expire_nobody os)
ledger-expire_orders (o ∷ claimed) os h =
    expire_one_more o claimed os h
    ∙ ap (resolve o.id OrderStatus.expired) (ledger-expire_orders claimed os (fewer os h))
  where
    fewer : (ps : List Order) → PendingAt (claims (o ∷ claimed)) ps → PendingAt (claims claimed) ps
    fewer [] k = tt
    fewer (p ∷ ps) k = ((λ e. k.0 (ground arith)), fewer ps k.1)
