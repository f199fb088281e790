-- ===== src/Integrity/Seats.antt =====
-- app/models/sql_models.py: the partial unique index on seats, under the statements on `tickets`.
use pruet_web_dev.Base.{
  ℕ, ◌≡◌, refl, subst, sym, ◌∙◌, Bool, true, false, none, List, [], ◌∷◌, ◌++◌, arith, any,
  Option-cases, inl, inr,
}
use mathlib.Core.List.{append-nil, append_assoc}
use pruet_web_dev.Models.{Ticket, TicketStatus, is_active}
use pruet_web_dev.Models.Guards.{inserted, same_seat, ticket_violation, insert_tickets}
use pruet_web_dev.Orders.Sweep.{cancel_held}
use pruet_web_dev.Payments.{validate_held}

-- no two rows are active on one seat
abbrev pub NoDoubleBooking : List Ticket → Type 0
NoDoubleBooking [] = Unit {0}
NoDoubleBooking (t ∷ ts) = (any (same_seat t) ts ≡ false) × NoDoubleBooking ts

any_seat_append :
    (x t : Ticket) (ts : List Ticket)
    → any (same_seat x) ts ≡ false
    → same_seat x t ≡ false
    → any (same_seat x) (ts ++ t ∷ []) ≡ false
any_seat_append x t [] h s = ground arith
any_seat_append x t (u ∷ ts) h s = ground (arith, any_seat_append x t ts)

append-NoDoubleBooking :
    (ts : List Ticket) (t : Ticket)
    → NoDoubleBooking ts
    → any (λ u. same_seat u t) ts ≡ false
    → NoDoubleBooking (ts ++ t ∷ [])
append-NoDoubleBooking [] t h free = (refl, tt)
append-NoDoubleBooking (u ∷ ts) t h free =
    (any_seat_append u t ts h.0 (ground arith), append-NoDoubleBooking ts t h.1 (ground arith))

free_seat :
    (rows : List Ticket) (t : Ticket)
    → ticket_violation rows t ≡ none
    → any (λ u. same_seat u t) rows ≡ false
unfolding ticket_violation
free_seat rows t h = ground arith

insert_first :
    (rows ts rows' : List Ticket) (t : Ticket)
    → insert_tickets rows (t ∷ ts) ≡ inserted rows'
    → (ticket_violation rows t ≡ none) × (insert_tickets (rows ++ t ∷ []) ts ≡ inserted rows')
unfolding insert_tickets
insert_first rows ts rows' t e = elim (Option-cases (ticket_violation rows t)) [
  | inl free ↦ (free, ground arith)
  | inr (c, broken) ↦ absurd (ground arith)
]

-- An INSERT of tickets that the database lets pass books no seat twice.
pub insert_tickets-NoDoubleBooking :
    (rows ts rows' : List Ticket)
    → NoDoubleBooking rows
    → insert_tickets rows ts ≡ inserted rows'
    → NoDoubleBooking rows'
insert_tickets-NoDoubleBooking rows [] rows' h e =
    let same : rows ≡ rows' = unfold insert_tickets in cc e in subst NoDoubleBooking same h
insert_tickets-NoDoubleBooking rows (t ∷ ts) rows' h e =
    let (free, rest) = insert_first rows ts rows' t e in
    insert_tickets-NoDoubleBooking (rows ++ t ∷ []) ts rows'
      (append-NoDoubleBooking rows t h (free_seat rows t free)) rest

-- It adds just the rows that it was given, behind the others.
pub insert_tickets-append :
    (rows ts rows' : List Ticket) → insert_tickets rows ts ≡ inserted rows' → rows' ≡ rows ++ ts
insert_tickets-append rows [] rows' e =
    let same : rows ≡ rows' = unfold insert_tickets in cc e in sym same ∙ sym (append-nil rows)
insert_tickets-append rows (t ∷ ts) rows' e =
    insert_tickets-append (rows ++ t ∷ []) ts rows' (insert_first rows ts rows' t e).1
    ∙ append_assoc rows (t ∷ []) ts

-- Cancelling and validating tickets take no seat that is not taken already.
any_seat_cancel :
    (of_order : ℕ → Bool) (x : Ticket) (ts : List Ticket)
    → any (same_seat x) ts ≡ false
    → any (same_seat x) (cancel_held of_order ts) ≡ false
unfolding cancel_held
any_seat_cancel of_order x [] h = refl
any_seat_cancel of_order x (t ∷ ts) h = ground (arith, any_seat_cancel of_order x ts)

any_seat_validate :
    (k : ℕ) (x : Ticket) (ts : List Ticket)
    → any (same_seat x) ts ≡ false
    → any (same_seat x) (validate_held k ts) ≡ false
unfolding validate_held
any_seat_validate k x [] h = refl
any_seat_validate k x (t ∷ ts) h = ground (arith, any_seat_validate k x ts)

inactive_seat :
    (x : Ticket) (ts : List Ticket) → is_active x.status ≡ false → any (same_seat x) ts ≡ false
inactive_seat x [] h = refl
inactive_seat x (t ∷ ts) h = ground (arith, inactive_seat x ts h)

any_seat_valid :
    (x : Ticket) (ts : List Ticket)
    → is_active x.status ≡ true
    → any (same_seat x) ts ≡ false
    → any (same_seat (record x { status = TicketStatus.valid })) ts ≡ false
any_seat_valid x [] a h = refl
any_seat_valid x (t ∷ ts) a h = ground (arith, any_seat_valid x ts a)

pub cancel_held-NoDoubleBooking :
    (of_order : ℕ → Bool) (ts : List Ticket)
    → NoDoubleBooking ts
    → NoDoubleBooking (cancel_held of_order ts)
unfolding cancel_held
cancel_held-NoDoubleBooking of_order [] h = tt
cancel_held-NoDoubleBooking of_order (t ∷ ts) h = ground (
  arith,
  any_seat_cancel of_order t ts h.0,
  cancel_held-NoDoubleBooking of_order ts h.1,
  inactive_seat (record t { status = TicketStatus.cancelled }) (cancel_held of_order ts),
)

pub validate_held-NoDoubleBooking :
    (k : ℕ) (ts : List Ticket) → NoDoubleBooking ts → NoDoubleBooking (validate_held k ts)
unfolding validate_held
validate_held-NoDoubleBooking k [] h = tt
validate_held-NoDoubleBooking k (t ∷ ts) h = ground (
  arith,
  any_seat_validate k t ts h.0,
  validate_held-NoDoubleBooking k ts h.1,
  any_seat_valid t (validate_held k ts),
)
