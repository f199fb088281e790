-- ===== src/Sync/Tickets.antt =====
-- app/services/order_service.py and app/services/payment_service.py: the seats of the active tickets
-- when tickets are cancelled or validated, and the groups that are counted from them.
use pruet_web_dev.Base.{
  ℕ, suc, ◌+◌, ◌≡◌, refl, Bool, true, false, ◌&&◌, Option, none, some, List, [], ◌∷◌, ◌==◌, arith,
  count, Bool-cases, Option-cases, inl, inr, if◌then◌else◌,
}
use pruet_web_dev.Text.{Str, str_eq, str_eq_iff}
use pruet_web_dev.Models.{Ticket, TicketStatus, is_held, is_active}
use pruet_web_dev.Seats.{SeatGroup}
use pruet_web_dev.Seats.Totals.{total}
use pruet_web_dev.Orders.Sweep.{add_seat, count_held, cancel_held}
use pruet_web_dev.Payments.{validate_held}
use pruet_web_dev.Sync.{taken}
use pruet_web_dev.Sync.{in_zone}
use pruet_web_dev.Sync.Groups.{group_reserved, group_refused, group_read}

module _ (object_id : Str → Option ℕ) (k : ℕ) (n : Str) where
  -- the seats of the zone among some of one event id and zone name
  unfoldable pub seats_in : Option ℕ → Str → ℕ → ℕ
  seats_in none name q = 0
  seats_in (some oid) name q = if (oid == k) && str_eq n name then q else 0

  seats_in-suc :
      (o : Option ℕ) (name : Str) (q : ℕ)
      → seats_in o name (suc q) ≡ seats_in o name 1 + seats_in o name q
  unfolding seats_in
  seats_in-suc none name q = omega arith
  seats_in-suc (some oid) name q = ground arith

  total-group :
      (g : SeatGroup) (gs : List SeatGroup)
      → total (group_reserved object_id (g ∷ gs)) k n
        ≡ seats_in (object_id g.event_id) g.seat_zone g.seats
          + total (group_reserved object_id gs) k n
  unfolding seats_in
  total-group g gs = elim (Option-cases (object_id g.event_id)) [
    | inl e ↦ rw (group_refused object_id g gs e, e) (omega arith)
    | inr (oid, e) ↦ rw (group_read object_id g gs oid e, e) refl
  ]

  pub total-taken :
      (t : Ticket) (ts : List Ticket)
      → total (taken object_id (t ∷ ts)) k n
        ≡ (if is_active t.status then seats_in (object_id t.event_id) t.seat_zone 1 else 0)
          + total (taken object_id ts) k n
  unfolding seats_in taken
  total-taken t ts = elim (Bool-cases (is_active t.status)) [
    | inr e ↦ rw e (omega arith)
    | inl e ↦ elim (Option-cases (object_id t.event_id)) [
      | inl e' ↦ rw (e, e') (omega arith)
      | inr (oid, e') ↦ rw (e, e') refl
    ]
  ]

  add_hit :
      (t : Ticket) (g : SeatGroup) (gs : List SeatGroup)
      → str_eq g.event_id t.event_id && str_eq g.seat_zone t.seat_zone ≡ true
      → add_seat t (g ∷ gs) ≡ record g { seats = suc g.seats } ∷ gs
  unfolding add_seat
  add_hit t g gs e = rw e refl

  add_miss :
      (t : Ticket) (g : SeatGroup) (gs : List SeatGroup)
      → str_eq g.event_id t.event_id && str_eq g.seat_zone t.seat_zone ≡ false
      → add_seat t (g ∷ gs) ≡ g ∷ add_seat t gs
  unfolding add_seat
  add_miss t g gs e = rw e refl

  abbrev seat_of : Ticket → ℕ
  seat_of t = seats_in (object_id t.event_id) t.seat_zone 1

  total-add_seat :
      (t : Ticket) (gs : List SeatGroup)
      → total (group_reserved object_id (add_seat t gs)) k n
        ≡ seat_of t + total (group_reserved object_id gs) k n
  total-add_seat t [] =
      unfold add_seat in
      total-group (record { event_id = t.event_id; seat_zone = t.seat_zone; seats = 1 }) []
  total-add_seat t (g ∷ gs) =
      let rest = total-add_seat t gs in
      elim (Bool-cases (str_eq g.event_id t.event_id && str_eq g.seat_zone t.seat_zone)) [
        | inl e ↦
            let event : g.event_id ≡ t.event_id =
              (str_eq_iff g.event_id t.event_id).0 (ground arith) in
            let zone : g.seat_zone ≡ t.seat_zone =
              (str_eq_iff g.seat_zone t.seat_zone).0 (ground arith) in
            let same : seats_in (object_id g.event_id) g.seat_zone 1 ≡ seat_of t =
              rw (event, zone) refl in
            let more = seats_in-suc (object_id g.event_id) g.seat_zone g.seats in
            let old = total-group g gs in
            let new = total-group (record g { seats = suc g.seats }) gs in
            rw (add_hit t g gs e) (omega arith)
        | inr e ↦
            let old = total-group g gs in
            let new = total-group g (add_seat t gs) in rw (add_miss t g gs e) (omega arith)
      ]

  held_is_active : (s : TicketStatus) → is_held s ≡ true → is_active s ≡ true
  held_is_active s h = ground arith

  count_held_hit :
      (p : ℕ → Bool) (t : Ticket) (ts : List Ticket)
      → p t.order_id && is_held t.status ≡ true
      → (count_held p (t ∷ ts) ≡ add_seat t (count_held p ts))
        × (cancel_held p (t ∷ ts) ≡ record t { status = TicketStatus.cancelled } ∷ cancel_held p ts)
  unfolding count_held cancel_held
  count_held_hit p t ts e = (rw e refl, rw e refl)

  count_held_miss :
      (p : ℕ → Bool) (t : Ticket) (ts : List Ticket)
      → p t.order_id && is_held t.status ≡ false
      → (count_held p (t ∷ ts) ≡ count_held p ts) × (cancel_held p (t ∷ ts) ≡ t ∷ cancel_held p ts)
  unfolding count_held cancel_held
  count_held_miss p t ts e = (rw e refl, rw e refl)

  -- the active tickets are those that are cancelled and those that stay
  pub total-cancel_held :
      (p : ℕ → Bool) (ts : List Ticket)
      → total (taken object_id ts) k n
        ≡ total (group_reserved object_id (count_held p ts)) k n
          + total (taken object_id (cancel_held p ts)) k n
  total-cancel_held p [] = unfold count_held cancel_held group_reserved taken in refl
  total-cancel_held p (t ∷ ts) =
      let rest = total-cancel_held p ts in
      let before = total-taken t ts in
      elim (Bool-cases (p t.order_id && is_held t.status)) [
        | inl e ↦
            let (groups, tickets) = count_held_hit p t ts e in
            let added = total-add_seat t (count_held p ts) in
            let after =
              total-taken (record t { status = TicketStatus.cancelled }) (cancel_held p ts) in
            let active : is_active t.status ≡ true = held_is_active t.status (ground arith) in
            rw (groups, tickets) (ground arith)
        | inr e ↦
            let (groups, tickets) = count_held_miss p t ts e in
            let after = total-taken t (cancel_held p ts) in rw (groups, tickets) (omega arith)
      ]

  -- a held ticket that becomes valid stays active
  pub total-validate_held :
      (order_id : ℕ) (ts : List Ticket)
      → total (taken object_id (validate_held order_id ts)) k n ≡ total (taken object_id ts) k n
  unfolding validate_held
  total-validate_held order_id [] = refl
  total-validate_held order_id (t ∷ ts) =
      let rest = total-validate_held order_id ts in
      let before = total-taken t ts in
      elim (Bool-cases ((t.order_id == order_id) && is_held t.status)) [
        | inl e ↦
            let active : is_active t.status ≡ true = held_is_active t.status (ground arith) in
            let after =
              total-taken (record t { status = TicketStatus.valid }) (validate_held order_id ts) in
            rw e (ground arith)
        | inr e ↦ let after = total-taken t (validate_held order_id ts) in rw e (omega arith)
      ]

  seat_counts :
      (u : Ticket)
      → (if is_active u.status then seats_in (object_id u.event_id) u.seat_zone 1 else 0)
        ≡ (if in_zone object_id k n u then 1 else 0)
  unfolding seats_in
  seat_counts u = ground arith

  pub seats_in-some :
      (raw name : Str) (oid q : ℕ)
      → object_id raw ≡ some oid
      → seats_in (object_id raw) name q ≡ (if (oid == k) && str_eq n name then q else 0)
  unfolding seats_in
  seats_in-some raw name oid q e = rw e refl

  -- the seats taken are the active tickets of the zone
  pub total-count :
      (ts : List Ticket) → total (taken object_id ts) k n ≡ count (in_zone object_id k n) ts
  total-count [] = unfold taken in refl
  total-count (t ∷ ts) =
      let rest = total-count ts in
      let here = total-taken t ts in let same = seat_counts t in omega arith
