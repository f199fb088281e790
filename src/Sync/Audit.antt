-- ===== src/Sync/Audit.antt =====
-- scripts/verify_consistency.py: inventory_checks on databases that are synchronised.
use pruet_web_dev.Base.{
  ℕ, ◌+◌, ◌≡◌, refl, sym, ap, ◌∙◌, true, false, ◌&&◌, List, [], ◌∷◌, ◌==◌, ==_iff, arith, All,
  count, Bool-cases, inl, inr, if◌then◌else◌,
}
use pruet_web_dev.Base.Int.{pos, ◌≤ℤ◌, int_laws}
use pruet_web_dev.Text.{Str, str_eq, str_eq_iff}
use pruet_web_dev.Models.{Ticket, is_active}
use pruet_web_dev.Mongo.{Zone, EventDoc}
use pruet_web_dev.Service.{World, Env, IsBson}
use pruet_web_dev.Seats.{SeatGroup}
use pruet_web_dev.Seats.Updates.{AllZones}
use pruet_web_dev.Seats.Capacity.{FitsAndKnown}
use pruet_web_dev.Orders.Sweep.{add_seat}
use pruet_web_dev.Consistency.{
  active_seats, active_count, tickets_in, ZoneRow, put_row, put_zones, zone_rows, inventory_checks,
  audit_once,
}
use pruet_web_dev.Integrity.Audit.{filter_none}
use pruet_web_dev.Sync.{in_zone, is_event, IsSynced}
use pruet_web_dev.Sync.Printed.{HasPrintedId}

module _ (e n : Str) where
  abbrev seat_at : Ticket → ℕ
  seat_at t = if str_eq t.event_id e && str_eq t.seat_zone n then 1 else 0

  same_group :
      (t : Ticket) (g : SeatGroup)
      → str_eq g.event_id t.event_id && str_eq g.seat_zone t.seat_zone ≡ false
      → str_eq g.event_id e && str_eq g.seat_zone n ≡ true
      → seat_at t ≡ 0
  same_group t g miss hit =
      let event : g.event_id ≡ e = (str_eq_iff g.event_id e).0 (ground arith) in
      let zone : g.seat_zone ≡ n = (str_eq_iff g.seat_zone n).0 (ground arith) in
      elim (Bool-cases (str_eq t.event_id e && str_eq t.seat_zone n)) [
        | inr other ↦ rw other refl
        | inl here ↦
            let event' : t.event_id ≡ e = (str_eq_iff t.event_id e).0 (ground arith) in
            let zone' : t.seat_zone ≡ n = (str_eq_iff t.seat_zone n).0 (ground arith) in
            let one = (str_eq_iff g.event_id t.event_id).1 (event ∙ sym event') in
            let two = (str_eq_iff g.seat_zone t.seat_zone).1 (zone ∙ sym zone') in
            absurd (ground arith)
      ]

  active_count-add_seat :
      (t : Ticket) (gs : List SeatGroup)
      → active_count e n (add_seat t gs) ≡ seat_at t + active_count e n gs
  unfolding add_seat active_count
  active_count-add_seat t [] = ground arith
  active_count-add_seat t (g ∷ gs) =
      let rest = active_count-add_seat t gs in
      elim (Bool-cases (str_eq g.event_id t.event_id && str_eq g.seat_zone t.seat_zone)) [
        | inl hit ↦
            let event : g.event_id ≡ t.event_id =
              (str_eq_iff g.event_id t.event_id).0 (ground arith) in
            let zone : g.seat_zone ≡ t.seat_zone =
              (str_eq_iff g.seat_zone t.seat_zone).0 (ground arith) in
            rw (hit, event, zone) (ground arith)
        | inr miss ↦ elim (Bool-cases (str_eq g.event_id e && str_eq g.seat_zone n)) [
          | inl here ↦ rw (miss, here, same_group t g miss here) (omega arith)
          | inr other ↦ rw (miss, other) rest
        ]
      ]

module _ (env : Env) (bson : IsBson env) (k : ℕ) where
  -- a printed id is that of the event, or prints differently
  is_event-hex :
      (oid : ℕ) → is_event env.object_id k (env.hex oid) ≡ str_eq (env.hex oid) (env.hex k)
  is_event-hex oid = elim (Bool-cases (str_eq (env.hex oid) (env.hex k))) [
    | inl same ↦
        let printed : env.hex oid ≡ env.hex k = (str_eq_iff (env.hex oid) (env.hex k)).0 same in
        rw (same, printed) (ground (arith, bson.object_id-hex k))
    | inr other ↦ elim (Bool-cases (oid == k)) [
      | inl e ↦
          let equal : oid ≡ k = (==_iff oid k).0 e in
          let self = (str_eq_iff (env.hex oid) (env.hex k)).1 (ap env.hex equal) in
          absurd (ground arith)
      | inr e ↦ rw other (ground (arith, bson.object_id-hex oid))
    ]
  ]

  seat_at_zone :
      (n : Str) (t : Ticket)
      → HasPrintedId env t
      → is_active t.status ≡ true
      → seat_at (env.hex k) n t ≡ (if in_zone env.object_id k n t then 1 else 0)
  seat_at_zone n t (oid, printed) active =
      rw (printed, is_event-hex oid, active)
        (elim (Bool-cases (str_eq t.seat_zone n)) [
          | inl same ↦
              let back = (str_eq_iff n t.seat_zone).1 (sym ((str_eq_iff t.seat_zone n).0 same)) in
              rw (same, back) refl
          | inr other ↦ elim (Bool-cases (str_eq n t.seat_zone)) [
            | inl back ↦
                let same = (str_eq_iff t.seat_zone n).1 (sym ((str_eq_iff n t.seat_zone).0 back)) in
                absurd (ground arith)
            | inr back ↦ rw (other, back) refl
          ]
        ])

  -- the audit counts the active tickets of the zone
  active_count-count :
      (n : Str) (ts : List Ticket)
      → All (HasPrintedId env) ts
      → active_count (env.hex k) n (active_seats ts) ≡ count (in_zone env.object_id k n) ts
  unfolding active_seats
  active_count-count n [] h = unfold active_count in refl
  active_count-count n (t ∷ ts) h =
      let rest = active_count-count n ts h.1 in
      elim (Bool-cases (is_active t.status)) [
        | inl active ↦
            let one = active_count-add_seat (env.hex k) n t (active_seats ts) in
            let same = seat_at_zone n t h.0 active in
            let here : in_zone env.object_id k n t
                ≡ (is_event env.object_id k t.event_id && str_eq n t.seat_zone) =
              rw active refl in
            rw active (ground arith)
        | inr other ↦ rw other (omega arith)
      ]

-- a row whose counter is the number that the audit counts, and not above the capacity
abbrev IsExact : List SeatGroup → ZoneRow → Type 0
IsExact active r = (r.booked ≡ tickets_in active r) × (r.booked ≤ℤ pos r.capacity)

put_row-IsExact :
    (active : List SeatGroup) (r : ZoneRow) (rows : List ZoneRow)
    → IsExact active r
    → All (IsExact active) rows
    → All (IsExact active) (put_row r rows)
unfolding put_row
put_row-IsExact active r [] h hs = (h, tt)
put_row-IsExact active r (q ∷ rows) h hs =
    let rest = put_row-IsExact active r rows h hs.1 in
    elim (Bool-cases (str_eq q.event_id r.event_id && str_eq q.name r.name)) [
      | inl same ↦ rw same (h, hs.1)
      | inr other ↦ rw other (hs.0, rest)
    ]

module _ (env : Env) (bson : IsBson env) (ts : List Ticket)
    (printed : All (HasPrintedId env) ts) where
  abbrev CountedHere : ℕ → Zone → Type 0
  CountedHere k z = z.booked_count ≡ pos (count (in_zone env.object_id k z.name) ts)

  put_zones-IsExact :
      (k : ℕ) (zs : List Zone) (rows : List ZoneRow)
      → All (CountedHere k) zs
      → All (FitsAndKnown [] k) zs
      → All (IsExact (active_seats ts)) rows
      → All (IsExact (active_seats ts)) (put_zones env k zs rows)
  unfolding put_zones
  put_zones-IsExact k [] rows c f hs = hs
  put_zones-IsExact k (z ∷ zs) rows c f hs =
      let exact : z.booked_count ≡ pos (active_count (env.hex k) z.name (active_seats ts)) =
        c.0 ∙ ap pos (sym (active_count-count env bson k z.name ts printed)) in
      put_zones-IsExact k zs _ c.1 f.1 (put_row-IsExact (active_seats ts) _ rows (exact, f.0.0) hs)

  zone_rows-IsExact :
      (ds : List EventDoc) (rows : List ZoneRow)
      → AllZones CountedHere ds
      → AllZones (FitsAndKnown []) ds
      → All (IsExact (active_seats ts)) rows
      → All (IsExact (active_seats ts)) (zone_rows env ds rows)
  unfolding zone_rows
  zone_rows-IsExact [] rows c f hs = hs
  zone_rows-IsExact (d ∷ ds) rows c f hs =
      zone_rows-IsExact ds _ c.1 f.1 (put_zones-IsExact d.id d.zones rows c.0 f.0 hs)

module _ (active : List SeatGroup) (rows : List ZoneRow) (h : All (IsExact active) rows) where
  none_negative : (inventory_checks active rows).negative ≡ []
  unfolding inventory_checks
  none_negative = filter_none (IsExact active) _ rows (λ r x. rw x.0 (grind int_laws)) h

  none_over_cap : (inventory_checks active rows).over_cap ≡ []
  unfolding inventory_checks
  none_over_cap = filter_none (IsExact active) _ rows (λ r x. grind int_laws) h

  none_below : (inventory_checks active rows).below ≡ []
  unfolding inventory_checks
  none_below = filter_none (IsExact active) _ rows (λ r x. rw x.0 (grind int_laws)) h

  none_above : (inventory_checks active rows).above ≡ []
  unfolding inventory_checks
  none_above = filter_none (IsExact active) _ rows (λ r x. rw x.0 (grind int_laws)) h

-- The audit of two databases that are synchronised, with event ids on the tickets as bson prints them,
-- finds no counter below zero, above its capacity, below or above the number of its tickets, and
-- nothing to repair.
pub audit_once-IsSynced :
    (env : Env) (w : World)
    → IsBson env
    → IsSynced env.object_id w
    → All (HasPrintedId env) w.pg.tickets
    → let r = audit_once env w.pg w.mongo in
      (r.inventory.negative ≡ [])
      × (r.inventory.over_cap ≡ [])
      × (r.inventory.below ≡ [])
      × (r.inventory.above ≡ [])
      × (r.drift ≡ [])
unfolding audit_once
audit_once-IsSynced env w bson s printed =
    let active = active_seats w.pg.tickets in
    let rows = zone_rows env w.mongo.events [] in
    let exact =
      zone_rows-IsExact env bson w.pg.tickets printed w.mongo.events [] s.counted s.no_oversell
        tt in
    let below = none_below active rows exact in
    let above = none_above active rows exact in
    (
      none_negative active rows exact,
      none_over_cap active rows exact,
      below,
      above,
      rw (below, above) refl,
    )
