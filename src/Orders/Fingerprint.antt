-- ===== src/Orders/Fingerprint.antt =====
-- app/services/order_service.py: existing_items_sig and request_items_sig of create_order_dual_db.
use pruet_web_dev.Base.{
  ◌≡◌, refl, sym, ap, ◌∙◌, subst, ℕ, suc, true, false, List, [], ◌∷◌, map, arith, length,
  Bool-cases, Option-cases, inl, inr,
}
use pruet_web_dev.Base.Sorting.{sort}
use pruet_web_dev.Base.SortingLaws.{length-sort}
use pruet_web_dev.Base.Canonical.{IsTotal, sort-map-sort}
use pruet_web_dev.Base.Rows.{find?_passes}
use pruet_web_dev.Text.{Str, str_eq, str_lt, str_eq_iff, str_eq_refl}
use pruet_web_dev.Text.Order.{str_lt_irrefl, str_lt_trans, str_lt_total}
use pruet_web_dev.Models.{Ticket}
use pruet_web_dev.Mongo.{EventDoc, Zone}
use pruet_web_dev.Service.{Env, ok}
use pruet_web_dev.Orders.{TicketItem, canonical_event_id, zone_key, pair_lt}
use pruet_web_dev.Orders.Idempotency.{signature_eq, existing_items_sig, request_items_sig}
use pruet_web_dev.Orders.Pricing.{
  ValidatedItem, match_zone, event_of, validated, validate_item, validate_items, lock_order,
}
use pruet_web_dev.Orders.Capacity.{validate_items_cons}
use pruet_web_dev.Orders.Create.{new_tickets}

pair_lt_irrefl : (x : Str × Str) → pair_lt x x ≡ false
unfolding pair_lt
pair_lt_irrefl (a, b) = ground (arith, str_lt_irrefl a, str_lt_irrefl b)

pair_lt_trans : (x y z : Str × Str) → pair_lt x y ≡ true → pair_lt y z ≡ true → pair_lt x z ≡ true
unfolding pair_lt
pair_lt_trans (a, b) (c, d) (e, f) h k = elim (Bool-cases (str_eq a c)) [
  | inl p ↦
      let same : a ≡ c = (str_eq_iff a c).0 p in
      let never : str_lt a c ≡ false = rw same (str_lt_irrefl c) in
      let second : str_lt b d ≡ true = ground arith in
      rw same (ground (arith, str_lt_trans b d f second))
  | inr p ↦
      let first : str_lt a c ≡ true = ground arith in
      elim (Bool-cases (str_eq c e)) [
        | inl q ↦
            let same : c ≡ e = (str_eq_iff c e).0 q in
            let less = subst (λ x. str_lt a x ≡ true) same first in ground arith
        | inr q ↦
            let next : str_lt c e ≡ true = ground arith in
            let less = str_lt_trans a c e first next in ground arith
      ]
]

pair_lt_antisym : (x y : Str × Str) → pair_lt x y ≡ false → pair_lt y x ≡ false → x ≡ y
unfolding pair_lt
pair_lt_antisym (a, b) (c, d) h k = elim (Bool-cases (str_eq a c)) [
  | inl p ↦
      let first : a ≡ c = (str_eq_iff a c).0 p in
      let back : str_eq c a ≡ true = (str_eq_iff c a).1 (sym first) in
      elim (Bool-cases (str_eq b d)) [
        | inl q ↦ let second : b ≡ d = (str_eq_iff b d).0 q in λ i. (first i, second i)
        | inr q ↦ let less = str_lt_total b d q in absurd (ground arith)
      ]
  | inr p ↦ let less = str_lt_total a c p in absurd (ground arith)
]

pair_lt-IsTotal : IsTotal pair_lt
pair_lt-IsTotal = record {
  irrefl = pair_lt_irrefl;
  trans = pair_lt_trans;
  antisym = pair_lt_antisym;
}

pub signature_eq_refl : (s : List (Str × Str)) → signature_eq s s ≡ true
signature_eq_refl [] = refl
signature_eq_refl ((a, b) ∷ s) = ground (arith, str_eq_refl a, str_eq_refl b, signature_eq_refl s)

-- the entry of an item
abbrev entry_of : ValidatedItem → Str × Str
entry_of v = (v.event_id, zone_key v.seat_zone)

abbrev asked_entry : Env → TicketItem → Str × Str
asked_entry env i = (canonical_event_id env i.event_id, zone_key i.seat_zone)

validated_entry :
    (env : Env) (events : List EventDoc) (i : TicketItem) (v : ValidatedItem)
    → validate_item env events i ≡ ok v
    → entry_of v ≡ asked_entry env i
unfolding validate_item canonical_event_id match_zone
validated_entry env events i v h = elim (Option-cases (env.object_id i.event_id)) [
  | inl e ↦ absurd (ground arith)
  | inr (oid, e) ↦ elim (Option-cases (event_of oid events)) [
    | inl e' ↦ absurd (ground arith)
    | inr (d, e') ↦ elim (Option-cases (match_zone i.seat_zone d.zones)) [
      | inl e'' ↦ absurd (ground arith)
      | inr (z, e'') ↦
          let same : validated env i oid d z ≡ v = ground arith in
          let zone : zone_key z.name ≡ zone_key i.seat_zone =
            (str_eq_iff (zone_key z.name) (zone_key i.seat_zone)).0 (
              find?_passes (λ (y : Zone). str_eq (zone_key y.name) (zone_key i.seat_zone)) d.zones z
                e'') in
          let printed : env.hex oid ≡ canonical_event_id env i.event_id = ground arith in
          rw (← same) (λ j. (printed j, zone j))
    ]
  ]
]

validated_entries :
    (env : Env) (events : List EventDoc) (is : List TicketItem) (vs : List ValidatedItem)
    → validate_items env events is ≡ ok vs
    → map entry_of vs ≡ map (asked_entry env) is
validated_entries env events [] vs h =
    let none_left : [] ≡ vs = unfold validate_items in ground arith in
    sym (ap (map entry_of) none_left)
validated_entries env events (i ∷ is) vs h =
    let (v, rest, hv, hr, e) = validate_items_cons env events i is vs h in
    ap (map entry_of) e
    ∙ ap (λ x. x ∷ map entry_of rest) (validated_entry env events i v hv)
    ∙ ap (λ x. asked_entry env i ∷ x) (validated_entries env events is rest hr)

ticket_entries :
    (env : Env) (k j : ℕ) (vs : List ValidatedItem)
    → map (λ (t : Ticket). (t.event_id, zone_key t.seat_zone)) (new_tickets env k j vs)
      ≡ map entry_of vs
unfolding new_tickets
ticket_entries env k j [] = refl
ticket_entries env k j (v ∷ vs) = ap (λ x. entry_of v ∷ x) (ticket_entries env k (suc j) vs)

-- The tickets of an order have the fingerprint of its request, in whatever order they were locked.
pub new_tickets-signature :
    (env : Env) (events : List EventDoc) (k : ℕ) (is : List TicketItem) (vs : List ValidatedItem)
    → validate_items env events is ≡ ok vs
    → existing_items_sig (new_tickets env k 0 (lock_order vs)) ≡ request_items_sig env is
unfolding existing_items_sig request_items_sig lock_order
new_tickets-signature env events k is vs h =
    ap (sort pair_lt) (ticket_entries env k 0 (lock_order vs))
    ∙ sort-map-sort pair_lt pair_lt-IsTotal _ entry_of vs
    ∙ ap (sort pair_lt) (validated_entries env events is vs h)

length-new_tickets :
    (env : Env) (k j : ℕ) (vs : List ValidatedItem) → length (new_tickets env k j vs) ≡ length vs
unfolding new_tickets
length-new_tickets env k j [] = refl
length-new_tickets env k j (v ∷ vs) = ap suc (length-new_tickets env k (suc j) vs)

length-validated :
    (env : Env) (events : List EventDoc) (is : List TicketItem) (vs : List ValidatedItem)
    → validate_items env events is ≡ ok vs
    → length vs ≡ length is
length-validated env events [] vs h =
    let none_left : [] ≡ vs = unfold validate_items in ground arith in sym (ap length none_left)
length-validated env events (i ∷ is) vs h =
    let (v, rest, hv, hr, e) = validate_items_cons env events i is vs h in
    ap length e ∙ ap suc (length-validated env events is rest hr)

pub length-tickets :
    (env : Env) (events : List EventDoc) (k : ℕ) (is : List TicketItem) (vs : List ValidatedItem)
    → validate_items env events is ≡ ok vs
    → length (new_tickets env k 0 (lock_order vs)) ≡ length is
unfolding lock_order
length-tickets env events k is vs h =
    length-new_tickets env k 0 (lock_order vs)
    ∙ length-sort _ vs
    ∙ length-validated env events is vs h
