-- ===== src/Orders/Capacity.antt =====
-- app/services/order_service.py: where the capacities that create_order_dual_db reserves by come from.
use pruet_web_dev.Base.{
  ℕ, ◌≤◌, ◌≡◌, refl, subst, sym, ◌∙◌, true, false, some, List, [], ◌∷◌, ◌==◌, ==_iff, arith, All,
  Bool-cases, Option-cases, inl, inr,
}
use pruet_web_dev.Base.SortingLaws.{All-map₂}
use pruet_web_dev.Base.Rows.{find?_passes}
use pruet_web_dev.Base.Distinct.{All-map, All-const, Distinct, found_alone}
use pruet_web_dev.Text.{Str, str_eq_iff}
use pruet_web_dev.Mongo.{Zone, EventDoc}
use pruet_web_dev.Service.{Env, Result, ok, err}
use pruet_web_dev.Seats.{ZoneRequest, named}
use pruet_web_dev.Seats.Updates.{AllZones, same_id, same_name, DistinctDocs}
use pruet_web_dev.Seats.Capacity.{Fits, Knows, FitsAndKnown}
use pruet_web_dev.Orders.{TicketItem}
use pruet_web_dev.Orders.Pricing.{
  ValidatedItem, match_zone, event_of, validated, validate_item, validate_items, first_request,
  add_request, same_zone, collect_requests,
}

-- the request of the item knows the capacities
abbrev pub Informed : List EventDoc → ZoneRequest → Type 0
Informed events r = AllZones (λ k z. Knows k z r) events

name_swap : (y z : Zone) → same_name y z ≡ true → same_name z y ≡ true
name_swap y z e = (str_eq_iff z.name y.name).1 (sym ((str_eq_iff y.name z.name).0 e))

id_swap : (d e : EventDoc) → same_id d e ≡ true → same_id e d ≡ true
id_swap d e h = ground arith

-- the zone that is matched has the capacity of every zone of its name
matched_capacity :
    (seat_zone : Str) (zs : List Zone) (m : Zone)
    → Distinct same_name zs
    → match_zone seat_zone zs ≡ some m
    → All (λ z. named m.name z ≡ true → m.capacity ≤ z.capacity) zs
unfolding match_zone
matched_capacity seat_zone zs m d h =
    All-map (λ z. same_name z m ≡ true → z ≡ m)
      (λ z. named m.name z ≡ true → m.capacity ≤ z.capacity) zs
      (λ z only e. subst (λ (y : Zone). m.capacity ≤ y.capacity) (sym (only e)) (omega arith))
      (found_alone same_name name_swap _ zs m d h)

-- what an item was validated against
pub record Origin (env : Env) (events : List EventDoc) (item : TicketItem) (v : ValidatedItem)
    : Type 0 where
  pub oid : ℕ
  pub doc : EventDoc
  pub zone : Zone
  pub has_doc : event_of oid events ≡ some doc
  pub has_zone : match_zone item.seat_zone doc.zones ≡ some zone
  pub is_validated : v ≡ validated env item oid doc zone

pub validate_item-Origin :
    (env : Env) (events : List EventDoc) (item : TicketItem) (v : ValidatedItem)
    → validate_item env events item ≡ ok v
    → Origin env events item v
unfolding validate_item
validate_item-Origin env events item v h = elim (Option-cases (env.object_id item.event_id)) [
  | inl e ↦ absurd (ground arith)
  | inr (oid, e) ↦ elim (Option-cases (event_of oid events)) [
    | inl e' ↦ absurd (ground arith)
    | inr (d, e') ↦ elim (Option-cases (match_zone item.seat_zone d.zones)) [
      | inl e'' ↦ absurd (ground arith)
      | inr (z, e'') ↦ record {
        oid = oid;
        doc = d;
        zone = z;
        has_doc = e';
        has_zone = e'';
        is_validated = ground arith;
      }
    ]
  ]
]

validated-Informed :
    (env : Env) (events : List EventDoc) (item : TicketItem) (v : ValidatedItem)
    → DistinctDocs events
    → Origin env events item v
    → Informed events (first_request v)
validated-Informed env events item v (ids, names) o =
    subst (λ (u : ValidatedItem). Informed events (first_request u)) (sym o.is_validated)
      (All-map₂ (λ d. same_id d o.doc ≡ true → d ≡ o.doc) (λ d. Distinct same_name d.zones)
        (λ d.
          All (λ z. Knows d.id z (first_request (validated env item o.oid o.doc o.zone))) d.zones)
        events of_doc (found_alone same_id id_swap _ events o.doc ids o.has_doc) names)
  where
    oid_eq : o.doc.id ≡ o.oid
    oid_eq =
        (==_iff o.doc.id o.oid).0
          (find?_passes (λ (d : EventDoc). d.id == o.oid) events o.doc o.has_doc)

    in_doc :
        Distinct same_name o.doc.zones
        → All
            (λ z. Knows o.doc.id z (first_request (validated env item o.oid o.doc o.zone)))
            o.doc.zones
    in_doc ns =
        All-map (λ z. named o.zone.name z ≡ true → o.zone.capacity ≤ z.capacity)
          (λ z. Knows o.doc.id z (first_request (validated env item o.oid o.doc o.zone)))
          o.doc.zones (λ z f _ e. f e)
          (matched_capacity item.seat_zone o.doc.zones o.zone ns o.has_zone)

    of_doc :
        (d : EventDoc)
        → (same_id d o.doc ≡ true → d ≡ o.doc)
        → Distinct same_name d.zones
        → All (λ z. Knows d.id z (first_request (validated env item o.oid o.doc o.zone))) d.zones
    of_doc d only ns = elim (Bool-cases (same_id d o.doc)) [
      | inl e ↦
          subst
            (λ (x : EventDoc).
              Distinct same_name x.zones
              → All (λ z. Knows x.id z (first_request (validated env item o.oid o.doc o.zone)))
                  x.zones)
            (sym (only e)) in_doc ns
      | inr e ↦
          All-const (λ z. Knows d.id z (first_request (validated env item o.oid o.doc o.zone)))
            d.zones (λ z k _. absurd (other_doc e (oid_eq ∙ k)))
    ]
      where
        other_doc : same_id d o.doc ≡ false → o.doc.id ≡ d.id → ⊥
        other_doc e k = ground arith

-- the first item is validated, and so are the others
abbrev pub Taken : Env → List EventDoc → TicketItem → List TicketItem → List ValidatedItem → Type 0
Taken env events i is vs =
    (v : ValidatedItem) × (rest : List ValidatedItem) × (validate_item env events i ≡ ok v)
    × (validate_items env events is ≡ ok rest)
    × (vs ≡ v ∷ rest)

pub validate_items_cons :
    (env : Env) (events : List EventDoc) (i : TicketItem) (is : List TicketItem)
    (vs : List ValidatedItem)
    → validate_items env events (i ∷ is) ≡ ok vs
    → Taken env events i is vs
unfolding validate_items
validate_items_cons env events i is vs h =
    by_results (validate_item env events i) (validate_items env events is) refl refl
  where
    by_results :
        (r : Result ValidatedItem) (rs : Result (List ValidatedItem))
        → validate_item env events i ≡ r
        → validate_items env events is ≡ rs
        → Taken env events i is vs
    by_results (ok v) (ok rest) e e' = (v, rest, e, e', ground arith)
    by_results (ok v) (err x) e e' = absurd (ground arith)
    by_results (err x) rs e e' = absurd (ground arith)

abbrev pub AllInformed : List EventDoc → List ValidatedItem → Type 0
AllInformed events vs = All (λ v. Informed events (first_request v)) vs

pub validate_items-Informed :
    (env : Env) (events : List EventDoc) (is : List TicketItem) (vs : List ValidatedItem)
    → DistinctDocs events
    → validate_items env events is ≡ ok vs
    → AllInformed events vs
validate_items-Informed env events [] vs d h =
    let none_left : [] ≡ vs = unfold validate_items in ground arith in
    subst (AllInformed events) none_left tt
validate_items-Informed env events (i ∷ is) vs d h =
    let (v, rest, hv, hr, e) = validate_items_cons env events i is vs h in
    subst (AllInformed events) (sym e) (
      validated-Informed env events i v d (validate_item-Origin env events i v hv),
      validate_items-Informed env events is rest d hr,
    )

module _ (events : List EventDoc) where
  add_request-Informed :
      (v : ValidatedItem) (rs : List ZoneRequest)
      → Informed events (first_request v)
      → All (Informed events) rs
      → All (Informed events) (add_request v rs)
  unfolding add_request
  add_request-Informed v [] h hs = (h, tt)
  add_request-Informed v (r ∷ rs) h hs = elim (Bool-cases (same_zone v r)) [
    | inl e ↦ rw e (hs.0, hs.1)
    | inr e ↦ rw e (hs.0, add_request-Informed v rs h hs.1)
  ]

  pub collect_requests-Informed :
      (vs : List ValidatedItem) (rs : List ZoneRequest)
      → AllInformed events vs
      → All (Informed events) rs
      → All (Informed events) (collect_requests vs rs)
  unfolding collect_requests
  collect_requests-Informed [] rs h hs = hs
  collect_requests-Informed (v ∷ vs) rs h hs =
      collect_requests-Informed vs (add_request v rs) h.1 (add_request-Informed v rs h.0 hs)

  -- the requests, put behind the counters of the zones
  pub Informed-NoOversell :
      (rs : List ZoneRequest)
      → AllZones (λ k z. Fits z) events
      → All (Informed events) rs
      → AllZones (FitsAndKnown rs) events
  Informed-NoOversell [] fits h =
      All-map (λ d. All Fits d.zones) (λ d. All (FitsAndKnown [] d.id) d.zones) events
        (λ d. All-map Fits (FitsAndKnown [] d.id) d.zones (λ z f. (f, tt))) fits
  Informed-NoOversell (r ∷ rs) fits h =
      All-map₂ (λ d. All (FitsAndKnown rs d.id) d.zones) (λ d. All (λ z. Knows d.id z r) d.zones)
        (λ d. All (FitsAndKnown (r ∷ rs) d.id) d.zones) events
        (λ d.
          All-map₂ (FitsAndKnown rs d.id) (λ z. Knows d.id z r) (FitsAndKnown (r ∷ rs) d.id) d.zones
            (λ z f k. (f.0, (k, f.1))))
        (Informed-NoOversell rs fits h.1) h.0
