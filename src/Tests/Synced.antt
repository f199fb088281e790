-- ===== src/Tests/Synced.antt =====
-- Orders, payments and the clean-up in the small hall, with the counters beside the tickets.
use pruet_web_dev.Base.{
  length, ℕ, zero, suc, ◌≡◌, refl, ap, false, Option, none, some, [], ◌∷◌, ◌==◌, arith, inl, inr,
  if◌then◌else◌, Option-cases,
}
use pruet_web_dev.Base.Int.{pos}
use pruet_web_dev.Text.{Str, text, lower, to_lower}
use pruet_web_dev.Service.{World, Env, IsBson}
use pruet_web_dev.Orders.{OrderCreate}
use pruet_web_dev.Models.{Order}
use pruet_web_dev.Orders.Create.{create_order_dual_db, new_order}
use pruet_web_dev.Payments.{process_order_payment}
use pruet_web_dev.Consistency.{audit_once, order_total_mismatch}
use pruet_web_dev.Sync.{IsSynced}
use pruet_web_dev.Sync.Create.{create_order_dual_db-IsSynced}
use pruet_web_dev.Sync.Services.{process_order_payment-IsSynced}
use pruet_web_dev.Sync.History.{Served, start, ordered, paid, InOrder, audit_once-Served}
use pruet_web_dev.Tests.Data.{calm, gala, hall, documents, opened, booking, full_price}

-- ids that are printed as so many letters
unfoldable spell : ℕ → Str
spell zero = []
spell (suc n) = 97 ∷ spell n

unfoldable unspell : Str → Option ℕ
unspell [] = some 0
unspell (c ∷ s) =
    let rest = unspell s in
    if c == 97 then (elim rest [ none ↦ none | some n ↦ some (suc n) ]) else none

unspell-spell : (n : ℕ) → unspell (spell n) ≡ some n
unfolding spell unspell
unspell-spell zero = refl
unspell-spell (suc n) = let rest = unspell-spell n in rw rest refl

spell-unspell : (s : Str) (n : ℕ) → unspell s ≡ some n → spell n ≡ lower s
unfolding spell unspell lower to_lower
spell-unspell [] n h = let same : 0 ≡ n = ground arith in rw (← same) refl
spell-unspell (c ∷ s) n h =
    let rest = spell-unspell s in
    elim (Option-cases (unspell s)) [
      | inl e ↦ absurd (ground arith)
      | inr (m, e) ↦
          let letter : c ≡ 97 = ground arith in
          let same : suc m ≡ n = ground arith in
          rw (← same, letter) (ap (λ (x : Str). 97 ∷ x) (rest m e))
    ]

abbrev spelled : ℕ → Env
spelled now = record (calm now) { object_id = unspell; hex = spell }

spelled-IsBson : (now : ℕ) → IsBson (spelled now)
spelled-IsBson now = record { object_id-hex = unspell-spell; hex-object_id = spell-unspell }

-- no seat is sold
abbrev quiet : World
quiet = record opened {
  mongo = record documents {
    events = record gala { zones = record hall { booked_count = pos 0 } ∷ [] } ∷ [];
  };
}

quiet-InOrder : InOrder (spelled 1000) quiet
quiet-InOrder = record {
  sound = record {
    orders_fit = tt;
    no_double_booking = tt;
    no_double_charge = tt;
    distinct_ids = tt;
    orders_below = tt;
    tickets_below = tt;
    payments_below = tt;
  };
  synced = record {
    counted = ((refl, tt), tt);
    no_oversell = (((omega arith, tt), tt), tt);
    distinct = ((refl, tt), ((refl, tt), tt));
  };
  printed = tt;
}

abbrev spelled_booking : OrderCreate
spelled_booking = record booking {
  items =
      record {
        event_id = text "aaaaaaa";
        seat_zone = text "a";
        seat_number = some (text "1");
        price = none;
      }
      ∷ [];
}

abbrev ordered_world : World
ordered_world = (create_order_dual_db (spelled 1000) spelled_booking none quiet).1

create_order_dual_db-IsSynced_example : IsSynced unspell ordered_world
create_order_dual_db-IsSynced_example =
    create_order_dual_db-IsSynced (spelled 1000) spelled_booking none quiet refl (λ n. refl)
      (spelled-IsBson 1000) quiet-InOrder.synced

process_order_payment-IsSynced_example :
    IsSynced unspell (process_order_payment (spelled 1200) 2 full_price ordered_world).1
process_order_payment-IsSynced_example =
    process_order_payment-IsSynced (spelled 1200) 2 full_price ordered_world refl (λ n. refl)
      (create_order_dual_db-IsSynced (spelled 1000) spelled_booking none quiet refl (λ n. refl)
        (spelled-IsBson 1000) quiet-InOrder.synced)

abbrev served_world : World
served_world = (process_order_payment (spelled 1200) 2 full_price ordered_world).1

quiet-Served : Served (spelled 1000) quiet served_world
quiet-Served =
    paid 1200 (spelled 1200).token none (λ _. false) 2 full_price
      (ordered 1000 (spelled 1000).token none (λ _. false) spelled_booking none start)

audit_once-Served_example :
    let r = audit_once (spelled 1000) served_world.pg served_world.mongo in
    (r.pg_results ≡ 0 ∷ 0 ∷ 0 ∷ 0 ∷ length (order_total_mismatch served_world.pg) ∷ 0 ∷ 0 ∷ [])
    × ((r.inventory.negative ≡ [])
        × (r.inventory.over_cap ≡ [])
        × (r.inventory.below ≡ [])
        × (r.inventory.above ≡ [])
        × (r.drift ≡ []))
audit_once-Served_example =
    audit_once-Served (spelled 1000) quiet served_world refl (λ n. refl) (spelled-IsBson 1000)
      quiet-InOrder quiet-Served

abbrev first_key : Option Str
first_key = some (text "once")

abbrev first_order : Order
first_order = new_order (spelled 1000) spelled_booking first_key 100000000 quiet.pg
