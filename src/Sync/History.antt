-- ===== src/Sync/History.antt =====
-- Whole requests of app/services and whole runs of the clean-up, one after the other, and
-- scripts/verify_consistency.py after them.
use pruet_web_dev.Base.{length, none, ℕ, ◌≡◌, Bool, Option, [], ◌∷◌}
use pruet_web_dev.Text.{Str}
use pruet_web_dev.Models.Guards.{Constraint}
use pruet_web_dev.Mongo.{answered}
use pruet_web_dev.Errors.{Exc}
use pruet_web_dev.Service.{World, Env, IsBson}
use pruet_web_dev.Orders.{OrderCreate}
use pruet_web_dev.Orders.Create.{create_order_dual_db}
use pruet_web_dev.Orders.Sweep.{cleanup_expired_seat_holds}
use pruet_web_dev.Payments.{PaymentCreate, process_order_payment}
use pruet_web_dev.Consistency.{audit_once, order_total_mismatch}
use pruet_web_dev.Integrity.Invariant.{IsSound}
use pruet_web_dev.Integrity.History.{create_order_dual_db-IsSound}
use pruet_web_dev.Integrity.Services.{process_order_payment-IsSound, cleanup-IsSound}
use pruet_web_dev.Integrity.Audit.{postgres_checks-IsSound}
use pruet_web_dev.Sync.{IsSynced}
use pruet_web_dev.Sync.Printed.{
  AllPrinted, create_order_dual_db-AllPrinted, process_order_payment-AllPrinted, cleanup-AllPrinted,
}
use pruet_web_dev.Sync.Create.{create_order_dual_db-IsSynced}
use pruet_web_dev.Sync.Services.{process_order_payment-IsSynced, cleanup-IsSynced}
use pruet_web_dev.Sync.Audit.{audit_once-IsSynced}

-- a call at another time, with other random pieces, and with or without a failure of PostgreSQL
abbrev pub at : Env → ℕ → (ℕ → Str) → Option Exc → (Constraint → Bool) → Env
at base now token fault names_key = record base {
  now = now;
  token = token;
  pg_fault = fault;
  names_key = names_key;
}

-- what the calls of customers and of the job leave behind
pub data Served (base : Env) (w : World) : World → Type 0 where
  start : Served base w w
  ordered :
      {v : World} (now : ℕ) (token : ℕ → Str) (fault : Option Exc) (names_key : Constraint → Bool)
      (order_in : OrderCreate) (key : Option Str)
      → Served base w v
      → Served base w (create_order_dual_db (at base now token fault names_key) order_in key v).1
  paid :
      {v : World} (now : ℕ) (token : ℕ → Str) (fault : Option Exc) (names_key : Constraint → Bool)
      (order_id : ℕ) (payment_in : PaymentCreate)
      → Served base w v
      → Served base w
          (process_order_payment (at base now token fault names_key) order_id payment_in v).1
  cleaned :
      {v : World} (now : ℕ) (token : ℕ → Str) (fault : Option Exc) (names_key : Constraint → Bool)
      (down locked : ℕ → Bool) (size n : ℕ)
      → Served base w v
      → Served base w
          (cleanup_expired_seat_holds (at base now token fault names_key) down locked size n v).1

-- both databases are as they should be, each by itself and the one beside the other
pub record InOrder (base : Env) (w : World) : Type 0 where
  pub sound : IsSound w.pg
  pub synced : IsSynced base.object_id w
  pub printed : AllPrinted base w

module _ (base : Env) (heard : base.late_fault ≡ none) (calm : (n : ℕ) → base.net n ≡ answered)
    (bson : IsBson base) (w : World) (h : InOrder base w) where
  pub Served-InOrder : {v : World} → Served base w v → InOrder base v
  Served-InOrder start = h
  Served-InOrder (ordered {v} now token fault names_key order_in key r) =
      let before = Served-InOrder r in
      let env = at base now token fault names_key in
      let same : IsBson env = record {
        object_id-hex = bson.object_id-hex;
        hex-object_id = bson.hex-object_id;
      } in
      record {
        sound = create_order_dual_db-IsSound env order_in key v before.sound;
        synced = create_order_dual_db-IsSynced env order_in key v heard calm same before.synced;
        printed = create_order_dual_db-AllPrinted env heard order_in key v before.printed;
      }
  Served-InOrder (paid {v} now token fault names_key order_id payment_in r) =
      let before = Served-InOrder r in
      let env = at base now token fault names_key in
      record {
        sound = process_order_payment-IsSound env order_id payment_in v before.sound;
        synced = process_order_payment-IsSynced env order_id payment_in v heard calm before.synced;
        printed = process_order_payment-AllPrinted env heard order_id payment_in v before.printed;
      }
  Served-InOrder (cleaned {v} now token fault names_key down locked size n r) =
      let before = Served-InOrder r in
      let env = at base now token fault names_key in
      record {
        sound = cleanup-IsSound env down locked size n v before.sound;
        synced = cleanup-IsSynced env down locked size n v calm before.synced;
        printed = cleanup-AllPrinted env heard down locked size n v before.printed;
      }

-- After any sequence of orders, payments and clean-ups on a network that answers every call,
-- whatever PostgreSQL refuses before a commit, the audit finds none of six of the seven faults of
-- PostgreSQL (all but a total that differs from the sum of its rounded prices), no counter below
-- zero or above its capacity, and no drift to repair: if the driver raises nothing behind a
-- commit, bson reads the ids that it prints, and before the first call PostgreSQL satisfied its
-- rules, every counter was the number of the active tickets of its zone, no zone was oversold,
-- documents and zones were distinct, and the tickets carried ids as bson prints them.
pub audit_once-Served :
    (base : Env) (w v : World)
    → base.late_fault ≡ none
    → ((n : ℕ) → base.net n ≡ answered)
    → IsBson base
    → InOrder base w
    → Served base w v
    → let r = audit_once base v.pg v.mongo in
      (r.pg_results ≡ 0 ∷ 0 ∷ 0 ∷ 0 ∷ length (order_total_mismatch v.pg) ∷ 0 ∷ 0 ∷ [])
      × ((r.inventory.negative ≡ [])
          × (r.inventory.over_cap ≡ [])
          × (r.inventory.below ≡ [])
          × (r.inventory.above ≡ [])
          × (r.drift ≡ []))
unfolding audit_once
audit_once-Served base w v heard calm bson h r =
    let after = Served-InOrder base heard calm bson w h r in
    (
      postgres_checks-IsSound v.pg after.sound,
      audit_once-IsSynced base v bson after.synced after.printed,
    )
