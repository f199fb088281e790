-- ===== src/Orders.antt =====
-- app/schemas/order.py and app/services/order_service.py: placing orders and expiring holds.
pub mod Idempotency
pub mod Pricing
pub mod Capacity
pub mod Create
pub mod Phases
pub mod Sweep
pub mod NoOversell
pub mod Leftover
pub mod Refusals
pub mod Fingerprint
pub mod Retry
use pruet_web_dev.Base.{ℕ, Bool, Option, none, some, List, ◌&&◌, ◌||◌, if◌then◌else◌}
use pruet_web_dev.Text.{Str, str_eq, str_lt, strip, lower}
use pruet_web_dev.Service.{Env}

-- TicketItemCreate; the client's `price` is never read
pub record TicketItem : Type 0 where
  pub event_id : Str
  pub seat_zone : Str
  pub seat_number : Option Str
  pub price : Option ℕ

-- OrderCreate
pub record OrderCreate : Type 0 where
  pub user_id : ℕ
  pub payment_method : Str
  pub items : List TicketItem

-- `_canonical_event_id`
unfoldable pub canonical_event_id : Env → Str → Str
canonical_event_id env raw = elim (env.object_id raw) [ some oid ↦ env.hex oid | none ↦ raw ]

-- `_zone_key`
unfoldable pub zone_key : Str → Str
zone_key zone_name = lower (strip zone_name)

-- `<` on pairs of strings
unfoldable pub pair_lt : Str × Str → Str × Str → Bool
pair_lt (a, b) (c, d) = str_lt a c || str_eq a c && str_lt b d
