-- ===== src/Orders/Retry.antt =====
-- app/services/order_service.py: create_order_dual_db called again with the same request and key.
use pruet_web_dev.Base.{◌≡◌, Option, none, List}
use pruet_web_dev.Text.{Str}
use pruet_web_dev.Models.{Order, Pg}
use pruet_web_dev.Models.Guards.{Insert, inserted}
use pruet_web_dev.Service.{World, Env, ok}
use pruet_web_dev.Seats.{Reserved}
use pruet_web_dev.Orders.{OrderCreate}
use pruet_web_dev.Orders.Idempotency.{order_with_key}
use pruet_web_dev.Orders.Pricing.{ValidatedItem, total_price}
use pruet_web_dev.Orders.Create.{new_order, place_order}

module _ (env : Env) (order_in : OrderCreate) (key : Option Str) (items : List ValidatedItem)
    (reserved : List Reserved) (w : World) (o : Order) (new : order_with_key key w.pg ≡ none)
    (h : (place_order env order_in key items reserved w).0 ≡ ok o) where
  abbrev Stored : Insert Pg → Type 0
  Stored r =
      (o ≡ new_order env order_in key (total_price items) w.pg)
      × (r ≡ inserted (place_order env order_in key items reserved w).1.pg)
