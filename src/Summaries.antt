-- ===== src/Summaries.antt =====
-- app/api/v1/orders.py: order summaries, counted and summed in the database.
use pruet_web_dev.Base.{
  ℕ, Bool, ◌&&◌, ◌||◌, Option, none, some, List, map, ◌==◌, ltb, count, filter, find?, any, take,
  drop, if◌then◌else◌,
}
use pruet_web_dev.Base.Sorting.{sort}
use pruet_web_dev.Text.{Str}
use pruet_web_dev.Models.{Order, OrderStatus, Pg}
use pruet_web_dev.Errors.{http_error, user_not_found, order_not_found}
use pruet_web_dev.Service.{Result, ok, err}
use pruet_web_dev.Consistency.{paid_sum}

-- OrderSummary
pub record OrderSummary : Type 0 where
  pub id : ℕ
  pub order_number : Str
  pub user_id : ℕ
  pub status : OrderStatus
  pub total_amount : ℕ
  pub ticket_count : ℕ
  pub paid_amount : ℕ
  pub expires_at : Option ℕ
  pub created_at : ℕ

-- one row of `_order_summary_query`
unfoldable pub order_summary : Pg → Order → OrderSummary
order_summary pg o = record {
  id = o.id;
  order_number = o.order_number;
  user_id = o.user_id;
  status = o.status;
  total_amount = o.total_amount;
  ticket_count = count (λ t. t.order_id == o.id) pg.tickets;
  paid_amount = paid_sum o.id pg.payments;
  expires_at = o.expires_at;
  created_at = o.created_at;
}

-- newest first, the higher id first among equals
abbrev pub newest_first : Order → Order → Bool
newest_first o p = ltb p.created_at o.created_at || (o.created_at == p.created_at) && ltb p.id o.id

-- `list_order_summaries`
unfoldable pub list_order_summaries : ℕ → ℕ → ℕ → Pg → Result (List OrderSummary)
unfolding order_summary
list_order_summaries user_id limit offset pg =
    if any (λ u. u.id == user_id) pg.users
    then ok (
        map (order_summary pg) (
          take limit
            (drop offset (sort newest_first (filter (λ o. o.user_id == user_id) pg.orders)))))
    else err (http_error 404 user_not_found)

-- `get_order_summary`
unfoldable pub get_order_summary : ℕ → Pg → Result OrderSummary
unfolding order_summary
get_order_summary order_id pg = elim (find? (λ o. o.id == order_id) pg.orders) [
  | none ↦ err (http_error 404 order_not_found)
  | some o ↦ ok (order_summary pg o)
]
