-- ===== src/Errors.antt =====
-- app/core/db_errors.py: exceptions of the database drivers, and the HTTP answer to each.
use pruet_web_dev.Base.{ℕ, Bool, true, false, Option, none, some, if◌then◌else◌}
use pruet_web_dev.Models.Guards.{Constraint, orders_user_id}

-- SQLSTATE of an error that the server answered with
pub data SqlState : Type 0 where
  deadlock_detected serialization_failure lock_not_available : SqlState
  query_canceled too_many_connections cannot_connect_now : SqlState
  foreign_key_violation unique_violation other_state : SqlState

-- the `detail` of an HTTPException, without the values that are printed into it
pub data Detail : Type 0 where
  order_not_found event_not_found user_not_found user_does_not_exist : Detail
  key_reused_with_other_payload key_reused_with_other_items : Detail
  invalid_event_id zone_does_not_exist zone_sold_out : Detail
  double_booking_prevented data_integrity_error transaction_failed : Detail
  already_paid order_expired order_cancelled hold_expired amount_mismatch : Detail
  user_exists incorrect_login unknown_flag invalid_flag_value : Detail
  admin_disabled bad_admin_token conflict_message unavailable_message : Detail

pub record HttpException : Type 0 where
  pub status_code : ℕ
  pub detail : Detail
  pub retry_after : Option ℕ

pub data Exc : Type 0 where
  http : HttpException → Exc
  integrity : Constraint → Exc
  operational : Option SqlState → Exc
  pool_timeout mongo_connection mongo_write_error other_exc : Exc

abbrev pub http_error : ℕ → Detail → Exc
http_error code detail = http (record { status_code = code; detail = detail; retry_after = none })

unfoldable pub pgcode : Exc → Option SqlState
pgcode (integrity orders_user_id) = some foreign_key_violation
pgcode (integrity c) = some unique_violation
pgcode (operational code) = code
pgcode _ = none

-- membership in RETRYABLE_PGCODES
abbrev pub in_retryable_pgcodes : Option SqlState → Bool
in_retryable_pgcodes (some deadlock_detected) = true
in_retryable_pgcodes (some serialization_failure) = true
in_retryable_pgcodes (some lock_not_available) = true
in_retryable_pgcodes _ = false

-- membership in UNAVAILABLE_PGCODES
abbrev pub in_unavailable_pgcodes : Option SqlState → Bool
in_unavailable_pgcodes (some query_canceled) = true
in_unavailable_pgcodes (some too_many_connections) = true
in_unavailable_pgcodes (some cannot_connect_now) = true
in_unavailable_pgcodes _ = false

unfoldable pub is_retryable_conflict : Exc → Bool
unfolding pgcode
is_retryable_conflict e = in_retryable_pgcodes (pgcode e)

unfoldable pub is_service_unavailable : Exc → Bool
unfolding pgcode
is_service_unavailable pool_timeout = true
is_service_unavailable mongo_connection = true
is_service_unavailable (operational none) = true
is_service_unavailable e = in_unavailable_pgcodes (pgcode e)

abbrev pub retry_after_seconds : ℕ
retry_after_seconds = 2

abbrev pub conflict_exception : HttpException
conflict_exception = record { status_code = 409; detail = conflict_message; retry_after = none }

abbrev pub unavailable_exception : HttpException
unavailable_exception = record {
  status_code = 503;
  detail = unavailable_message;
  retry_after = some retry_after_seconds;
}

unfoldable pub classify_db_error : Exc → Option HttpException
unfolding is_retryable_conflict is_service_unavailable
classify_db_error e =
    if is_retryable_conflict e
    then some conflict_exception
    else if is_service_unavailable e
    then some unavailable_exception
    else none

-- app/main.py: what the client gets for an exception that leaves an endpoint; `none` is an
-- unhandled server error
unfoldable pub respond : Exc → Option HttpException
unfolding classify_db_error
respond (http h) = some h
respond e = classify_db_error e
