-- ===== src/Flags.antt =====
-- app/core/flags.py and app/api/v1/admin.py: runtime switches in a table, read through a cache that
-- every replica keeps for a short time. Times are in milliseconds of the monotonic clock.
pub mod Served
use pruet_web_dev.Base.{
  ℕ, ◌-◌, Bool, true, false, ◌&&◌, ◌||◌, Option, none, some, List, [], ◌∷◌, ◌++◌, ltb, any,
  update_where, if◌then◌else◌,
}
use pruet_web_dev.Text.{Str, text, str_eq}
use pruet_web_dev.Models.{FeatureFlag, Pg}
use pruet_web_dev.Errors.{
  http_error, unknown_flag, invalid_flag_value, admin_disabled, bad_admin_token,
}
use pruet_web_dev.Service.{Result, ok, err}

abbrev pub Dict : Type 0
Dict = List (Str × Str)

abbrev pub write_mode_key : Str
write_mode_key = text "user_name_write_mode"

abbrev pub read_source_key : Str
read_source_key = text "user_name_read_source"

-- `FLAG_CHOICES`: the allowed values, the default first
unfoldable pub choices : Str → Option (List Str)
choices key =
    if str_eq key write_mode_key
    then some (text "legacy" ∷ text "dual" ∷ text "new" ∷ [])
    else if str_eq key read_source_key
    then some (text "legacy" ∷ text "new" ∷ [])
    else none

unfoldable pub lookup : Str → Dict → Option Str
lookup key [] = none
lookup key ((k, v) ∷ d) = if str_eq k key then some v else lookup key d

-- `d[key] = value`
unfoldable pub put : Str → Str → Dict → Dict
put key value [] = (key, value) ∷ []
put key value ((k, v) ∷ d) = if str_eq k key then (k, value) ∷ d else (k, v) ∷ put key value d

-- `_defaults`
abbrev pub defaults : Dict
defaults = (write_mode_key, text "legacy") ∷ (read_source_key, text "legacy") ∷ []

abbrev pub is_flag : Str → Bool
is_flag key = str_eq key write_mode_key || str_eq key read_source_key

-- `values.update({key: value for key, value in rows if key in FLAG_CHOICES})`
unfoldable pub overlay : List FeatureFlag → Dict → Dict
unfolding put
overlay [] d = d
overlay (r ∷ rs) d = overlay rs (if is_flag r.key then put r.key r.value d else d)

-- `_cache` and `_loaded_at` of one replica
pub record Cache : Type 0 where
  pub values : Dict
  pub loaded_at : ℕ

-- `_refresh`; `none` for the table means that the database raised
unfoldable pub refresh : ℕ → Option (List FeatureFlag) → Cache → Cache
unfolding overlay
refresh now (some rows) c = record { values = overlay rows defaults; loaded_at = now }
refresh now none c = elim c.values [
  | [] ↦ record { values = defaults; loaded_at = now }
  | e ∷ d ↦ record c { loaded_at = now }
]

abbrev pub is_empty : Dict → Bool
is_empty [] = true
is_empty (e ∷ d) = false

abbrev pub values_or_defaults : Dict → Dict
values_or_defaults [] = defaults
values_or_defaults (e ∷ d) = e ∷ d

-- `get_all_flags`; `acquired` says whether the refresh lock is free, and the first load waits for it
unfoldable pub get_all_flags : ℕ → ℕ → Bool → Option (List FeatureFlag) → Cache → Dict × Cache
unfolding refresh
get_all_flags ttl now acquired table c =
    let c' =
      if ltb ttl (now - c.loaded_at) && (acquired || is_empty c.values)
      then refresh now table c
      else c in
    (values_or_defaults c'.values, c')

-- `set_flag`: the upsert
unfoldable pub upsert : Str → Str → List FeatureFlag → List FeatureFlag
upsert key value rows =
    if any (λ r. str_eq r.key key) rows
    then update_where (λ r. str_eq r.key key) (λ r. record r { value = value }) rows
    else rows ++ record { key = key; value = value } ∷ []

-- `invalidate_cache`
abbrev pub invalidate_cache : Cache → Cache
invalidate_cache c = record c { loaded_at = 0 }

unfoldable pub set_flag : Str → Str → Pg × Cache → Pg × Cache
unfolding upsert
set_flag key value (pg, c) = (record pg { flags = upsert key value pg.flags }, invalidate_cache c)

-- `update_flag` of the admin router
unfoldable pub update_flag : Str → Str → Pg × Cache → Result (Unit {0}) × (Pg × Cache)
unfolding choices set_flag
update_flag key value s = elim (choices key) [
  | none ↦ (err (http_error 404 unknown_flag), s)
  | some allowed ↦
      if any (λ v. str_eq v value) allowed
      then (ok tt, set_flag key value s)
      else (err (http_error 400 invalid_flag_value), s)
]

-- `require_admin_token`: an empty setting disables the endpoints
unfoldable pub require_admin_token : Str → Str → Result (Unit {0})
require_admin_token [] given = err (http_error 503 admin_disabled)
require_admin_token (c ∷ s) given =
    if str_eq given (c ∷ s) then ok tt else err (http_error 401 bad_admin_token)
