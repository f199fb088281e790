-- ===== src/Users/Accounts.antt =====
-- Registration, update, log-in and listing of app/services/user_service.py, and the checks of
-- app/schemas/user.py that run before them. bcrypt is a parameter.
use pruet_web_dev.Base.{
  ℕ, suc, ◌-◌, ◌*◌, Bool, true, false, not, ◌&&◌, ◌||◌, Option, none, some, List, [], ◌∷◌, ◌++◌,
  map, ◌==◌, ltb, length, find?, any, take, drop, update_where, is_some, if◌then◌else◌,
}
use pruet_web_dev.Base.Sorting.{sort}
use pruet_web_dev.Text.{Str, str_eq, truthy, strip, lower}
use pruet_web_dev.Models.{User, Role, Pg}
use pruet_web_dev.Models.Guards.{user_violation}
use pruet_web_dev.Errors.{http_error, user_not_found, user_exists, incorrect_login}
use pruet_web_dev.Service.{Result, ok, err}
use pruet_web_dev.Users.Names.{Names, split_full_name, resolve_names, shown_names, legacy, new_mode}

pub record UserCreate : Type 0 where
  pub email : Str
  pub username : Str
  pub full_name : Option Str
  pub first_name : Option Str
  pub last_name : Option Str
  pub role : Role
  pub password : Str

pub record UserUpdate : Type 0 where
  pub email : Option Str
  pub full_name : Option Str
  pub first_name : Option Str
  pub last_name : Option Str

pub record UserResponse : Type 0 where
  pub id : ℕ
  pub email : Str
  pub username : Str
  pub names : Names
  pub role : Role
  pub created_at : ℕ
  pub updated_at : ℕ

-- the two flags, and bcrypt
pub record Settings : Type 0 where
  pub write_mode : Str
  pub read_source : Str
  pub hash_password : Str → Str
  pub verify_password : Str → Str → Option Bool

abbrev pub present : Option Str → Bool
present none = false
present (some s) = elim (strip s) [ [] ↦ false | c ∷ r ↦ true ]

-- `validate_name_presence`
unfoldable pub validate_name_presence : UserCreate → Bool
unfolding strip
validate_name_presence u = present u.full_name || present u.first_name

abbrev not_blank : Option Str → Bool
not_blank none = true
not_blank (some s) = present (some s)

-- `validate_update`
unfoldable pub validate_update : UserUpdate → Bool
unfolding strip
validate_update u =
    (is_some u.email || (is_some u.full_name || (is_some u.first_name || is_some u.last_name)))
    && (not_blank u.full_name && not_blank u.first_name)

abbrev pub names_of : User → Names
names_of u = record { full_name = u.full_name; first_name = u.first_name; last_name = u.last_name }

-- `build_user_response`
unfoldable pub build_user_response : User → Str → UserResponse
unfolding shown_names
build_user_response u read_source = record {
  id = u.id;
  email = u.email;
  username = u.username;
  names = shown_names (names_of u) read_source;
  role = u.role;
  created_at = u.created_at;
  updated_at = u.updated_at;
}

-- `get_user_by_id`
unfoldable pub get_user_by_id : Settings → ℕ → Pg → Result UserResponse
unfolding build_user_response
get_user_by_id s user_id pg = elim (find? (λ u. u.id == user_id) pg.users) [
  | none ↦ err (http_error 404 user_not_found)
  | some u ↦ ok (build_user_response u s.read_source)
]

-- `get_users_paginated`: the page in the order of the ids, and the number of users
unfoldable pub get_users_paginated : Settings → ℕ → ℕ → Pg → List UserResponse × ℕ
unfolding build_user_response
get_users_paginated s page page_size pg = (
  map (λ u. build_user_response u s.read_source)
      (take page_size (drop ((page - 1) * page_size) (sort (λ u v. ltb u.id v.id) pg.users))),
  length pg.users,
)

-- the row that registration writes; the role is "fan" whatever the request says
abbrev pub new_user : Settings → ℕ → UserCreate → ℕ → User
new_user s now u id =
    let n = resolve_names u.full_name u.first_name u.last_name s.write_mode in
    record {
      id = id;
      email = u.email;
      username = u.username;
      hashed_password = s.hash_password u.password;
      full_name = if str_eq s.write_mode new_mode then none else n.full_name;
      first_name = n.first_name;
      last_name = n.last_name;
      role = Role.fan;
      created_at = now;
      updated_at = now;
    }

-- `create_user`: the pre-check, then the INSERT under the unique indexes
unfoldable pub create_user : Settings → ℕ → UserCreate → Pg → Result UserResponse × Pg
create_user s now user_in pg =
    if any (λ u. str_eq u.email user_in.email || str_eq u.username user_in.username) pg.users
    then (err (http_error 409 user_exists), pg)
    else (let u = new_user s now user_in pg.next_id in
        elim (user_violation pg.users u) [
          | some c ↦ (err (http_error 409 user_exists), pg)
          | none ↦ (
            ok (build_user_response u s.read_source),
            record pg { users = pg.users ++ u ∷ []; next_id = suc pg.next_id },
          )
        ])

abbrev pub new_email : Option Str → User → Str
new_email none u = u.email
new_email (some e) u = e

-- the new email is in use by another account
abbrev pub email_taken : Option Str → User → List User → Bool
email_taken none u rows = false
email_taken (some e) u rows =
    not (str_eq e u.email) && any (λ v. str_eq v.email e && not (v.id == u.id)) rows

abbrev given_or : Option Str → Option Str → Option Str
given_or none stored = stored
given_or (some s) stored = some s

-- the stored parts, split from `full_name` where they are not stored and that column may be read
unfoldable pub current_parts : Settings → User → Option Str × Option Str
unfolding split_full_name
current_parts s u =
    if is_some u.first_name
    then (u.first_name, u.last_name)
    else if not (str_eq s.write_mode new_mode && str_eq s.read_source new_mode)
        && truthy u.full_name
    then (let (head, tail) = split_full_name u.full_name in (some head, some tail))
    else (u.first_name, u.last_name)

-- the names that an update resolves to: the split shape keeps the part that was not sent
unfoldable pub updated_names : Settings → UserUpdate → User → Names
updated_names s user_in u =
    if is_some user_in.first_name || is_some user_in.last_name
    then (let (first, last) = current_parts s u in
        resolve_names user_in.full_name (given_or user_in.first_name first)
          (given_or user_in.last_name last) s.write_mode)
    else resolve_names user_in.full_name none none s.write_mode

-- each column is written only in the modes that own it
unfoldable pub write_names : Settings → UserUpdate → User → User
write_names s user_in u =
    if is_some user_in.full_name || (is_some user_in.first_name || is_some user_in.last_name)
    then (let n = updated_names s user_in u in
        record u {
          full_name = if str_eq s.write_mode new_mode then u.full_name else n.full_name;
          first_name = if str_eq s.write_mode legacy then u.first_name else n.first_name;
          last_name = if str_eq s.write_mode legacy then u.last_name else n.last_name;
        })
    else u

abbrev same_option : Option Str → Option Str → Bool
same_option none none = true
same_option (some s) (some t) = str_eq s t
same_option _ _ = false

-- `onupdate=func.now()`: the UPDATE is sent only if a column changes
abbrev pub stamp : ℕ → User → User → User
stamp now old u =
    if str_eq old.email u.email
      && (same_option old.full_name u.full_name
          && (same_option old.first_name u.first_name && same_option old.last_name u.last_name))
    then u
    else record u { updated_at = now }

-- `update_user`, under a row lock
unfoldable pub update_user : Settings → ℕ → ℕ → UserUpdate → Pg → Result UserResponse × Pg
update_user s now user_id user_in pg = elim (find? (λ u. u.id == user_id) pg.users) [
  | none ↦ (err (http_error 404 user_not_found), pg)
  | some u ↦
      if email_taken user_in.email u pg.users
      then (err (http_error 409 user_exists), pg)
      else (let u' =
            stamp now u (write_names s user_in (record u { email = new_email user_in.email u })) in
          (
            ok (build_user_response u' s.read_source),
            record pg { users = update_where (λ v. v.id == user_id) (λ v. u') pg.users },
          ))
]

-- `password_ok`; a malformed stored hash is a failed log-in
abbrev pub accepts : Option Bool → Bool
accepts none = false
accepts (some b) = b

-- `authenticate_user`
unfoldable pub authenticate_user : Settings → Str → Str → Pg → Result UserResponse
unfolding build_user_response
authenticate_user s email password pg =
    elim (find? (λ u. str_eq (lower u.email) (lower email)) pg.users) [
      | none ↦ err (http_error 401 incorrect_login)
      | some u ↦
          if accepts (s.verify_password password u.hashed_password)
          then ok (build_user_response u s.read_source)
          else err (http_error 401 incorrect_login)
    ]
