-- ===== src/Users/Registration.antt =====
-- app/services/user_service.py: what create_user does.
use pruet_web_dev.Base.{
  ◌⊎◌, ◌≡◌, refl, ap, ℕ, suc, Bool, false, ◌||◌, List, [], ◌∷◌, ◌++◌, arith, any, Bool-cases,
  Option-cases, inl, inr,
}
use pruet_web_dev.Base.Distinct.{Distinct, append-Distinct}
use pruet_web_dev.Text.{Str, str_eq}
use pruet_web_dev.Errors.{Exc, http_error, user_exists}
use pruet_web_dev.Models.{Role, User, Pg}
use pruet_web_dev.Models.Guards.{user_violation}
use pruet_web_dev.Service.{Result, ok, err}
use pruet_web_dev.Users.Accounts.{
  UserCreate, UserResponse, Settings, new_user, build_user_response, create_user,
}

abbrev pub same_email : User → User → Bool
same_email v u = str_eq u.email v.email

abbrev pub same_username : User → User → Bool
same_username v u = str_eq u.username v.username

abbrev pub UniqueAccounts : Pg → Type 0
UniqueAccounts pg = Distinct same_email pg.users × Distinct same_username pg.users

-- what a registration that returns has done
pub record IsRegistered (s : Settings) (now : ℕ) (user_in : UserCreate) (pg pg' : Pg)
    (r : UserResponse) : Type 0 where
  pub one_account : pg' ≡ record pg {
    users = pg.users ++ new_user s now user_in pg.next_id ∷ [];
    next_id = suc pg.next_id;
  }
  pub shown : r ≡ build_user_response (new_user s now user_in pg.next_id) s.read_source
  pub is_fan : r.role ≡ Role.fan
  pub new_email : any (λ u. str_eq u.email user_in.email) pg.users ≡ false
  pub new_username : any (λ u. str_eq u.username user_in.username) pg.users ≡ false

either_none :
    (p q : User → Bool) (us : List User)
    → any (λ u. p u || q u) us ≡ false
    → (any p us ≡ false) × (any q us ≡ false)
either_none p q [] h = (refl, refl)
either_none p q (u ∷ us) h = ground (arith, either_none p q us)

role_shown : (u : User) (source : Str) → (build_user_response u source).role ≡ u.role
unfolding build_user_response
role_shown u source = refl

-- the tables behind an accepted registration
abbrev with_account : Settings → ℕ → UserCreate → Pg → Pg
with_account s now user_in pg = record pg {
  users = pg.users ++ new_user s now user_in pg.next_id ∷ [];
  next_id = suc pg.next_id;
}

-- a registration is refused and changes nothing, or both keys are new and the account is added
create_branches :
    (s : Settings) (now : ℕ) (user_in : UserCreate) (pg : Pg)
    → ((e : Exc) × (create_user s now user_in pg ≡ (err e, pg)))
      ⊎ ((any (λ u. str_eq u.email user_in.email || str_eq u.username user_in.username) pg.users
            ≡ false)
          × (create_user s now user_in pg ≡ (
            ok (build_user_response (new_user s now user_in pg.next_id) s.read_source),
            with_account s now user_in pg,
          )))
unfolding create_user
create_branches s now user_in pg =
    elim (Bool-cases
      (any (λ u. str_eq u.email user_in.email || str_eq u.username user_in.username) pg.users)) [
        | inl e ↦ inl (http_error 409 user_exists, ground arith)
        | inr e ↦
            elim (Option-cases (user_violation pg.users (new_user s now user_in pg.next_id))) [
              | inl free ↦ inr (e, ground arith)
              | inr (c, broken) ↦ inl (http_error 409 user_exists, ground arith)
            ]
      ]

-- A registration that returns found neither the email nor the username in use, and adds exactly one
-- account, the one that it shows, with the role "fan" whatever the request asks for.
pub create_user-IsRegistered :
    (s : Settings) (now : ℕ) (user_in : UserCreate) (pg : Pg) (r : UserResponse)
    → (create_user s now user_in pg).0 ≡ ok r
    → IsRegistered s now user_in pg (create_user s now user_in pg).1 r
create_user-IsRegistered s now user_in pg r h = elim (create_branches s now user_in pg) [
  | inl (e, same) ↦ absurd (ground arith)
  | inr (free, same) ↦
      let shown : r ≡ build_user_response (new_user s now user_in pg.next_id) s.read_source =
        ground arith in
      let (emails, usernames) =
        either_none (λ u. str_eq u.email user_in.email) (λ u. str_eq u.username user_in.username)
          pg.users free in
      record {
        one_account = ap (λ (x : Result UserResponse × Pg). x.1) same;
        shown = shown;
        is_fan = rw shown (role_shown (new_user s now user_in pg.next_id) s.read_source);
        new_email = emails;
        new_username = usernames;
      }
]

-- A registration, accepted or refused, leaves no two accounts with one email or one username, if
-- there were none before.
pub create_user-UniqueAccounts :
    (s : Settings) (now : ℕ) (user_in : UserCreate) (pg : Pg)
    → UniqueAccounts pg
    → UniqueAccounts (create_user s now user_in pg).1
create_user-UniqueAccounts s now user_in pg h = elim (create_branches s now user_in pg) [
  | inl (e, same) ↦ rw same h
  | inr (free, same) ↦
      let (emails, usernames) =
        either_none (λ u. str_eq u.email user_in.email) (λ u. str_eq u.username user_in.username)
          pg.users free in
      rw same (
        append-Distinct same_email pg.users (new_user s now user_in pg.next_id) h.0 emails,
        append-Distinct same_username pg.users (new_user s now user_in pg.next_id) h.1 usernames,
      )
]
