-- ===== src/Tests/Accounts.antt =====
-- Registrations beside one account.
use pruet_web_dev.Base.{
  ℕ, suc, ◌≤◌, length, arith, ◌≡◌, refl, none, some, false, true, ◌&&◌, is_some,
}
use pruet_web_dev.Text.{text, str_eq, clean, strip, lstrip, rstrip, is_space}
use pruet_web_dev.Users.Names.{split_full_name, join_names, legacy, new_mode}
use pruet_web_dev.Users.RoundTrip.{IsName, split_full_name-join_names}
use pruet_web_dev.Users.Pages.{first_pages, listed, first_pages-listed}
use pruet_web_dev.Users.Modes.{HasParts, build_user_response-HasParts, fill_names-HasParts}
use pruet_web_dev.Backfill.{fill_names}
use pruet_web_dev.Models.{Role}
use pruet_web_dev.Models.Guards.{user_violation}
use pruet_web_dev.Service.{ok}
use pruet_web_dev.Users.Accounts.{
  UserCreate, Settings, new_user, build_user_response, create_user, get_users_paginated, UserUpdate,
  update_user,
}
use pruet_web_dev.Users.Registration.{
  UniqueAccounts, IsRegistered, create_user-IsRegistered, create_user-UniqueAccounts,
}
use pruet_web_dev.Users.Changes.{update_user-UniqueAccounts}
use pruet_web_dev.Tests.Data.{opened}

abbrev dual_write : Settings
dual_write = record {
  write_mode = text "dual";
  read_source = text "legacy";
  hash_password = λ p. p;
  verify_password = λ p h. some (str_eq p h);
}

-- somebody who asks to be an administrator
abbrev somebody : UserCreate
somebody = record {
  email = text "k@m";
  username = text "kim";
  full_name = some (text "Kim Lee");
  first_name = none;
  last_name = none;
  role = Role.admin;
  password = text "secret";
}

somebody_registers :
    (create_user dual_write 50 somebody opened.pg).0
    ≡ ok (build_user_response (new_user dual_write 50 somebody 2) (text "legacy"))
unfolding create_user user_violation str_eq
somebody_registers = refl

create_user-IsRegistered_example :
    IsRegistered dual_write 50 somebody opened.pg
      (create_user dual_write 50 somebody opened.pg).1
      (build_user_response (new_user dual_write 50 somebody 2) (text "legacy"))
create_user-IsRegistered_example =
    create_user-IsRegistered dual_write 50 somebody opened.pg
      (build_user_response (new_user dual_write 50 somebody 2) (text "legacy")) somebody_registers

create_user-UniqueAccounts_example : UniqueAccounts (create_user dual_write 50 somebody opened.pg).1
create_user-UniqueAccounts_example =
    create_user-UniqueAccounts dual_write 50 somebody opened.pg ((refl, tt), (refl, tt))

split_full_name-join_names_example :
    IsName
      (split_full_name (some (text "  Kim  van Lee "))).0
      (split_full_name (some (text "  Kim  van Lee "))).1
    × (split_full_name (
          some (
            join_names
              (some (split_full_name (some (text "  Kim  van Lee "))).0)
              (some (split_full_name (some (text "  Kim  van Lee "))).1)))
        ≡ split_full_name (some (text "  Kim  van Lee ")))
split_full_name-join_names_example = split_full_name-join_names (text "  Kim  van Lee ")

kim_lee_shown : is_some (clean (some (text "Kim Lee"))) ≡ true
unfolding clean strip lstrip rstrip is_space
kim_lee_shown = refl

dual_is_not_legacy : str_eq dual_write.write_mode legacy && str_eq (text "new") new_mode ≡ false
unfolding str_eq
dual_is_not_legacy = refl

build_user_response-HasParts_example :
    HasParts
      (build_user_response (new_user dual_write 50 somebody 2) (text "new")).names
      (split_full_name (some (text "Kim Lee")))
build_user_response-HasParts_example =
    build_user_response-HasParts dual_write 50 2 somebody (text "Kim Lee") refl refl refl
      kim_lee_shown (text "new") dual_is_not_legacy

abbrev legacy_write : Settings
legacy_write = record dual_write { write_mode = text "legacy" }

fill_names-HasParts_example :
    HasParts
      (build_user_response (fill_names (new_user legacy_write 50 somebody 2)) (text "new")).names
      (split_full_name (some (text "Kim Lee")))
fill_names-HasParts_example =
    fill_names-HasParts legacy_write 50 2 somebody (text "Kim Lee") refl refl refl kim_lee_shown
      (text "new")

first_pages-listed_example :
    (first_pages dual_write 1 2 opened.pg ≡ listed dual_write opened.pg)
    × ((page : ℕ) → length (get_users_paginated dual_write (suc page) 1 opened.pg).0 ≤ 1)
first_pages-listed_example = first_pages-listed dual_write 1 2 opened.pg (omega arith)

-- the only account takes another email
abbrev moves : UserUpdate
moves = record { email = some (text "n@m"); full_name = none; first_name = none; last_name = none }

update_user-UniqueAccounts_example : UniqueAccounts (update_user dual_write 60 1 moves opened.pg).1
update_user-UniqueAccounts_example =
    update_user-UniqueAccounts dual_write 60 1 moves opened.pg ((refl, tt), (refl, tt)) (refl, tt)
