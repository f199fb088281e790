-- ===== src/Tests/Switches.antt =====
-- A flag that is switched on.
use pruet_web_dev.Base.{◌≡◌, refl, true, some, arith}
use pruet_web_dev.Text.{text, str_eq}
use pruet_web_dev.Models.{empty_pg}
use pruet_web_dev.Service.{ok}
use pruet_web_dev.Flags.{choices, lookup, defaults, Cache, get_all_flags, update_flag}
use pruet_web_dev.Flags.Served.{update_flag-served}

abbrev loaded : Cache
loaded = record { values = defaults; loaded_at = 9000 }

dual_accepted :
    (update_flag (text "user_name_write_mode") (text "dual") (empty_pg, loaded)).0 ≡ ok tt
unfolding update_flag choices str_eq
dual_accepted = refl

update_flag-served_example :
    lookup
      (text "user_name_write_mode")
      (get_all_flags 5000 9500 true
        (some
          (update_flag (text "user_name_write_mode") (text "dual") (empty_pg, loaded)).1.0.flags)
        (update_flag (text "user_name_write_mode") (text "dual") (empty_pg, loaded)).1.1).0
    ≡ some (text "dual")
update_flag-served_example =
    update_flag-served (text "user_name_write_mode") (text "dual") empty_pg loaded 5000 9500
      dual_accepted (omega arith)
