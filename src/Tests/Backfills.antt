-- ===== src/Tests/Backfills.antt =====
-- The backfill of one account that has only a full name.
use pruet_web_dev.Base.{ℕ, ◌≡◌, refl, true, false, some, not, ◌&&◌, any, arith, [], ◌∷◌}
use pruet_web_dev.Backfill.{
  backfill_main, run_sweep, needs_backfill, overflows, run_sweeps, run_batch, select_batch,
  fill_names, names_for,
}
use pruet_web_dev.Backfill.Finished.{
  HasPositiveIds, IsFinished, no_locks, no_timeouts, run_sweep-Finished, backfill_main-Finished,
}
use pruet_web_dev.Backfill.Complete.{HasFittingNames, never}
use pruet_web_dev.Users.Names.{split_full_name}
use pruet_web_dev.Backfill.Kept.{AreKept, backfill_main-AreKept}
use pruet_web_dev.Base.Sorting.{sort}
use pruet_web_dev.Text.{str_eq, text}
use pruet_web_dev.Models.{User, Pg}
use pruet_web_dev.Tests.Data.{jamie, opened}

ids_of_opened : HasPositiveIds opened.pg.users
ids_of_opened = refl

names_of_opened : HasFittingNames opened.pg.users
unfolding overflows fill_names names_for split_full_name str_eq
names_of_opened = refl

run_sweep-Finished_example :
    ((k : ℕ) × ((run_sweep (λ id. false) never 50 2 0 opened.pg).0 ≡ some k))
    × (any
          (λ u. needs_backfill u && not false)
          (run_sweep (λ id. false) never 50 2 0 opened.pg).1.users
        ≡ false)
run_sweep-Finished_example =
    run_sweep-Finished (λ id. false) 50 2 opened.pg (omega arith) ids_of_opened names_of_opened
      (omega arith)

backfill_main-Finished_example :
    IsFinished (backfill_main false true no_locks no_timeouts 50 2 opened.pg)
backfill_main-Finished_example =
    backfill_main-Finished true 50 2 opened.pg (omega arith) (omega arith) ids_of_opened
      names_of_opened (omega arith)

backfill_main-AreKept_example :
    AreKept opened.pg.users
      (backfill_main false false (λ n id. true) (λ n id. true) 50 2 opened.pg).1.users
backfill_main-AreKept_example =
    backfill_main-AreKept false false (λ n id. true) (λ n id. true) 50 2 opened.pg

-- a first name of 101 characters
abbrev overlong : User
overlong = record jamie {
  full_name = some (
      text
        "aaaaaaaaaaaaaaaaaaaaaaaaaaaaaaaaaaaaaaaaaaaaaaaaaaaaaaaaaaaaaaaaaaaaaaaaaaaaaaaaaaaaaaaaaaaaaaaaaaaaa M");
}

abbrev overlong_pg : Pg
overlong_pg = record opened.pg { users = overlong ∷ [] }

-- its batch raises, and the job ends with status 1 and changes nothing
overlong_raises : backfill_main false true no_locks no_timeouts 50 2 overlong_pg ≡ (1, overlong_pg)
unfolding backfill_main run_sweeps run_sweep run_batch select_batch overflows fill_names names_for
    split_full_name str_eq sort
overlong_raises = refl
