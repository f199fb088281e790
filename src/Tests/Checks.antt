-- ===== src/Tests/Checks.antt =====
-- Checks of the name migration.
use pruet_web_dev.Base.{
  ◌≡◌, ◌↔◌, refl, true, false, none, some, [], ◌∷◌, map, All, List, if◌then◌else◌,
}
use pruet_web_dev.Text.{Str, str_eq, text, strip, lstrip, rstrip, is_space}
use pruet_web_dev.MigrationChecks.{
  Check, behind, ends_statement, parse_checks, split, split_words, check_of, join_lines,
  rstrip_semicolons,
}
use pruet_web_dev.MigrationChecks.Printed.{
  Block, print_blocks, block_check, IsValue, IsSqlLine, IsBlock,
}
use pruet_web_dev.MigrationChecks.RoundTrip.{parse_checks-print_blocks}
use pruet_web_dev.MigrationChecks.Run.{
  Answers, Snapshot, verify_main, save_snapshot, run_checks, run_check, should_skip, parse_int,
  digits, take_snapshot, take_snapshot_up_to, by_name, compare_failures, compare_snapshot,
}
use pruet_web_dev.MigrationChecks.Verdict.{Passes, IsSame, IsWritten, verify_main-Passes}

abbrev remaining : Block
remaining = record {
  name = text "left";
  stages = some (text "before after");
  expect = some (text "0");
  what = none;
  skip_when = none;
  body = text "SELECT n" ∷ [];
  last = text "FROM t;";
}

name_ok : IsValue (text "left")
unfolding strip lstrip rstrip is_space
name_ok = record { stripped = refl; not_empty = (108, text "eft", refl) }

stages_ok : IsValue (text "before after")
unfolding strip lstrip rstrip is_space
stages_ok = record { stripped = refl; not_empty = (98, text "efore after", refl) }

expect_ok : IsValue (text "0")
unfolding strip lstrip rstrip is_space
expect_ok = record { stripped = refl; not_empty = (48, [], refl) }

select_ok : IsSqlLine false (text "SELECT n")
unfolding strip lstrip rstrip is_space behind ends_statement
select_ok = record { rstripped = refl; blank = refl; comment = refl; ended = refl }

from_ok : IsSqlLine true (text "FROM t;")
unfolding strip lstrip rstrip is_space behind ends_statement
from_ok = record { rstripped = refl; blank = refl; comment = refl; ended = refl }

remaining-IsBlock : IsBlock remaining
remaining-IsBlock = record {
  name_ok = name_ok;
  stages_ok = stages_ok;
  expect_ok = expect_ok;
  what_ok = tt;
  skip_when_ok = tt;
  body_ok = (select_ok, tt);
  last_ok = from_ok;
}

remaining_read : block_check remaining ≡ record {
  name = text "left";
  stages = text "before" ∷ text "after" ∷ [];
  expect = text "0";
  what = [];
  sql = text "SELECT n\nFROM t";
  skip_when = [];
}
unfolding check_of split split_words is_space join_lines rstrip_semicolons strip lstrip rstrip
remaining_read = refl

parse_checks-print_blocks_example :
    parse_checks (print_blocks (remaining ∷ remaining ∷ []))
    ≡ map block_check (remaining ∷ remaining ∷ [])
parse_checks-print_blocks_example =
    parse_checks-print_blocks (remaining ∷ remaining ∷ [])
      (remaining-IsBlock, (remaining-IsBlock, tt))

-- a query of a snapshot
abbrev query : Str → Str → Check
query name sql = record {
  name = name;
  stages = [];
  expect = text "info";
  what = [];
  sql = sql;
  skip_when = [];
}

abbrev queries : List Check
queries =
    query (text "snapshot_max_id") (text "M")
    ∷ query (text "snapshot_count") (text "C")
    ∷ query (text "snapshot_checksum") (text "S")
    ∷ block_check remaining
    ∷ []

-- nothing is left to migrate, and there is one user
abbrev one_user : Answers
one_user = record {
  scalar = λ sql. some (if str_eq sql (text "M") then 1 else 0);
  scalar_up_to = λ _ id. some id;
  text_up_to = λ _ _. some (text "f00d");
  flag = none;
}

abbrev taken : Snapshot
taken = record { max_id = 1; size = 1; checksum = text "f00d" }

-- a snapshot is compared and another one is written
verify_main-Passes_example :
    (verify_main one_user (text "after") queries true (some taken) ≡ some (0, some taken)) ↔ (
      All (Passes one_user (text "after")) queries
      × (IsWritten one_user queries true (some taken) × IsSame one_user queries (some taken)))
verify_main-Passes_example =
    verify_main-Passes one_user (text "after") queries true (some taken) (some taken)

-- the run ends with 0 and writes what it took
one_user_verified :
    verify_main one_user (text "after") queries true (some taken) ≡ some (0, some taken)
unfolding verify_main run_checks run_check should_skip parse_int digits save_snapshot take_snapshot
    take_snapshot_up_to by_name compare_failures compare_snapshot str_eq check_of split split_words
    is_space join_lines rstrip_semicolons strip lstrip rstrip
one_user_verified = refl

-- another checksum fails the run
abbrev tampered : Snapshot
tampered = record { max_id = 1; size = 1; checksum = text "beef" }

tampered_refused :
    verify_main one_user (text "after") queries false (some tampered) ≡ some (1, none)
unfolding verify_main run_checks run_check should_skip parse_int digits save_snapshot take_snapshot
    take_snapshot_up_to by_name compare_failures compare_snapshot str_eq check_of split split_words
    is_space join_lines rstrip_semicolons strip lstrip rstrip
tampered_refused = refl
