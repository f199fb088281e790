-- ===== src/MigrationChecks/Run.antt =====
-- scripts/verify_migration.py: the checks of a stage and the snapshots. What the SQL yields is a
-- parameter; `none` stands for an exception.
use pruet_web_dev.Base.{
  ℕ, ◌+◌, ◌-◌, ◌*◌, Bool, true, false, ◌&&◌, Option, none, some, List, [], ◌∷◌, ◌==◌, leb, find?,
  any, if◌then◌else◌,
}
use pruet_web_dev.Base.Int.{ℤ, pos, negsuc}
use pruet_web_dev.Text.{Str, text, str_eq, strip}
use pruet_web_dev.MigrationChecks.{Check}

-- what the database answers: the number of a check, a number and a text over the users up to an id,
-- and the value of a flag, if the table of the flags is there
pub record Answers : Type 0 where
  pub scalar : Str → Option ℕ
  pub scalar_up_to : Str → ℕ → Option ℕ
  pub text_up_to : Str → ℕ → Option Str
  pub flag : Option (Str → Option Str)

abbrev is_digit : ℕ → Bool
is_digit c = leb 48 c && leb c 57

unfoldable pub digits : ℕ → Str → Option ℕ
digits n [] = some n
digits n (c ∷ s) = let rest = digits (10 * n + (c - 48)) s in if is_digit c then rest else none

abbrev digits_of : Str → Option ℕ
digits_of [] = none
digits_of (c ∷ s) = digits 0 (c ∷ s)

-- `int(text)`, of digits with an optional sign
unfoldable pub parse_int : Str → Option ℤ
unfolding digits
parse_int s = elim (strip s) [
  | [] ↦ none
  | c ∷ t ↦
      if c == 45
      then elim (digits_of t) [
        | none ↦ none
        | some n ↦ some (if n == 0 then pos 0 else negsuc (n - 1))
      ]
      else if c == 43
      then elim (digits_of t) [ none ↦ none | some n ↦ some (pos n) ]
      else elim (digits_of (c ∷ t)) [ none ↦ none | some n ↦ some (pos n) ]
]

abbrev pub equals_int : ℕ → ℤ → Bool
equals_int v (pos n) = v == n
equals_int v (negsuc n) = false

-- `s.partition("=")`: the text before the first '=', and the text behind it
unfoldable pub partition : Str → Str × Str
partition [] = ([], [])
partition (c ∷ s) =
    let (key, wanted) = partition s in if c == 61 then ([], s) else (c ∷ key, wanted)

abbrev pub is_value : Option Str → Str → Bool
is_value none wanted = false
is_value (some current) wanted = str_eq current wanted

-- `should_skip`, which does not skip when the flags cannot be read
unfoldable pub should_skip : Answers → Check → Bool
unfolding partition
should_skip db c = elim c.skip_when [
  | [] ↦ false
  | d ∷ s ↦ elim db.flag [
    | none ↦ false
    | some value ↦ let (key, wanted) = partition (d ∷ s) in is_value (value key) wanted
  ]
]

abbrev pub in_stage : Str → Check → Bool
in_stage stage c = any (λ s. str_eq s stage) c.stages

-- the failures that one check adds
unfoldable pub run_check : Answers → Str → Check → Option ℕ
unfolding should_skip parse_int
run_check db stage c =
    if in_stage stage c
    then (if should_skip db c then some 0 else elim (db.scalar c.sql) [
      | none ↦ none
      | some value ↦ if str_eq c.expect (text "info") then some 0 else elim (parse_int c.expect) [
        | none ↦ none
        | some n ↦ some (if equals_int value n then 0 else 1)
      ]
    ])
    else some 0

abbrev pub add_failures : Option ℕ → Option ℕ → Option ℕ
add_failures none o = none
add_failures (some n) none = none
add_failures (some n) (some m) = some (n + m)

unfoldable pub run_checks : Answers → Str → List Check → Option ℕ
unfolding run_check
run_checks db stage [] = some 0
run_checks db stage (c ∷ cs) = add_failures (run_check db stage c) (run_checks db stage cs)

infixl 10 ◌>>=◌
abbrev pub ◌>>=◌ : {A B : Type 0} → Option A → (A → Option B) → Option B
none >>= f = none
some a >>= f = f a

unfoldable pub by_name : List Check → Str → Option Check
by_name checks name = find? (λ c. str_eq c.name name) checks

pub record Snapshot : Type 0 where
  pub max_id : ℕ
  pub size : ℕ
  pub checksum : Str

-- `take_snapshot_up_to`: the count and the checksum
unfoldable pub take_snapshot_up_to : Answers → List Check → ℕ → Option (ℕ × Str)
unfolding by_name
take_snapshot_up_to db checks max_id = do
  counted ← by_name checks (text "snapshot_count")
  size ← db.scalar_up_to counted.sql max_id
  summed ← by_name checks (text "snapshot_checksum")
  checksum ← db.text_up_to summed.sql max_id
  some (size, checksum)

-- `take_snapshot`
unfoldable pub take_snapshot : Answers → List Check → Option Snapshot
unfolding by_name take_snapshot_up_to
take_snapshot db checks = do
  last ← by_name checks (text "snapshot_max_id")
  max_id ← db.scalar last.sql
  now ← take_snapshot_up_to db checks max_id
  some (record { max_id = max_id; size = now.0; checksum = now.1 })

-- `compare_snapshot`
unfoldable pub compare_snapshot : Answers → List Check → Snapshot → Option Bool
unfolding take_snapshot_up_to
compare_snapshot db checks saved = do
  now ← take_snapshot_up_to db checks saved.max_id
  some ((now.0 == saved.size) && str_eq now.1 saved.checksum)

-- the failure that the comparison with a saved snapshot adds
abbrev pub failed : Option Bool → Option ℕ
failed none = none
failed (some ok) = some (if ok then 0 else 1)

unfoldable pub compare_failures : Answers → List Check → Option Snapshot → Option ℕ
unfolding compare_snapshot
compare_failures db checks none = some 0
compare_failures db checks (some saved) = failed (compare_snapshot db checks saved)

-- `--save-snapshot`: what is written, and whether taking it raised
unfoldable pub save_snapshot : Answers → List Check → Bool → Option (Option Snapshot)
unfolding take_snapshot
save_snapshot db checks false = some none
save_snapshot db checks true = elim (take_snapshot db checks) [
  | none ↦ none
  | some s ↦ some (some s)
]

-- `main`: the exit status and the snapshot written
unfoldable pub verify_main :
    Answers → Str → List Check → Bool → Option Snapshot → Option (ℕ × Option Snapshot)
unfolding run_checks compare_failures save_snapshot
verify_main db stage checks save compare = do
  failures ← run_checks db stage checks
  written ← save_snapshot db checks save
  more ← compare_failures db checks compare
  some (if failures + more == 0 then 0 else 1, written)
