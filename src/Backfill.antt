-- ===== src/Backfill.antt =====
-- scripts/backfill.py: `first_name` and `last_name` are filled from `full_name` in small batches that
-- can be stopped and resumed.
pub mod Cursor
pub mod Complete
pub mod Finished
pub mod Kept
use pruet_web_dev.Base.{
  ℕ, zero, suc, ◌+◌, Bool, not, ◌&&◌, ◌||◌, Option, none, some, List, [], ◌∷◌, ◌++◌, ◌==◌, ltb,
  length, count, filter, find?, any, take, update_where, is_some, if◌then◌else◌,
}
use pruet_web_dev.Base.Sorting.{sort}
use pruet_web_dev.Text.{Str, text, str_eq}
use pruet_web_dev.Models.{User, BackfillCheckpoint, Pg}
use pruet_web_dev.Users.Names.{split_full_name, get_or_else}

abbrev pub job_name : Str
job_name = text "users_names"

abbrev pub max_sweeps : ℕ
max_sweeps = 5

-- `NEEDS_BACKFILL`
abbrev pub needs_backfill : User → Bool
needs_backfill u = not (is_some u.first_name) || not (is_some u.last_name)

-- `names_for`: a part that is stored is kept
unfoldable pub names_for : Option Str → Option Str → Option Str → Str × Str
unfolding split_full_name
names_for full_name first last =
    let (head, tail) = split_full_name full_name in
    let new_first = get_or_else first head in
    (new_first, get_or_else last (if str_eq head new_first then tail else []))

unfoldable pub count_remaining : Pg → ℕ
count_remaining pg = count needs_backfill pg.users

unfoldable pub load_checkpoint : Pg → ℕ × ℕ
load_checkpoint pg = elim (find? (λ c. str_eq c.job_name job_name) pg.checkpoints) [
  | none ↦ (0, 0)
  | some c ↦ (c.last_id, c.rows_done)
]

abbrev pub checkpoint_row : ℕ → ℕ → BackfillCheckpoint
checkpoint_row last_id rows_done = record {
  job_name = job_name;
  last_id = last_id;
  rows_done = rows_done;
}

-- INSERT ... ON CONFLICT DO UPDATE
unfoldable pub save_checkpoint : ℕ → ℕ → Pg → Pg
save_checkpoint last_id rows_done pg = record pg {
  checkpoints =
      if any (λ c. str_eq c.job_name job_name) pg.checkpoints
      then update_where (λ c. str_eq c.job_name job_name) (λ c. checkpoint_row last_id rows_done)
          pg.checkpoints
      else pg.checkpoints ++ checkpoint_row last_id rows_done ∷ [];
}

-- COALESCE(column, value)
abbrev pub coalesce : Option Str → Str → Option Str
coalesce none value = some value
coalesce (some s) value = some s

-- the UPDATE of one row
unfoldable pub fill_names : User → User
unfolding names_for
fill_names u =
    let (first, last) = names_for u.full_name u.first_name u.last_name in
    record u { first_name = coalesce u.first_name first; last_name = coalesce u.last_name last }

-- id > last, NULL in a name, not locked; in the order of the ids, at most a batch
unfoldable pub select_batch : (ℕ → Bool) → ℕ → ℕ → List User → List User
select_batch locked last_id batch_size users = take batch_size (
    sort (λ u v. ltb u.id v.id)
      (filter (λ u. ltb last_id u.id && (needs_backfill u && not (locked u.id))) users))

-- `rows[-1].id`
abbrev pub last_row_id : ℕ → List User → ℕ
last_row_id d [] = d
last_row_id d (u ∷ us) = last_row_id u.id us

-- the columns first_name and last_name are VARCHAR(100)
unfoldable pub overflows : User → Bool
overflows u =
    let wide : Option Str → Bool = λ o. ltb 100 (length (get_or_else o [])) in
    wide u.first_name || wide u.last_name

-- what a transaction that commits does: rows updated, the new cursor, rows seen
unfoldable pub migrate_batch : (ℕ → Bool) → ℕ → ℕ → Pg → (ℕ × ℕ × ℕ) × Pg
migrate_batch locked last_id batch_size pg =
    let rows = select_batch locked last_id batch_size pg.users in
    elim rows [
      | [] ↦ ((0, last_id, 0), pg)
      | u ∷ us ↦
          let new_last = last_row_id last_id (u ∷ us) in
          let pg' = record pg {
            users =
                update_where (λ v. any (λ r. r.id == v.id) (u ∷ us) && needs_backfill v) fill_names
                  pg.users;
          } in
          (
            (length (u ∷ us), new_last, length (u ∷ us)),
            save_checkpoint new_last ((load_checkpoint pg).1 + length (u ∷ us)) pg',
          )
    ]

-- `run_batch`: one transaction with the checkpoint. It raises, which `none` stands for, and is rolled
-- back if a statement runs into lock_timeout or statement_timeout, or if a row that it writes
-- overflows its columns.
unfoldable pub run_batch : (ℕ → Bool) → Bool → ℕ → ℕ → Pg → Option (ℕ × ℕ × ℕ) × Pg
unfolding migrate_batch overflows
run_batch locked timeout last_id batch_size pg =
    if timeout
      || any (λ u. overflows (fill_names u)) (select_batch locked last_id batch_size pg.users)
    then (none, pg)
    else let (counts, pg') = migrate_batch locked last_id batch_size pg in (some counts, pg')

-- a round of the inner loop of `main` behind its batch
abbrev pub after_batch : Option (ℕ × ℕ × ℕ) × Pg → (ℕ → Pg → Option ℕ × Pg) → Option ℕ × Pg
after_batch (none, pg) go_on = (none, pg)
after_batch (some counts, pg) go_on =
    if counts.2 == 0 then (some counts.1, pg) else go_on counts.1 pg

-- The inner loop of `main`, until a batch sees no row; `none` means that a batch raised, or that the
-- fuel ran out. `timeout k` says whether the batch behind the id k runs into a timeout: the batches
-- of a sweep start behind different ids.
unfoldable pub run_sweep : (ℕ → Bool) → (ℕ → Bool) → ℕ → ℕ → ℕ → Pg → Option ℕ × Pg
run_sweep locked timeout batch_size zero last_id pg = (none, pg)
run_sweep locked timeout batch_size (suc fuel) last_id pg =
    after_batch (run_batch locked (timeout last_id) last_id batch_size pg)
      (λ new_last pg'. run_sweep locked timeout batch_size fuel new_last pg')

-- what follows a sweep: its exception ends the job, and so does a sweep that leaves nothing
abbrev pub after_sweep : Option ℕ × Pg → (Pg → ℕ × Pg) → ℕ × Pg
after_sweep (none, pg) go_on = (1, pg)
after_sweep (some _, pg) go_on = if count_remaining pg == 0 then (0, pg) else go_on pg

-- The sweeps of `main`, each from id 0 but the first; `locks n` are the rows held and `timeouts n` the
-- batches that time out during the n-th. The result is the exit status: 1 also if a batch raises, as
-- Python ends on an exception, and here if the fuel runs out.
unfoldable pub run_sweeps : (ℕ → ℕ → Bool) → (ℕ → ℕ → Bool) → ℕ → ℕ → ℕ → ℕ → Pg → ℕ × Pg
run_sweeps locks timeouts batch_size fuel zero last_id pg =
    (if count_remaining pg == 0 then 0 else 1, pg)
run_sweeps locks timeouts batch_size fuel (suc n) last_id pg =
    after_sweep (run_sweep (locks n) (timeouts n) batch_size fuel last_id pg)
      (λ pg'. run_sweeps locks timeouts batch_size fuel n 0 pg')

-- `main`: the exit status, 2 for a batch size out of range
unfoldable pub backfill_main : Bool → Bool → (ℕ → ℕ → Bool) → (ℕ → ℕ → Bool) → ℕ → ℕ → Pg → ℕ × Pg
backfill_main dry_run restart locks timeouts batch_size fuel pg =
    if ltb batch_size 1 || ltb 500 batch_size
    then (2, pg)
    else if dry_run
    then (0, pg)
    else run_sweeps locks timeouts batch_size fuel max_sweeps
        (if restart then 0 else (load_checkpoint pg).0) pg
