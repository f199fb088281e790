-- ===== src/MigrationChecks/Verdict.antt =====
-- scripts/verify_migration.py: what the exit status says.
use pruet_web_dev.Base.{
  ℕ, ◌+◌, ◌≡◌, ◌↔◌, refl, ap, ◌∙◌, Bool, true, false, Option, none, some, List, [], ◌∷◌, ◌==◌,
  arith, All, Bool-cases, ◌⊎◌, subst, ◌&&◌, Option-cases, inl, inr, if◌then◌else◌,
}
use pruet_web_dev.Base.Int.{ℤ, pos, negsuc}
use pruet_web_dev.Text.{Str, text, str_eq, str_eq→eq, str_eq_refl}
use pruet_web_dev.MigrationChecks.{Check}
use pruet_web_dev.MigrationChecks.Run.{
  Answers, parse_int, equals_int, in_stage, should_skip, run_check, add_failures, run_checks,
  Snapshot, compare_snapshot, failed, compare_failures, save_snapshot, verify_main, ◌>>=◌,
  partition, is_value, by_name, take_snapshot_up_to, take_snapshot,
}

-- the flag that the check names is on the value that it names
pub record IsSkipped (db : Answers) (c : Check) : Type 0 where
  pub value : Str → Option Str
  pub has_condition : (d : ℕ) × ((s : Str) × (c.skip_when ≡ d ∷ s))
  pub reads_flags : db.flag ≡ some value
  pub has_value : value (partition c.skip_when).0 ≡ some (partition c.skip_when).1

-- a check of another stage, one that is skipped, one that only informs, or one whose number is the
-- expected one
pub data Passes (db : Answers) (stage : Str) (c : Check) : Type 0 where
  other_stage : in_stage stage c ≡ false → Passes db stage c
  skipped : IsSkipped db c → Passes db stage c
  informs :
      (v : ℕ) → db.scalar c.sql ≡ some v → str_eq c.expect (text "info") ≡ true → Passes db stage c
  meets :
      (v : ℕ)
      → db.scalar c.sql ≡ some v
      → str_eq c.expect (text "info") ≡ false
      → parse_int c.expect ≡ some (pos v)
      → Passes db stage c

is_value_iff : (o : Option Str) (wanted : Str) → is_value o wanted ≡ true → o ≡ some wanted
is_value_iff none wanted h = absurd cc
is_value_iff (some t) wanted h = ap (λ x. some x) (str_eq→eq t wanted h)

condition-cases : (s : Str) → (s ≡ []) ⊎ ((d : ℕ) × ((t : Str) × (s ≡ d ∷ t)))
condition-cases [] = inl refl
condition-cases (d ∷ t) = inr (d, (t, refl))

should_skip-IsSkipped : (db : Answers) (c : Check) → should_skip db c ≡ true → IsSkipped db c
unfolding should_skip
should_skip-IsSkipped db c h = elim (condition-cases c.skip_when) [
  | inl none_given ↦ absurd (ground arith)
  | inr (d, (s, given)) ↦ elim (Option-cases db.flag) [
    | inl unread ↦ absurd (ground arith)
    | inr (value, read) ↦ record {
      value = value;
      has_condition = (d, (s, given));
      reads_flags = read;
      has_value =
          is_value_iff (value (partition c.skip_when).0) (partition c.skip_when).1 (ground arith);
    }
  ]
]

IsSkipped-should_skip : (db : Answers) (c : Check) → IsSkipped db c → should_skip db c ≡ true
unfolding should_skip
IsSkipped-should_skip db c k =
    let (d, (s, given)) = k.has_condition in
    let same = str_eq_refl (partition c.skip_when).1 in
    let held = k.has_value in let read = k.reads_flags in ground arith

equals_int_iff : (v : ℕ) (z : ℤ) → equals_int v z ≡ true → z ≡ pos v
equals_int_iff v (pos n) h = ground arith
equals_int_iff v (negsuc n) h = absurd cc

run_check-Passes :
    (db : Answers) (stage : Str) (c : Check) → run_check db stage c ≡ some 0 → Passes db stage c
unfolding run_check
run_check-Passes db stage c h = elim (Bool-cases (in_stage stage c)) [
  | inr e ↦ other_stage e
  | inl here ↦ elim (Bool-cases (should_skip db c)) [
    | inl e ↦ skipped (should_skip-IsSkipped db c e)
    | inr e ↦ elim (Option-cases (db.scalar c.sql)) [
      | inl raised ↦ absurd (ground arith)
      | inr (v, value) ↦ elim (Bool-cases (str_eq c.expect (text "info"))) [
        | inl info ↦ informs v value info
        | inr number ↦ elim (Option-cases (parse_int c.expect)) [
          | inl bad ↦ absurd (ground arith)
          | inr (z, parsed) ↦
              let equal : equals_int v z ≡ true = ground arith in
              meets v value number (parsed ∙ ap (λ x. some x) (equals_int_iff v z equal))
        ]
      ]
    ]
  ]
]

Passes-run_check :
    (db : Answers) (stage : Str) (c : Check) → Passes db stage c → run_check db stage c ≡ some 0
unfolding run_check
Passes-run_check db stage c (other_stage e) = rw e refl
Passes-run_check db stage c (skipped e) = elim (Bool-cases (in_stage stage c)) [
  | inl here ↦ rw (here, IsSkipped-should_skip db c e) refl
  | inr e' ↦ rw e' refl
]
Passes-run_check db stage c (informs v value e) = ground arith
Passes-run_check db stage c (meets v value e parsed) = ground arith

no_failures : (a b : Option ℕ) → add_failures a b ≡ some 0 → (a ≡ some 0) × (b ≡ some 0)
no_failures none b h = absurd cc
no_failures (some n) none h = absurd cc
no_failures (some n) (some m) h =
    let sum : n + m ≡ 0 = ground arith in
    (ap (λ x. some x) (omega arith), ap (λ x. some x) (omega arith))

checks_pass :
    (db : Answers) (stage : Str) (cs : List Check)
    → run_checks db stage cs ≡ some 0
    → All (Passes db stage) cs
unfolding run_checks
checks_pass db stage [] h = tt
checks_pass db stage (c ∷ cs) h =
    let (first, rest) = no_failures (run_check db stage c) (run_checks db stage cs) h in
    (run_check-Passes db stage c first, checks_pass db stage cs rest)

pass_checks :
    (db : Answers) (stage : Str) (cs : List Check)
    → All (Passes db stage) cs
    → run_checks db stage cs ≡ some 0
unfolding run_checks
pass_checks db stage [] h = refl
pass_checks db stage (c ∷ cs) h =
    rw (Passes-run_check db stage c h.0, pass_checks db stage cs h.1) refl

-- the queries of the file for the size and the checksum, over the users up to an id, yield these
pub record AsOf (db : Answers) (checks : List Check) (max_id size : ℕ) (checksum : Str)
    : Type 0 where
  pub counted : Check
  pub summed : Check
  pub finds_count : by_name checks (text "snapshot_count") ≡ some counted
  pub counts : db.scalar_up_to counted.sql max_id ≡ some size
  pub finds_sum : by_name checks (text "snapshot_checksum") ≡ some summed
  pub sums : db.text_up_to summed.sql max_id ≡ some checksum

-- the saved snapshot, if there is one, is that of the users up to the same id
pub IsSame : Answers → List Check → Option Snapshot → Type 0
IsSame db checks none = Unit {0}
IsSame db checks (some saved) = AsOf db checks saved.max_id saved.size saved.checksum

-- what a run writes: nothing, unless it was asked for the snapshot of the users up to the last id
pub data IsWritten (db : Answers) (checks : List Check) : Bool → Option Snapshot → Type 0 where
  not_asked : IsWritten db checks false none
  asked :
      (last : Check) (s : Snapshot)
      → by_name checks (text "snapshot_max_id") ≡ some last
      → db.scalar last.sql ≡ some s.max_id
      → AsOf db checks s.max_id s.size s.checksum
      → IsWritten db checks true (some s)

taken-AsOf :
    (db : Answers) (checks : List Check) (max_id size : ℕ) (checksum : Str)
    → take_snapshot_up_to db checks max_id ≡ some (size, checksum)
    → AsOf db checks max_id size checksum
unfolding take_snapshot_up_to
taken-AsOf db checks max_id size checksum h =
    elim (Option-cases (by_name checks (text "snapshot_count"))) [
      | inl e ↦ absurd (ground arith)
      | inr (counted, found) ↦ elim (Option-cases (db.scalar_up_to counted.sql max_id)) [
        | inl e ↦ absurd (ground arith)
        | inr (n, is_n) ↦ elim (Option-cases (by_name checks (text "snapshot_checksum"))) [
          | inl e ↦ absurd (ground arith)
          | inr (summed, found') ↦ elim (Option-cases (db.text_up_to summed.sql max_id)) [
            | inl e ↦ absurd (ground arith)
            | inr (t, is_t) ↦ record {
              counted = counted;
              summed = summed;
              finds_count = found;
              counts = ground arith;
              finds_sum = found';
              sums = ground arith;
            }
          ]
        ]
      ]
    ]

AsOf-taken :
    (db : Answers) (checks : List Check) (max_id size : ℕ) (checksum : Str)
    → AsOf db checks max_id size checksum
    → take_snapshot_up_to db checks max_id ≡ some (size, checksum)
unfolding take_snapshot_up_to
AsOf-taken db checks max_id size checksum a = rw (a.finds_count, a.counts, a.finds_sum, a.sums) refl

failed_none : (o : Option Bool) → failed o ≡ some 0 → o ≡ some true
failed_none none h = absurd cc
failed_none (some true) h = refl
failed_none (some false) h = absurd (ground arith)

compare-AsOf :
    (db : Answers) (checks : List Check) (saved : Snapshot)
    → compare_snapshot db checks saved ≡ some true
    → AsOf db checks saved.max_id saved.size saved.checksum
unfolding compare_snapshot
compare-AsOf db checks saved h = elim (Option-cases (take_snapshot_up_to db checks saved.max_id)) [
  | inl e ↦ absurd (ground arith)
  | inr (now, taken) ↦
      let both : (now.0 == saved.size) && str_eq now.1 saved.checksum ≡ true = ground arith in
      let size : now.0 ≡ saved.size = ground arith in
      let checksum : now.1 ≡ saved.checksum = str_eq→eq now.1 saved.checksum (ground arith) in
      taken-AsOf db checks saved.max_id saved.size saved.checksum
        (taken ∙ ap (λ n. some (n, now.1)) size ∙ ap (λ x. some (saved.size, x)) checksum)
]

compare-IsSame :
    (db : Answers) (checks : List Check) (o : Option Snapshot)
    → compare_failures db checks o ≡ some 0
    → IsSame db checks o
unfolding compare_failures IsSame
compare-IsSame db checks none h = tt
compare-IsSame db checks (some saved) h =
    compare-AsOf db checks saved (failed_none (compare_snapshot db checks saved) h)

IsSame-compare :
    (db : Answers) (checks : List Check) (o : Option Snapshot)
    → IsSame db checks o
    → compare_failures db checks o ≡ some 0
unfolding compare_failures compare_snapshot IsSame
IsSame-compare db checks none h = refl
IsSame-compare db checks (some saved) h =
    rw (AsOf-taken db checks saved.max_id saved.size saved.checksum h, str_eq_refl saved.checksum)
      (ground arith)

save-IsWritten :
    (db : Answers) (checks : List Check) (save : Bool) (written : Option Snapshot)
    → save_snapshot db checks save ≡ some written
    → IsWritten db checks save written
unfolding save_snapshot take_snapshot
save-IsWritten db checks false none h = not_asked
save-IsWritten db checks false (some s) h = absurd (ground arith)
save-IsWritten db checks true none h = elim (Option-cases (take_snapshot db checks)) [
  | inl e ↦ absurd (ground arith)
  | inr (t, e) ↦ absurd (ground arith)
]
save-IsWritten db checks true (some s) h =
    elim (Option-cases (by_name checks (text "snapshot_max_id"))) [
      | inl e ↦ absurd (ground arith)
      | inr (last, found) ↦ elim (Option-cases (db.scalar last.sql)) [
        | inl e ↦ absurd (ground arith)
        | inr (id, is_id) ↦ elim (Option-cases (take_snapshot_up_to db checks id)) [
          | inl e ↦ absurd (ground arith)
          | inr (now, taken) ↦
              let made : record { max_id = id; size = now.0; checksum = now.1 } ≡ s =
                ground arith in
              subst (λ x. IsWritten db checks true (some x)) made
                (asked last (record { max_id = id; size = now.0; checksum = now.1 }) found is_id
                  (taken-AsOf db checks id now.0 now.1 taken))
        ]
      ]
    ]

IsWritten-save :
    (db : Answers) (checks : List Check) (save : Bool) (written : Option Snapshot)
    → IsWritten db checks save written
    → save_snapshot db checks save ≡ some written
unfolding save_snapshot take_snapshot
IsWritten-save db checks _ _ not_asked = refl
IsWritten-save db checks _ _ (asked last s found is_id a) =
    let taken = AsOf-taken db checks s.max_id s.size s.checksum a in ground arith

-- what `main` makes of its three results
outcome : Option ℕ → Option (Option Snapshot) → Option ℕ → Option (ℕ × Option Snapshot)
outcome a b c = a >>= λ n. b >>= λ w. c >>= λ m. some (if n + m == 0 then 0 else 1, w)

outcome_zero :
    (a : Option ℕ) (b : Option (Option Snapshot)) (c : Option ℕ) (w : Option Snapshot)
    → outcome a b c ≡ some (0, w)
    → (a ≡ some 0) × ((b ≡ some w) × (c ≡ some 0))
unfolding outcome
outcome_zero none b c w h = absurd cc
outcome_zero (some n) none c w h = absurd cc
outcome_zero (some n) (some v) none w h = absurd cc
outcome_zero (some n) (some v) (some m) w h = elim (Bool-cases (n + m == 0)) [
  | inl e ↦
      let sum : n + m ≡ 0 = ground arith in
      (ap (λ x. some x) (omega arith), (ground arith, ap (λ x. some x) (omega arith)))
  | inr e ↦ absurd (ground arith)
]

-- The exit status is 0 exactly if every check of the file passes, the saved snapshot, if one is
-- compared, has the size and the checksum that the queries of the file now yield for the users up to
-- its id, and the snapshot that was asked for, and no other, is written: the last id, and the size and
-- the checksum up to it.
pub verify_main-Passes :
    (db : Answers) (stage : Str) (checks : List Check) (save : Bool) (compare : Option Snapshot)
    (written : Option Snapshot)
    → (verify_main db stage checks save compare ≡ some (0, written)) ↔ (
        All (Passes db stage) checks
        × (IsWritten db checks save written × IsSame db checks compare))
unfolding verify_main outcome
verify_main-Passes db stage checks save compare written = (
  λ h.
      let (ran, rest) =
        outcome_zero (run_checks db stage checks) (save_snapshot db checks save)
          (compare_failures db checks compare) written h in
      (
        checks_pass db stage checks ran,
        (save-IsWritten db checks save written rest.0, compare-IsSame db checks compare rest.1),
      ),
  λ h.
      rw
        (
          pass_checks db stage checks h.0,
          IsWritten-save db checks save written h.1.0,
          IsSame-compare db checks compare h.1.1,
        )
        refl,
)
