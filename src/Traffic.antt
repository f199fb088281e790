-- ===== src/Traffic.antt =====
-- scripts/traffic_gen.py: what the load generator records of the requests it makes, the check of each
-- answer, and the report at the end. Durations are whole microseconds.
pub mod Ranks
pub mod Verdict
use pruet_web_dev.Base.{
  ℕ, zero, suc, ◌+◌, ◌-◌, ◌*◌, ◌/◌, Bool, true, false, not, ◌&&◌, ◌||◌, Option, none, some, List,
  [], ◌∷◌, ◌++◌, ◌==◌, ltb, leb, length, filter, if◌then◌else◌,
}
use pruet_web_dev.Base.Sorting.{sort}
use pruet_web_dev.Text.{Str, str_eq, text, truthy, is_space, or_empty}

-- `P99_LIMIT_MS`
abbrev pub p99_limit : ℕ
p99_limit = 500000

abbrev pub microseconds : ℕ
microseconds = 1000000

pub data Method : Type 0 where
  post put get : Method

-- the arguments of `Stats.record`; no status when no response came
pub record Call : Type 0 where
  pub method : Method
  pub status : Option ℕ
  pub latency : ℕ
  pub problem : Option Str

-- `Stats`, without its lock; a sample is kept unprinted
pub record Stats : Type 0 where
  pub ok_post : ℕ
  pub ok_put : ℕ
  pub ok_get : ℕ
  pub client_errors : ℕ
  pub server_errors : ℕ
  pub network_errors : ℕ
  pub data_errors : ℕ
  pub latencies : List ℕ
  pub samples : List Call

abbrev pub no_stats : Stats
no_stats = record {
  ok_post = 0;
  ok_put = 0;
  ok_get = 0;
  client_errors = 0;
  server_errors = 0;
  network_errors = 0;
  data_errors = 0;
  latencies = [];
  samples = [];
}

abbrev pub count_ok : Method → Stats → Stats
count_ok post s = record s { ok_post = suc s.ok_post }
count_ok put s = record s { ok_put = suc s.ok_put }
count_ok get s = record s { ok_get = suc s.ok_get }

-- the counter that a call raises
unfoldable pub count_call : Call → Stats → Stats
count_call c s = elim c.status [
  | none ↦ record s { network_errors = suc s.network_errors }
  | some status ↦
      if leb 500 status
      then record s { server_errors = suc s.server_errors }
      else if leb 400 status
      then record s { client_errors = suc s.client_errors }
      else if truthy c.problem
      then record s { data_errors = suc s.data_errors }
      else count_ok c.method s
]

abbrev pub is_bad : Call → Bool
is_bad c = elim c.status [ none ↦ true | some status ↦ leb 400 status || truthy c.problem ]

-- `Stats.record`
unfoldable pub record_call : Call → Stats → Stats
unfolding count_call
record_call c s =
    let counted = count_call c (record s { latencies = s.latencies ++ c.latency ∷ [] }) in
    if is_bad c && ltb (length s.samples) 8
    then record counted { samples = s.samples ++ c ∷ [] }
    else counted

-- the calls of a run, in the order in which they took the lock
unfoldable pub record_calls : List Call → Stats → Stats
unfolding record_call
record_calls [] s = s
record_calls (c ∷ cs) s = record_calls cs (record_call c s)

abbrev pub sum_ok : Stats → ℕ
sum_ok s = s.ok_post + s.ok_put + s.ok_get

abbrev pub entry_at : ℕ → List ℕ → ℕ
entry_at i [] = 0
entry_at zero (x ∷ xs) = x
entry_at (suc i) (x ∷ xs) = entry_at i xs

abbrev pub smaller : ℕ → ℕ → ℕ
smaller m n = if ltb m n then m else n

-- `percentile`
unfoldable pub percentile : List ℕ → ℕ → ℕ
percentile [] pct = 0
percentile (v ∷ vs) pct =
    let ordered = sort ltb (v ∷ vs) in
    entry_at (smaller (length ordered - 1) (length ordered * pct / 100)) ordered

-- `str.split`
unfoldable pub words : Str → List Str
words [] = []
words (c ∷ s) =
    let rest = words s in
    if is_space c then rest else (elim s [
      | [] ↦ (c ∷ []) ∷ []
      | d ∷ s' ↦
          if is_space d
          then (c ∷ []) ∷ rest
          else (elim rest [ [] ↦ (c ∷ []) ∷ [] | w ∷ ws ↦ (c ∷ w) ∷ ws ])
    ])

unfoldable pub join_words : List Str → Str
join_words [] = []
join_words (w ∷ ws) =
    let rest = join_words ws in elim ws [ [] ↦ w | v ∷ vs ↦ w ++ text " " ++ rest ]

unfoldable pub normalise : Option Str → Str
unfolding words join_words
normalise t = join_words (words (or_empty t))

-- the fields of an answer that the check reads
pub record Body : Type 0 where
  pub id : Option ℕ
  pub email : Option Str
  pub username : Option Str
  pub role : Option Str
  pub created_at : Option Str
  pub first_name : Option Str
  pub last_name : Option Str
  pub full_name : Option Str

pub data Problem : Type 0 where
  missing_fields : List Str → Problem
  name_fields_missing : Problem
  names_differ : Str → Str → Option Str → Problem

abbrev pub if_missing : Option Str → Str → List Str → List Str
if_missing v name rest = if truthy v then rest else name ∷ rest

-- the fields of `REQUIRED_FIELDS` that are null or empty
unfoldable pub missing_of : Body → List Str
missing_of b =
    let rest = if_missing b.email (text "email") (
      if_missing b.username (text "username")
        (if_missing b.role (text "role") (if_missing b.created_at (text "created_at") []))) in
    elim b.id [ none ↦ text "id" ∷ rest | some k ↦ rest ]

-- `check_user_body`
unfoldable pub check_user_body : Body → Option Problem
unfolding missing_of normalise
check_user_body b = elim (missing_of b) [
  | f ∷ fs ↦ some (missing_fields (f ∷ fs))
  | [] ↦ elim b.full_name [
    | none ↦ some name_fields_missing
    | some full ↦ elim b.first_name [
      | none ↦ some name_fields_missing
      | some first ↦
          if str_eq (normalise (some full))
            (normalise (some (first ++ text " " ++ or_empty b.last_name)))
          then none
          else some (names_differ full first b.last_name)
    ]
  ]
]

-- the criteria of `report`, in its order; `total / elapsed >= min_rps`, without the division
unfoldable pub criteria : Stats → ℕ → ℕ → List Bool
unfolding percentile
criteria s elapsed min_rps =
    let total = sum_ok s + s.client_errors + s.server_errors + s.network_errors + s.data_errors in
    (s.server_errors == 0)
    ∷ (s.network_errors == 0)
    ∷ (s.client_errors == 0)
    ∷ (s.data_errors == 0)
    ∷ ltb (percentile s.latencies 99) p99_limit
    ∷ (if elapsed == 0 then min_rps == 0 else leb (min_rps * elapsed) (total * microseconds))
    ∷ []

-- `report`: its exit status
unfoldable pub report : Stats → ℕ → ℕ → ℕ
unfolding criteria
report s elapsed min_rps = elim (filter not (criteria s elapsed min_rps)) [ [] ↦ 0 | c ∷ cs ↦ 1 ]
