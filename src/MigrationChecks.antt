-- ===== src/MigrationChecks.antt =====
-- scripts/verify_migration.py: the SQL checks of the name migration, read from an annotated file and
-- run by stage. The rows that the SQL yields are the database's.
pub mod Printed
pub mod RoundTrip
pub mod Run
pub mod Verdict
use pruet_web_dev.Base.{
  ℕ, zero, suc, ◌+◌, Bool, true, false, not, ◌&&◌, ◌||◌, Option, none, some, List, [], ◌∷◌, ◌++◌,
  ◌==◌, any, find?, is_some, if◌then◌else◌,
}
use pruet_web_dev.Text.{Str, text, str_eq, is_space, lstrip, rstrip, strip}

pub record Check : Type 0 where
  pub name : Str
  pub stages : List Str
  pub expect : Str
  pub what : Str
  pub sql : Str
  -- "flag=value", or ''
  pub skip_when : Str

pub data Key : Type 0 where
  name : Key
  stages : Key
  expect : Key
  what : Key
  skip_when : Key

-- `header`: the values of the markers of a block so far
pub record Header : Type 0 where
  pub name : Option Str
  pub stages : Option Str
  pub expect : Option Str
  pub what : Option Str
  pub skip_when : Option Str

abbrev pub no_header : Header
no_header = record { name = none; stages = none; expect = none; what = none; skip_when = none }

-- `header[key] = value`
unfoldable pub set_key : Key → Str → Header → Header
set_key Key.name v h = record h { name = some v }
set_key Key.stages v h = record h { stages = some v }
set_key Key.expect v h = record h { expect = some v }
set_key Key.what v h = record h { what = some v }
set_key Key.skip_when v h = record h { skip_when = some v }

-- `s` behind a prefix
unfoldable pub behind : Str → Str → Option Str
behind [] s = some s
behind (c ∷ p) [] = none
behind (c ∷ p) (d ∷ s) = let rest = behind p s in if c == d then rest else none

abbrev pub key_word : Key → Str
key_word Key.name = text "name"
key_word Key.stages = text "stages"
key_word Key.expect = text "expect"
key_word Key.what = text "what"
key_word Key.skip_when = text "skip_when"

-- a key, whitespace, and the value
unfoldable pub read_key : Key → Str → Option (Key × Str)
read_key k s = elim (behind (key_word k) s) [
  | none ↦ none
  | some [] ↦ none
  | some (c ∷ v) ↦ if is_space c then some (k, strip (c ∷ v)) else none
]

abbrev pub or_next : Option (Key × Str) → Option (Key × Str) → Option (Key × Str)
or_next none o = o
or_next (some r) o = some r

-- `(name|stages|expect|what|skip_when)\s+(.*)$`
unfoldable pub read_keys : Str → Option (Key × Str)
read_keys s = or_next (read_key Key.name s) (
    or_next (read_key Key.stages s)
      (or_next (read_key Key.expect s) (or_next (read_key Key.what s) (read_key Key.skip_when s))))

-- the match of a marker line, with the value stripped
unfoldable pub read_marker : Str → Option (Key × Str)
read_marker line = elim (behind (text "--") line) [
  | none ↦ none
  | some s ↦ elim (behind (text "@") (lstrip s)) [ none ↦ none | some r ↦ read_keys r ]
]

abbrev pub cons_word : Str → List Str → List Str
cons_word [] ws = ws
cons_word (c ∷ w) ws = (c ∷ w) ∷ ws

-- `s.split()`: the word being read, and the words behind it
unfoldable pub split_words : Str → Str → List Str
split_words w [] = cons_word w []
split_words w (c ∷ s) =
    let ends = split_words [] s in
    let goes_on = split_words (w ++ c ∷ []) s in if is_space c then cons_word w ends else goes_on

unfoldable pub split : Str → List Str
split s = split_words [] s

-- `"\n".join(lines)`
unfoldable pub join_lines : List Str → Str
join_lines [] = []
join_lines (l ∷ []) = l
join_lines (l ∷ m ∷ ls) = l ++ 10 ∷ join_lines (m ∷ ls)

-- `s.rstrip(";")`
unfoldable pub rstrip_semicolons : Str → Str
rstrip_semicolons [] = []
rstrip_semicolons (c ∷ s) = elim (rstrip_semicolons s) [
  | [] ↦ if c == 59 then [] else c ∷ []
  | d ∷ t ↦ c ∷ d ∷ t
]

-- `line.endswith(";")`
unfoldable pub ends_statement : Str → Bool
ends_statement [] = false
ends_statement (c ∷ []) = c == 59
ends_statement (c ∷ d ∷ s) = ends_statement (d ∷ s)

-- `header.get(key, default)`
abbrev pub get : Option Str → Str → Str
get none d = d
get (some v) d = v

-- `Check(...)` of a finished block
unfoldable pub check_of : Str → Header → List Str → Check
check_of n h body = record {
  name = n;
  stages = split (get h.stages (text "-"));
  expect = get h.expect (text "info");
  what = get h.what [];
  sql = rstrip_semicolons (join_lines body);
  skip_when = get h.skip_when [];
}

-- the checks read so far, the header and the body of the open block
pub record Parse : Type 0 where
  pub checks : List Check
  pub header : Header
  pub body : List Str

-- `line.lstrip().startswith("--")`
abbrev pub is_comment : Str → Bool
is_comment line = is_some (behind (text "--") (lstrip line))

abbrev pub is_blank : Str → Bool
is_blank s = elim (strip s) [ [] ↦ true | c ∷ r ↦ false ]

-- a marker line: `name` opens a block
unfoldable pub on_marker : Key → Str → Parse → Parse
on_marker Key.name v p = record p { header = set_key Key.name v no_header; body = [] }
on_marker k v p = record p { header = set_key k v p.header }

-- a line of a statement, of which a `;` ends the last
unfoldable pub on_sql : Str → Str → Parse → Parse
on_sql n line p =
    let body = p.body ++ line ∷ [] in
    if ends_statement line
    then record {
      checks = p.checks ++ check_of n p.header body ∷ [];
      header = no_header;
      body = [];
    }
    else record p { body = body }

-- the body of the loop of `parse_checks`, on a line without whitespace at its end
unfoldable pub parse_line : Str → Parse → Parse
parse_line line p = elim (read_marker line) [
  | some (k, v) ↦ on_marker k v p
  | none ↦ elim p.header.name [
    | none ↦ p
    | some [] ↦ p
    | some (c ∷ n) ↦ if is_blank line || is_comment line then p else on_sql (c ∷ n) line p
  ]
]

unfoldable pub parse_lines : List Str → Parse → Parse
parse_lines [] p = p
parse_lines (raw ∷ raws) p = parse_lines raws (parse_line (rstrip raw) p)

-- `parse_checks`, of the lines of the file
unfoldable pub parse_checks : List Str → List Check
parse_checks raws =
    (parse_lines raws (record { checks = []; header = no_header; body = [] })).checks
