-- ===== src/Users/Names.antt =====
-- The name rules of app/services/user_service.py.
use pruet_web_dev.Base.{Option, none, some, [], ◌∷◌, ◌++◌, is_some, if◌then◌else◌}
use pruet_web_dev.Text.{Str, text, str_eq, truthy, strip, lstrip, break_space, clean, or_empty}

-- `full_name.strip().split(maxsplit=1)`, with '' for what is missing
unfoldable pub split_full_name : Option Str → Str × Str
unfolding strip lstrip break_space
split_full_name none = ([], [])
split_full_name (some s) = let (head, rest) = break_space (strip s) in (head, lstrip rest)

-- `p.strip()` of the parts that are not blank, joined by one space
abbrev pub join_clean : Option Str → Option Str → Str
join_clean none none = []
join_clean none (some l) = l
join_clean (some f) none = f
join_clean (some f) (some l) = f ++ (32 ∷ l)

unfoldable pub join_names : Option Str → Option Str → Str
unfolding clean
join_names first_name last_name = join_clean (clean first_name) (clean last_name)

-- `text or None`
abbrev pub or_none : Str → Option Str
or_none [] = none
or_none (c ∷ s) = some (c ∷ s)

-- `a or b`
abbrev pub or_else : Option Str → Option Str → Option Str
or_else none b = b
or_else (some []) b = b
or_else (some (c ∷ s)) b = some (c ∷ s)

abbrev pub get_or_else : Option Str → Str → Str
get_or_else none d = d
get_or_else (some s) d = s

-- full_name, first_name, last_name
pub record Names : Type 0 where
  pub full_name : Option Str
  pub first_name : Option Str
  pub last_name : Option Str

-- `if full and not f_name:` derive the parts from the full name
unfoldable pub derive_parts : Option Str → Option Str → Option Str → Option Str × Option Str
unfolding split_full_name
derive_parts full f l =
    if truthy full
    then (if truthy f
        then (f, l)
        else (let (head, tail) = split_full_name full in (some head, some (get_or_else l tail))))
    else (f, l)

-- `if f_name and l_name is None:` the last name is never NULL beside a first name
unfoldable pub fill_last : Option Str → Option Str → Option Str → Option Str
unfolding split_full_name
fill_last full f (some l) = some l
fill_last full f none =
    if truthy f
    then (if truthy full
        then (let (head, tail) = split_full_name full in
            if str_eq head (or_empty f) then some tail else some [])
        else some [])
    else none

abbrev pub legacy : Str
legacy = text "legacy"

abbrev pub new_mode : Str
new_mode = text "new"

-- `resolve_names`; any mode but "legacy" and "new" writes both shapes
unfoldable pub resolve_names : Option Str → Option Str → Option Str → Str → Names
unfolding clean join_names derive_parts fill_last
resolve_names full_name first_name last_name write_mode =
    let full =
      or_else (clean full_name) (or_none (join_names (clean first_name) (clean last_name))) in
    let (f, l) = derive_parts full (clean first_name) (clean last_name) in
    let l' = fill_last full f l in
    if str_eq write_mode legacy
    then record { full_name = full; first_name = none; last_name = none }
    else if str_eq write_mode new_mode
    then record { full_name = none; first_name = f; last_name = l' }
    else record { full_name = full; first_name = f; last_name = l' }

-- what `build_user_response` shows of the stored names, by the active read source
unfoldable pub shown_names : Names → Str → Names
unfolding join_names split_full_name
shown_names n read_source =
    if str_eq read_source new_mode
    then record {
      full_name = or_none (join_names n.first_name n.last_name);
      first_name = n.first_name;
      last_name = n.last_name;
    }
    else (let full = or_else n.full_name (or_none (join_names n.first_name n.last_name)) in
        if is_some n.first_name
        then record { full_name = full; first_name = n.first_name; last_name = n.last_name }
        else if truthy full
        then (let (head, tail) = split_full_name full in
            record { full_name = full; first_name = some head; last_name = some tail })
        else record { full_name = full; first_name = n.first_name; last_name = n.last_name })
