-- ===== src/MigrationChecks/Printed.antt =====
-- The file format that scripts/verify_migration.py reads, written out: blocks of marker lines and one
-- statement.
use pruet_web_dev.Base.{
  ℕ, ◌≡◌, refl, subst, sym, ap, ◌∙◌, Bool, true, false, Option, none, some, List, [], ◌∷◌, ◌++◌,
  ◌==◌, arith, All, is_some, Bool-cases, Option-cases, inl, inr,
}
use pruet_web_dev.Text.{Str, text, is_space, lstrip, rstrip, strip}
use pruet_web_dev.Text.Stripped.{rstrip_append_same, rstrip_more, lstrip_word, strip_stripped}
use pruet_web_dev.MigrationChecks.{
  Check, Key, Header, behind, key_word, read_key, read_keys, read_marker, is_comment, is_blank,
  ends_statement, check_of,
}

-- the keys of a block, the lines of its statement, and the last of these
pub record Block : Type 0 where
  pub name : Str
  pub stages : Option Str
  pub expect : Option Str
  pub what : Option Str
  pub skip_when : Option Str
  pub body : List Str
  pub last : Str

abbrev pub marker : Key → Str → Str
marker k v = text "-- @" ++ key_word k ++ 32 ∷ v

abbrev pub option_marker : Key → Option Str → List Str
option_marker k none = []
option_marker k (some v) = marker k v ∷ []

-- the lines of a block, and the lines behind it
abbrev pub print_block : Block → List Str → List Str
print_block b rest =
    marker Key.name b.name
    ∷ (option_marker Key.stages b.stages
        ++ (option_marker Key.expect b.expect
            ++ (option_marker Key.what b.what
                ++ (option_marker Key.skip_when b.skip_when ++ (b.body ++ b.last ∷ rest)))))

abbrev pub print_blocks : List Block → List Str
print_blocks [] = []
print_blocks (b ∷ bs) = print_block b (print_blocks bs)

abbrev pub block_header : Block → Header
block_header b = record {
  name = some b.name;
  stages = b.stages;
  expect = b.expect;
  what = b.what;
  skip_when = b.skip_when;
}

-- the check that a block stands for
abbrev pub block_check : Block → Check
block_check b = check_of b.name (block_header b) (b.body ++ b.last ∷ [])

-- a value with no whitespace around it, not an empty one
pub record IsValue (v : Str) : Type 0 where
  pub stripped : strip v ≡ v
  pub not_empty : (c : ℕ) × (t : Str) × (v ≡ c ∷ t)

abbrev pub IsOptionValue : Option Str → Type 0
IsOptionValue none = Unit {0}
IsOptionValue (some v) = IsValue v

-- a line of a statement, which ends the statement or not
pub record IsSqlLine (ends : Bool) (line : Str) : Type 0 where
  pub rstripped : rstrip line ≡ line
  pub blank : is_blank line ≡ false
  pub comment : is_comment line ≡ false
  pub ended : ends_statement line ≡ ends

pub record IsBlock (b : Block) : Type 0 where
  pub name_ok : IsValue b.name
  pub stages_ok : IsOptionValue b.stages
  pub expect_ok : IsOptionValue b.expect
  pub what_ok : IsOptionValue b.what
  pub skip_when_ok : IsOptionValue b.skip_when
  pub body_ok : All (IsSqlLine false) b.body
  pub last_ok : IsSqlLine true b.last

pub rstrip-marker : (k : Key) (v : Str) → IsValue v → rstrip (marker k v) ≡ marker k v
rstrip-marker k v h =
    let (c, t, cons) = h.not_empty in
    let right : rstrip v ≡ v = subst (λ x. rstrip x ≡ x) h.stripped (strip_stripped v).1 in
    let more : rstrip (32 ∷ v) ≡ 32 ∷ v =
      rstrip_more 32 c v t (right ∙ cons) ∙ ap (λ x. 32 ∷ x) (sym cons) in
    rstrip_append_same (text "-- @" ++ key_word k) v 32 more

strip_space : (v : Str) → strip (32 ∷ v) ≡ strip v
unfolding strip lstrip is_space
strip_space v = refl

read_marker_key : (k : Key) (v : Str) → read_marker (marker k v) ≡ some (k, strip (32 ∷ v))
unfolding read_marker read_keys read_key behind lstrip is_space
read_marker_key Key.name v = refl
read_marker_key Key.stages v = refl
read_marker_key Key.expect v = refl
read_marker_key Key.what v = refl
read_marker_key Key.skip_when v = refl

pub read_marker-marker : (k : Key) (v : Str) → IsValue v → read_marker (marker k v) ≡ some (k, v)
read_marker-marker k v h = read_marker_key k v ∙ ap (λ x. some (k, x)) (strip_space v ∙ h.stripped)

no_marker : (line : Str) → behind (text "--") line ≡ none → read_marker line ≡ none
unfolding read_marker
no_marker line e = rw (e, read_marker) refl

dash_no_marker : (s : Str) → is_comment (45 ∷ s) ≡ false → read_marker (45 ∷ s) ≡ none
dash_no_marker s h = elim (Option-cases (behind (text "--") (45 ∷ s))) [
  | inl e ↦ no_marker (45 ∷ s) e
  | inr (r, e) ↦
      let same : lstrip (45 ∷ s) ≡ 45 ∷ s = lstrip_word 45 s (unfold is_space in refl) in
      let comment : is_comment (45 ∷ s) ≡ true =
        ap (λ x. is_some (behind (text "--") x)) same ∙ ap (λ (x : Option Str). is_some x) e in
      absurd (ground arith)
]

other_start : (c : ℕ) (s : Str) → (45 == c) ≡ false → behind (text "--") (c ∷ s) ≡ none
unfolding behind
other_start c s e = rw e refl

no_text : behind (text "--") [] ≡ none
unfolding behind
no_text = refl

-- a line that is no comment is no marker
pub read_marker_sql : (line : Str) → is_comment line ≡ false → read_marker line ≡ none
read_marker_sql [] h = no_marker [] no_text
read_marker_sql (c ∷ s) h = elim (Bool-cases (45 == c)) [
  | inl e ↦
      let is_dash : 45 ≡ c = ground arith in
      subst (λ x. read_marker (x ∷ s) ≡ none) is_dash
        (dash_no_marker s (subst (λ x. is_comment (x ∷ s) ≡ false) (sym is_dash) h))
  | inr e ↦ no_marker (c ∷ s) (other_start c s e)
]
