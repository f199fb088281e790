-- ===== src/MigrationChecks/RoundTrip.antt =====
-- scripts/verify_migration.py: parse_checks on printed blocks.
use mathlib.Core.List.{append_assoc, append-nil}
use pruet_web_dev.Base.{
  ℕ, ◌≡◌, refl, sym, ap, ◌∙◌, Bool, true, false, Option, none, some, List, [], ◌∷◌, ◌++◌, map,
  arith, All,
}
use pruet_web_dev.Text.{Str}
use pruet_web_dev.MigrationChecks.{
  Check, Key, Header, no_header, set_key, read_marker, is_blank, is_comment, ends_statement,
  check_of, Parse, on_marker, on_sql, parse_line, parse_lines, parse_checks,
}
use pruet_web_dev.MigrationChecks.Printed.{
  Block, marker, option_marker, print_block, print_blocks, block_header, block_check, IsValue,
  IsOptionValue, IsSqlLine, IsBlock, rstrip-marker, read_marker-marker, read_marker_sql,
}

abbrev state : List Check → Header → List Str → Parse
state checks header body = record { checks = checks; header = header; body = body }

parse_marker_line :
    (line : Str) (k : Key) (v : Str) (p : Parse)
    → read_marker line ≡ some (k, v)
    → parse_line line p ≡ on_marker k v p
unfolding parse_line
parse_marker_line line k v p e = rw (e, parse_line) refl

parse_sql_line :
    (line : Str) (c : ℕ) (n : Str) (p : Parse)
    → read_marker line ≡ none
    → p.header.name ≡ some (c ∷ n)
    → is_blank line ≡ false
    → is_comment line ≡ false
    → parse_line line p ≡ on_sql (c ∷ n) line p
unfolding parse_line
parse_sql_line line c n p e named blank comment = ground arith

parse_marker :
    (k : Key) (v : Str) (rest : List Str) (p : Parse)
    → IsValue v
    → parse_lines (marker k v ∷ rest) p ≡ parse_lines rest (on_marker k v p)
unfolding parse_lines
parse_marker k v rest p h = ap (parse_lines rest) (
    ap (λ l. parse_line l p) (rstrip-marker k v h)
    ∙ parse_marker_line (marker k v) k v p (read_marker-marker k v h))

-- a marker that may be left out
abbrev set_option : Key → Option Str → Parse → Parse
set_option k none p = p
set_option k (some v) p = on_marker k v p

parse_option :
    (k : Key) (o : Option Str) (rest : List Str) (p : Parse)
    → IsOptionValue o
    → parse_lines (option_marker k o ++ rest) p ≡ parse_lines rest (set_option k o p)
parse_option k none rest p h = refl
parse_option k (some v) rest p h = parse_marker k v rest p h

abbrev header : Str → Option Str → Option Str → Option Str → Option Str → Header
header n s e w k = record { name = some n; stages = s; expect = e; what = w; skip_when = k }

module _ (cs : List Check) (n : Str) where
  set_stages :
      (s : Option Str)
      → set_option Key.stages s (state cs (header n none none none none) [])
        ≡ state cs (header n s none none none) []
  unfolding on_marker set_key
  set_stages none = refl
  set_stages (some v) = refl

  set_expect :
      (s e : Option Str)
      → set_option Key.expect e (state cs (header n s none none none) [])
        ≡ state cs (header n s e none none) []
  unfolding on_marker set_key
  set_expect s none = refl
  set_expect s (some v) = refl

  set_what :
      (s e w : Option Str)
      → set_option Key.what w (state cs (header n s e none none) [])
        ≡ state cs (header n s e w none) []
  unfolding on_marker set_key
  set_what s e none = refl
  set_what s e (some v) = refl

  set_skip_when :
      (s e w k : Option Str)
      → set_option Key.skip_when k (state cs (header n s e w none) [])
        ≡ state cs (header n s e w k) []
  unfolding on_marker set_key
  set_skip_when s e w none = refl
  set_skip_when s e w (some v) = refl

-- the markers of a block open it, whatever was open before
parse_header :
    (b : Block) (rest : List Str) (p : Parse)
    → IsBlock b
    → parse_lines
        (marker Key.name b.name
          ∷ (option_marker Key.stages b.stages
              ++ (option_marker Key.expect b.expect
                  ++ (option_marker Key.what b.what
                      ++ (option_marker Key.skip_when b.skip_when ++ rest)))))
        p
      ≡ parse_lines rest (state p.checks (block_header b) [])
unfolding on_marker set_key
parse_header b rest p h =
    let cs : List Check = p.checks in
    let n : Str = b.name in
    let after_what : List Str = option_marker Key.skip_when b.skip_when ++ rest in
    let after_expect : List Str = option_marker Key.what b.what ++ after_what in
    let after_stages : List Str = option_marker Key.expect b.expect ++ after_expect in
    parse_marker Key.name n (option_marker Key.stages b.stages ++ after_stages) p h.name_ok
    ∙ parse_option Key.stages b.stages after_stages (state cs (header n none none none none) [])
        h.stages_ok
    ∙ ap (parse_lines after_stages) (set_stages cs n b.stages)
    ∙ parse_option Key.expect b.expect after_expect (state cs (header n b.stages none none none) [])
        h.expect_ok
    ∙ ap (parse_lines after_expect) (set_expect cs n b.stages b.expect)
    ∙ parse_option Key.what b.what after_what (state cs (header n b.stages b.expect none none) [])
        h.what_ok
    ∙ ap (parse_lines after_what) (set_what cs n b.stages b.expect b.what)
    ∙ parse_option Key.skip_when b.skip_when rest
        (state cs (header n b.stages b.expect b.what none) []) h.skip_when_ok
    ∙ ap (parse_lines rest) (set_skip_when cs n b.stages b.expect b.what b.skip_when)

parse_statement_line :
    (ends : Bool) (line : Str) (c : ℕ) (n : Str) (rest : List Str) (p : Parse)
    → p.header.name ≡ some (c ∷ n)
    → IsSqlLine ends line
    → parse_lines (line ∷ rest) p ≡ parse_lines rest (on_sql (c ∷ n) line p)
unfolding parse_lines
parse_statement_line ends line c n rest p named h = ap (parse_lines rest) (
    ap (λ l. parse_line l p) h.rstripped
    ∙ parse_sql_line line c n p (read_marker_sql line h.comment) named h.blank h.comment)

on_sql_more :
    (n line : Str) (p : Parse)
    → ends_statement line ≡ false
    → on_sql n line p ≡ record p { body = p.body ++ line ∷ [] }
unfolding on_sql
on_sql_more n line p e = rw e refl

on_sql_last :
    (n line : Str) (p : Parse)
    → ends_statement line ≡ true
    → on_sql n line p
      ≡ state (p.checks ++ check_of n p.header (p.body ++ line ∷ []) ∷ []) no_header []
unfolding on_sql
on_sql_last n line p e = rw e refl

-- the statement of a block closes it
parse_body :
    (cs : List Check) (h : Header) (c : ℕ) (n : Str) (done body : List Str) (last : Str)
    (rest : List Str)
    → h.name ≡ some (c ∷ n)
    → All (IsSqlLine false) body
    → IsSqlLine true last
    → parse_lines (body ++ last ∷ rest) (state cs h done)
      ≡ parse_lines rest
          (state (cs ++ check_of (c ∷ n) h (done ++ (body ++ last ∷ [])) ∷ []) no_header [])
parse_body cs h c n done [] last rest named ok last_ok =
    parse_statement_line true last c n rest (state cs h done) named last_ok
    ∙ ap (parse_lines rest) (on_sql_last (c ∷ n) last (state cs h done) last_ok.ended)
parse_body cs h c n done (l ∷ body) last rest named ok last_ok =
    parse_statement_line false l c n (body ++ last ∷ rest) (state cs h done) named ok.0
    ∙ ap (parse_lines (body ++ last ∷ rest)) (on_sql_more (c ∷ n) l (state cs h done) ok.0.ended)
    ∙ parse_body cs h c n (done ++ l ∷ []) body last rest named ok.1 last_ok
    ∙ ap (λ x. parse_lines rest (state (cs ++ check_of (c ∷ n) h x ∷ []) no_header []))
        (append_assoc done (l ∷ []) (body ++ last ∷ []))

parse_block :
    (b : Block) (rest : List Str) (p : Parse)
    → IsBlock b
    → parse_lines (print_block b rest) p
      ≡ parse_lines rest (state (p.checks ++ block_check b ∷ []) no_header [])
parse_block b rest p h =
    let (c, n, named) = h.name_ok.not_empty in
    parse_header b (b.body ++ b.last ∷ rest) p h
    ∙ parse_body p.checks (block_header b) c n [] b.body b.last rest (ap (λ x. some x) named)
        h.body_ok h.last_ok
    ∙ ap
        (λ x. parse_lines rest (
          state (p.checks ++ check_of x (block_header b) (b.body ++ b.last ∷ []) ∷ []) no_header
            []))
        (sym named)

parse_blocks :
    (bs : List Block) (p : Parse)
    → All IsBlock bs
    → (parse_lines (print_blocks bs) p).checks ≡ p.checks ++ map block_check bs
unfolding parse_lines
parse_blocks [] p h = sym (append-nil p.checks)
parse_blocks (b ∷ bs) p h =
    ap (λ x. x.checks) (parse_block b (print_blocks bs) p h.0)
    ∙ parse_blocks bs (state (p.checks ++ block_check b ∷ []) no_header []) h.1
    ∙ append_assoc p.checks (block_check b ∷ []) (map block_check bs)

-- Reading the printed blocks gives the check of each block, in their order; the values and the SQL
-- lines are such that the format can carry them.
pub parse_checks-print_blocks :
    (bs : List Block) → All IsBlock bs → parse_checks (print_blocks bs) ≡ map block_check bs
unfolding parse_checks
parse_checks-print_blocks bs h = parse_blocks bs (state [] no_header []) h
