-- ===== src/IndexReport.antt =====
-- scripts/index_report.py: which indexes of a schema repeat another, are never used, or are missing
-- under a foreign key. The rows come from the catalog of PostgreSQL; index names are unique in a
-- schema, so the name stands for the object.
pub mod Covering
pub mod Safe
use pruet_web_dev.Base.{
  ℕ, zero, suc, ◌+◌, ◌%◌, Bool, true, false, not, ◌&&◌, ◌||◌, Option, none, some, List, [], ◌∷◌,
  ◌++◌, map, ◌==◌, ltb, leb, length, take, filter, any, find?, is_some, if◌then◌else◌,
}
use pruet_web_dev.Base.Sorting.{sort}
use pruet_web_dev.Text.{Str, text, str_eq, str_lt}

pub record IndexInfo : Type 0 where
  pub tbl : Str
  pub idx : Str
  pub method : Str
  pub is_unique : Bool
  pub is_primary : Bool
  pub is_valid : Bool
  pub has_expression : Bool
  pub backs_constraint : Bool
  pub predicate : Option Str
  pub keys : List Str
  pub options : List ℕ
  pub opclasses : List Str
  pub collations : List Str
  pub size_bytes : ℕ
  pub scans : ℕ
  pub table_rows : ℕ

abbrev pub is_btree : IndexInfo → Bool
is_btree i = str_eq i.method (text "btree")

-- `droppable_kind`
unfoldable pub droppable_kind : IndexInfo → Bool
droppable_kind i =
    is_btree i
    && (i.is_valid
        && (not i.is_unique
            && (not i.is_primary && (not i.backs_constraint && not i.has_expression))))

abbrev column_text : Str → ℕ → Str
column_text k o = if o % 2 == 1 then k ++ text " DESC" else k

-- `columns_text`
unfoldable pub columns_text : List Str → List ℕ → Str
columns_text (k ∷ []) (o ∷ os) = column_text k o
columns_text (k ∷ j ∷ ks) (o ∷ []) = column_text k o
columns_text (k ∷ j ∷ ks) (o ∷ p ∷ os) =
    column_text k o ++ (text ", " ++ columns_text (j ∷ ks) (p ∷ os))
columns_text _ _ = []

unfoldable pub strs_eq : List Str → List Str → Bool
strs_eq [] [] = true
strs_eq (s ∷ ss) (t ∷ ts) = str_eq s t && strs_eq ss ts
strs_eq _ _ = false

unfoldable pub nums_eq : List ℕ → List ℕ → Bool
nums_eq [] [] = true
nums_eq (m ∷ ms) (n ∷ ns) = (m == n) && nums_eq ms ns
nums_eq _ _ = false

abbrev pub same_predicate : Option Str → Option Str → Bool
same_predicate none none = true
same_predicate (some s) (some t) = str_eq s t
same_predicate _ _ = false

-- `a.signature() == b.signature(n)`, with n the number of `a`'s columns
unfoldable pub same_signature : ℕ → IndexInfo → IndexInfo → Bool
unfolding strs_eq nums_eq
same_signature n a b =
    strs_eq (take n a.keys) (take n b.keys)
    && (nums_eq (take n a.options) (take n b.options)
        && (strs_eq (take n a.opclasses) (take n b.opclasses)
            && (strs_eq (take n a.collations) (take n b.collations)
                && same_predicate a.predicate b.predicate)))

-- the conditions of the inner loop of `find_redundant`: `b` makes `a` redundant
unfoldable pub covers : IndexInfo → IndexInfo → Bool
covers a b =
    not (str_eq a.idx b.idx)
    && (is_btree b
        && (b.is_valid
            && (not b.has_expression
                && (leb (length a.keys) (length b.keys)
                    && (same_signature (length a.keys) a b
                        && not (
                            (length b.keys == length a.keys)
                            && (droppable_kind b && str_lt a.idx b.idx)))))))

-- `candidates[a.idx]`
unfoldable pub candidates : List IndexInfo → IndexInfo → List IndexInfo
candidates group a = if droppable_kind a then filter (covers a) group else []

abbrev pub is_empty : List IndexInfo → Bool
is_empty [] = true
is_empty (i ∷ is) = false

-- `a.idx in candidates`
unfoldable pub is_redundant : List IndexInfo → IndexInfo → Bool
is_redundant group a = not (is_empty (candidates group a))

-- `<` on `(len(b.keys), b.is_unique, b.idx)`
unfoldable pub keeper_lt : IndexInfo → IndexInfo → Bool
keeper_lt a b =
    ltb (length a.keys) (length b.keys)
    || (length a.keys == length b.keys)
      && ((not a.is_unique && b.is_unique)
          || ((a.is_unique && b.is_unique || not a.is_unique && not b.is_unique)
              && str_lt a.idx b.idx))

-- Python's `max` with a key: the first of the greatest
unfoldable pub greatest : IndexInfo → List IndexInfo → IndexInfo
unfolding keeper_lt
greatest best [] = best
greatest best (b ∷ bs) = greatest (if keeper_lt best b then b else best) bs

abbrev pub max_keeper : List IndexInfo → Option IndexInfo
max_keeper [] = none
max_keeper (b ∷ bs) = some (greatest b bs)

-- `keepers or candidates[a.idx]`
abbrev pub or_candidates : List IndexInfo → List IndexInfo → List IndexInfo
or_candidates [] others = others
or_candidates (b ∷ bs) others = b ∷ bs

unfoldable pub keeper : List IndexInfo → IndexInfo → Option IndexInfo
keeper group a = max_keeper (
    or_candidates (filter (λ b. not (is_redundant group b)) (candidates group a))
      (candidates group a))

-- the `detail` of a finding
pub data Detail : Type 0 where
  duplicate_of : Str → Detail
  leading_part : Str → Str → Str → Detail
  no_scans : ℕ → Detail
  no_index : List Str → Detail

pub record Finding : Type 0 where
  pub table : Str
  pub index : Str
  pub detail : Detail
  pub covered_by : Option Str
  pub size_bytes : ℕ
  pub scans : ℕ

unfoldable pub redundant_finding : Str → IndexInfo → IndexInfo → Finding
unfolding columns_text
redundant_finding table a k = record {
  table = table;
  index = a.idx;
  detail =
      if length k.keys == length a.keys
      then duplicate_of k.idx
      else leading_part (columns_text a.keys a.options) k.idx (columns_text k.keys k.options);
  covered_by = some k.idx;
  size_bytes = a.size_bytes;
  scans = a.scans;
}

-- the second loop over a table's indexes
unfoldable pub group_findings : Str → List IndexInfo → List IndexInfo → List Finding
group_findings table group [] = []
group_findings table group (a ∷ others) =
    let rest = group_findings table group others in
    elim (keeper group a) [ none ↦ rest | some k ↦ redundant_finding table a k ∷ rest ]

-- `by_table.setdefault(index.tbl, []).append(index)`
unfoldable pub add_index : IndexInfo → List (Str × List IndexInfo) → List (Str × List IndexInfo)
add_index i [] = (i.tbl, i ∷ []) ∷ []
add_index i ((t, is) ∷ gs) =
    if str_eq t i.tbl then (t, is ++ i ∷ []) ∷ gs else (t, is) ∷ add_index i gs

unfoldable pub by_table : List IndexInfo → List (Str × List IndexInfo) → List (Str × List IndexInfo)
unfolding add_index
by_table [] gs = gs
by_table (i ∷ is) gs = by_table is (add_index i gs)

unfoldable pub finding_lt : Finding → Finding → Bool
finding_lt f g = str_lt f.table g.table || str_eq f.table g.table && str_lt f.index g.index

unfoldable pub all_findings : List (Str × List IndexInfo) → List Finding
unfolding group_findings
all_findings [] = []
all_findings ((t, group) ∷ gs) = group_findings t group group ++ all_findings gs

-- `find_redundant`
unfoldable pub find_redundant : List IndexInfo → List Finding
unfolding by_table all_findings finding_lt
find_redundant indexes = sort finding_lt (all_findings (by_table indexes []))

-- `find_unused`
unfoldable pub find_unused : ℕ → List IndexInfo → List Finding
unfolding finding_lt droppable_kind
find_unused min_rows indexes = sort finding_lt (
    map
      (λ i. record {
        table = i.tbl;
        index = i.idx;
        detail = no_scans i.table_rows;
        covered_by = none;
        size_bytes = i.size_bytes;
        scans = 0;
      })
      (filter (λ i. (i.scans == 0) && (droppable_kind i && leb min_rows i.table_rows)) indexes))

-- a row of FOREIGN_KEY_SQL
pub record ForeignKey : Type 0 where
  pub tbl : Str
  pub fk : Str
  pub columns : List Str

-- an index that a lookup by the columns of a foreign key can use
unfoldable pub serves : ForeignKey → IndexInfo → Bool
unfolding strs_eq
serves k i =
    str_eq i.tbl k.tbl
    && (i.is_valid
        && (not i.has_expression
            && (not (is_some i.predicate) && strs_eq (take (length k.columns) i.keys) k.columns)))

-- `find_unindexed_foreign_keys`
unfoldable pub find_unindexed : List ForeignKey → List IndexInfo → List Finding
unfolding serves
find_unindexed [] indexes = []
find_unindexed (k ∷ ks) indexes =
    let rest = find_unindexed ks indexes in
    if any (serves k) indexes
    then rest
    else record {
      table = k.tbl;
      index = k.fk;
      detail = no_index k.columns;
      covered_by = none;
      size_bytes = 0;
      scans = 0;
    }
      ∷ rest

pub record Report : Type 0 where
  pub indexes : List IndexInfo
  pub redundant : List Finding
  pub unused : List Finding
  pub unindexed : List Finding

-- `build_report`
unfoldable pub build_report : ℕ → List ForeignKey → List IndexInfo → Report
unfolding find_redundant find_unused find_unindexed
build_report min_rows keys indexes = record {
  indexes = indexes;
  redundant = find_redundant indexes;
  unused = find_unused min_rows indexes;
  unindexed = find_unindexed keys indexes;
}

abbrev pub no_findings : List Finding → Bool
no_findings [] = true
no_findings (f ∷ fs) = false

-- `Report.ok`, and the exit status of `main`
unfoldable pub report_ok : Report → Bool
report_ok r = no_findings r.redundant && no_findings r.unindexed

unfoldable pub exit_status : Report → ℕ
unfolding report_ok
exit_status r = if report_ok r then 0 else 1
