-- ===== src/Tests/Indexes.antt =====
-- Three indexes of one table, of which two are prefixes of the third.
use pruet_web_dev.Base.{ℕ, ◌≡◌, refl, true, false, none, List, [], ◌∷◌}
use pruet_web_dev.Text.{Str, text, str_eq, str_lt}
use pruet_web_dev.IndexReport.{
  IndexInfo, group_findings, keeper, candidates, covers, same_signature, droppable_kind,
  is_redundant, greatest, keeper_lt, strs_eq, nums_eq, redundant_finding,
}
use pruet_web_dev.Base.Distinct.{Distinct}

abbrev index_on : Str → List Str → List ℕ → IndexInfo
index_on name keys options = record {
  tbl = text "orders";
  idx = name;
  method = text "btree";
  is_unique = false;
  is_primary = false;
  is_valid = true;
  has_expression = false;
  backs_constraint = false;
  predicate = none;
  keys = keys;
  options = options;
  opclasses = [];
  collations = [];
  size_bytes = 8192;
  scans = 0;
  table_rows = 20000;
}

abbrev by_user : IndexInfo
by_user = index_on (text "a") (text "user_id" ∷ []) (0 ∷ [])

abbrev by_user_again : IndexInfo
by_user_again = index_on (text "b") (text "user_id" ∷ []) (0 ∷ [])

abbrev by_user_status : IndexInfo
by_user_status = index_on (text "c") (text "user_id" ∷ text "status" ∷ []) (0 ∷ 0 ∷ [])

abbrev indexes : List IndexInfo
indexes = by_user ∷ by_user_again ∷ by_user_status ∷ []

both_reported :
    group_findings (text "orders") indexes indexes
    ≡ redundant_finding (text "orders") by_user by_user_status
      ∷ redundant_finding (text "orders") by_user_again by_user_status
      ∷ []
unfolding group_findings keeper candidates covers same_signature droppable_kind is_redundant
    greatest keeper_lt strs_eq nums_eq str_eq str_lt redundant_finding
both_reported = refl
