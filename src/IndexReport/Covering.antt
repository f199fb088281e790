-- ===== src/IndexReport/Covering.antt =====
-- scripts/index_report.py: the test of the inner loop of find_redundant, as a relation.
use pruet_web_dev.Base.{
  ℕ, zero, suc, ◌≤◌, ◌≡◌, refl, sym, ◌∙◌, Bool, true, false, not, ◌&&◌, ◌||◌, Option, none, some,
  List, [], ◌∷◌, ◌==◌, ltb, arith, length, take,
}
use pruet_web_dev.Text.{Str, str_eq, str_eq_iff, str_lt}
use pruet_web_dev.Text.Order.{str_lt_irrefl, str_lt_trans, str_lt_total}
use pruet_web_dev.IndexReport.{
  IndexInfo, is_btree, droppable_kind, strs_eq, nums_eq, same_predicate, same_signature, covers,
}

str_eq_trans : (s t u : Str) → str_eq s t ≡ true → str_eq t u ≡ true → str_eq s u ≡ true
str_eq_trans s t u h k = (str_eq_iff s u).1 ((str_eq_iff s t).0 h ∙ (str_eq_iff t u).0 k)

strs_eq_prefix :
    (n m : ℕ) (x y z : List Str)
    → n ≤ m
    → strs_eq (take n x) (take n y) ≡ true
    → strs_eq (take m y) (take m z) ≡ true
    → strs_eq (take n x) (take n z) ≡ true
unfolding strs_eq
strs_eq_prefix zero m x y z le h k = refl
strs_eq_prefix (suc n) zero x y z le h k = absurd (omega arith)
strs_eq_prefix (suc n) (suc m) [] [] [] le h k = refl
strs_eq_prefix (suc n) (suc m) [] [] (c ∷ z) le h k = k
strs_eq_prefix (suc n) (suc m) [] (b ∷ y) z le h k = absurd (ground arith)
strs_eq_prefix (suc n) (suc m) (a ∷ x) [] z le h k = absurd (ground arith)
strs_eq_prefix (suc n) (suc m) (a ∷ x) (b ∷ y) [] le h k = absurd (ground arith)
strs_eq_prefix (suc n) (suc m) (a ∷ x) (b ∷ y) (c ∷ z) le h k =
    ground (arith, str_eq_trans a b c, strs_eq_prefix n m x y z)

nums_eq_prefix :
    (n m : ℕ) (x y z : List ℕ)
    → n ≤ m
    → nums_eq (take n x) (take n y) ≡ true
    → nums_eq (take m y) (take m z) ≡ true
    → nums_eq (take n x) (take n z) ≡ true
unfolding nums_eq
nums_eq_prefix zero m x y z le h k = refl
nums_eq_prefix (suc n) zero x y z le h k = absurd (omega arith)
nums_eq_prefix (suc n) (suc m) [] [] [] le h k = refl
nums_eq_prefix (suc n) (suc m) [] [] (c ∷ z) le h k = k
nums_eq_prefix (suc n) (suc m) [] (b ∷ y) z le h k = absurd (ground arith)
nums_eq_prefix (suc n) (suc m) (a ∷ x) [] z le h k = absurd (ground arith)
nums_eq_prefix (suc n) (suc m) (a ∷ x) (b ∷ y) [] le h k = absurd (ground arith)
nums_eq_prefix (suc n) (suc m) (a ∷ x) (b ∷ y) (c ∷ z) le h k =
    ground (arith, nums_eq_prefix n m x y z)

same_predicate_trans :
    (p q r : Option Str)
    → same_predicate p q ≡ true
    → same_predicate q r ≡ true
    → same_predicate p r ≡ true
same_predicate_trans none none none h k = refl
same_predicate_trans none none (some r) h k = k
same_predicate_trans none (some q) r h k = absurd (ground arith)
same_predicate_trans (some p) none r h k = absurd (ground arith)
same_predicate_trans (some p) (some q) none h k = absurd (ground arith)
same_predicate_trans (some p) (some q) (some r) h k = str_eq_trans p q r h k

same_signature_trans :
    (n m : ℕ) (a b c : IndexInfo)
    → n ≤ m
    → same_signature n a b ≡ true
    → same_signature m b c ≡ true
    → same_signature n a c ≡ true
unfolding same_signature
same_signature_trans n m a b c le h k = ground (
  arith,
  strs_eq_prefix n m a.keys b.keys c.keys,
  nums_eq_prefix n m a.options b.options c.options,
  strs_eq_prefix n m a.opclasses b.opclasses c.opclasses,
  strs_eq_prefix n m a.collations b.collations c.collations,
  same_predicate_trans a.predicate b.predicate c.predicate,
)

-- what the loop has found out about `a` and `b`
pub record Covers (a b : IndexInfo) : Type 0 where
  pub other_name : str_eq a.idx b.idx ≡ false
  pub btree : is_btree b ≡ true
  pub valid : b.is_valid ≡ true
  pub plain : b.has_expression ≡ false
  pub longer : length a.keys ≤ length b.keys
  pub same_start : same_signature (length a.keys) a b ≡ true
  pub tie : length b.keys ≡ length a.keys → droppable_kind b ≡ true → str_lt a.idx b.idx ≡ false

pub covers-Covers : (a b : IndexInfo) → covers a b ≡ true → Covers a b
unfolding covers
covers-Covers a b h = record {
  other_name = ground arith;
  btree = ground arith;
  valid = ground arith;
  plain = ground arith;
  longer = ground arith;
  same_start = ground arith;
  tie = λ e d. ground arith;
}

pub Covers-covers : (a b : IndexInfo) → Covers a b → covers a b ≡ true
unfolding covers
Covers-covers a b c = ground (arith, c.tie)

-- among the indexes that cover another, the better ones: longer, or not droppable, or of a smaller name
unfoldable pub rank_lt : IndexInfo → IndexInfo → Bool
rank_lt b c =
    ltb (length b.keys) (length c.keys)
    || (length b.keys == length c.keys)
      && ((droppable_kind b && not (droppable_kind c))
          || ((droppable_kind b && droppable_kind c
                || not (droppable_kind b) && not (droppable_kind c))
              && str_lt c.idx b.idx))

pub rank_lt_irrefl : (b : IndexInfo) → rank_lt b b ≡ false
unfolding rank_lt
rank_lt_irrefl b = ground (arith, str_lt_irrefl b.idx)

pub rank_lt_trans :
    (b c d : IndexInfo) → rank_lt b c ≡ true → rank_lt c d ≡ true → rank_lt b d ≡ true
unfolding rank_lt
rank_lt_trans b c d h k = ground (arith, str_lt_trans d.idx c.idx b.idx)

-- what covers a droppable index is better than it
pub Covers-rank_lt : (b c : IndexInfo) → droppable_kind b ≡ true → Covers b c → rank_lt b c ≡ true
unfolding rank_lt
Covers-rank_lt b c d k = ground (arith, k.tie, k.other_name, str_lt_total b.idx c.idx)

name_order :
    (a b c : IndexInfo)
    → str_eq a.idx b.idx ≡ false
    → str_eq b.idx c.idx ≡ false
    → str_lt a.idx b.idx ≡ false
    → str_lt b.idx c.idx ≡ false
    → str_lt a.idx c.idx ≡ false
name_order a b c ab bc h k = ground (
  arith,
  str_lt_total a.idx b.idx,
  str_lt_total b.idx c.idx,
  str_lt_trans c.idx b.idx a.idx,
  str_lt_trans a.idx c.idx a.idx,
  str_lt_irrefl a.idx,
)

pub Covers-trans :
    (a b c : IndexInfo)
    → str_eq a.idx c.idx ≡ false
    → droppable_kind b ≡ true
    → Covers a b
    → Covers b c
    → Covers a c
Covers-trans a b c ne d h k = record {
  other_name = ne;
  btree = k.btree;
  valid = k.valid;
  plain = k.plain;
  longer = omega (arith, h.longer, k.longer);
  same_start =
      same_signature_trans (length a.keys) (length b.keys) a b c h.longer h.same_start k.same_start;
  tie = λ e dc.
      let same_b : length b.keys ≡ length a.keys = omega (arith, h.longer, k.longer) in
      let same_c : length c.keys ≡ length b.keys = omega (arith, same_b) in
      name_order a b c h.other_name k.other_name (h.tie same_b d) (k.tie same_c dc);
}

pub Covers-asym :
    (a b : IndexInfo)
    → droppable_kind a ≡ true
    → droppable_kind b ≡ true
    → Covers a b
    → Covers b a
    → ⊥
Covers-asym a b da db h k =
    let same : length b.keys ≡ length a.keys = omega (arith, h.longer, k.longer) in
    ground (arith, h.other_name, h.tie same db, k.tie (sym same) da, str_lt_total a.idx b.idx)
