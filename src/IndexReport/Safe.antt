-- ===== src/IndexReport/Safe.antt =====
-- scripts/index_report.py: what is left of the indexes when all that find_redundant reports are dropped.
use pruet_web_dev.Base.{
  ◌≡◌, refl, subst, sym, inl, inr, Bool, true, false, not, some, List, [], ◌∷◌, arith, any, filter,
  Bool-cases, if◌then◌else◌,
}
use pruet_web_dev.Base.Distinct.{Distinct}
use pruet_web_dev.Base.Membership.{In, In-filter, filter-In, Distinct-In, maximal}
use pruet_web_dev.Text.{Str, str_eq, str_eq_iff}
use pruet_web_dev.IndexReport.{
  IndexInfo, droppable_kind, covers, candidates, is_redundant, keeper_lt, greatest, keeper, Finding,
  group_findings,
}
use pruet_web_dev.IndexReport.Covering.{
  Covers, covers-Covers, Covers-covers, rank_lt, rank_lt_irrefl, rank_lt_trans, Covers-rank_lt,
  Covers-trans, Covers-asym,
}

abbrev pub same_index : IndexInfo → IndexInfo → Bool
same_index i j = str_eq i.idx j.idx

same_index_swap : (i j : IndexInfo) → same_index i j ≡ true → same_index j i ≡ true
same_index_swap i j e = (str_eq_iff j.idx i.idx).1 (sym ((str_eq_iff i.idx j.idx).0 e))

greatest_swap :
    (best b : IndexInfo) (bs : List IndexInfo)
    → keeper_lt best b ≡ true
    → greatest best (b ∷ bs) ≡ greatest b bs
unfolding greatest
greatest_swap best b bs e = rw e refl

greatest_keep :
    (best b : IndexInfo) (bs : List IndexInfo)
    → keeper_lt best b ≡ false
    → greatest best (b ∷ bs) ≡ greatest best bs
unfolding greatest
greatest_keep best b bs e = rw e refl

greatest-In : (best : IndexInfo) (bs : List IndexInfo) → In (greatest best bs) (best ∷ bs)
greatest-In best [] = unfold greatest in inl refl
greatest-In best (b ∷ bs) = elim (Bool-cases (keeper_lt best b)) [
  | inl e ↦
      subst (λ x. In x (best ∷ b ∷ bs)) (sym (greatest_swap best b bs e)) (inr (greatest-In b bs))
  | inr e ↦
      subst (λ x. In x (best ∷ b ∷ bs)) (sym (greatest_keep best b bs e))
        (skip (greatest-In best bs))
]
  where
    skip : {x : IndexInfo} → In x (best ∷ bs) → In x (best ∷ b ∷ bs)
    skip (inl s) = inl s
    skip (inr i) = inr (inr i)

candidate-Covers :
    (group : List IndexInfo) (a b : IndexInfo) → In b (candidates group a) → In b group × Covers a b
unfolding candidates
candidate-Covers group a b h = elim (Bool-cases (droppable_kind a)) [
  | inl e ↦
      let (i, c) =
        In-filter (covers a) b group
          (subst (λ x. In b (if x then filter (covers a) group else [])) e h) in
      (i, covers-Covers a b c)
  | inr e ↦ absurd (subst (λ x. In b (if x then filter (covers a) group else [])) e h)
]

-- a redundant index is droppable, and has a candidate
redundant_parts :
    (group : List IndexInfo) (a : IndexInfo)
    → is_redundant group a ≡ true
    → (droppable_kind a ≡ true)
      × ((b : IndexInfo) × (bs : List IndexInfo) × (candidates group a ≡ b ∷ bs))
redundant_parts group a h = (is_droppable, by_candidates (candidates group a) refl)
  where
    is_droppable : droppable_kind a ≡ true
    is_droppable = unfold is_redundant candidates in ground arith

    by_candidates :
        (cs : List IndexInfo)
        → candidates group a ≡ cs
        → (b : IndexInfo) × (bs : List IndexInfo) × (candidates group a ≡ b ∷ bs)
    by_candidates [] e = absurd (unfold is_redundant in ground arith)
    by_candidates (b ∷ bs) e = (b, bs, e)

module _ (group : List IndexInfo) (names : Distinct same_index group) where
  -- a candidate that covers a candidate is a candidate
  candidate_of_candidate :
      (a b c : IndexInfo)
      → In a group
      → droppable_kind a ≡ true
      → In b (candidates group a)
      → droppable_kind b ≡ true
      → In c (candidates group b)
      → In c (candidates group a)
  candidate_of_candidate a b c i da hb db hc =
      let (ib, ab) = candidate-Covers group a b hb in
      let (ic, bc) = candidate-Covers group b c hc in
      unfold candidates in
      rw da (
        filter-In (covers a) c group ic
          (Covers-covers a c (Covers-trans a b c (others ic ab bc) db ab bc)))
    where
      others : In c group → Covers a b → Covers b c → str_eq a.idx c.idx ≡ false
      others ic ab bc = elim (Bool-cases (str_eq a.idx c.idx)) [
        | inr e ↦ e
        | inl e ↦
            let same : a ≡ c = Distinct-In same_index same_index_swap group a c names i ic e in
            absurd (Covers-asym a b da db ab (subst (Covers b) (sym same) bc))
      ]

  best_candidate :
      (a m : IndexInfo)
      → In a group
      → droppable_kind a ≡ true
      → In m (candidates group a)
      → ((y : IndexInfo) → In y (candidates group a) → rank_lt m y ≡ false)
      → is_redundant group m ≡ false
  best_candidate a m i da hm top = elim (Bool-cases (is_redundant group m)) [
    | inr e ↦ e
    | inl e ↦
        let (dm, (c, cs, ec)) = redundant_parts group m e in
        let hc : In c (candidates group m) = rw ec (inl refl) in
        let worse = top c (candidate_of_candidate a m c i da hm dm hc) in
        let better = Covers-rank_lt m c dm (candidate-Covers group m c hc).1 in
        absurd (ground arith)
  ]

  keepers : IndexInfo → List IndexInfo
  keepers a = filter (λ b. not (is_redundant group b)) (candidates group a)

  keeper-some :
      (a k : IndexInfo) (ks : List IndexInfo)
      → keepers a ≡ k ∷ ks
      → keeper group a ≡ some (greatest k ks)
  unfolding keeper keepers
  keeper-some a k ks e = rw e refl

  best_keeper :
      (a : IndexInfo)
      → In a group
      → is_redundant group a ≡ true
      → (m : IndexInfo) × In m (keepers a)
  best_keeper a i h =
      let (da, (b, bs, ec)) = redundant_parts group a h in
      let (m, im, top) = maximal rank_lt rank_lt_irrefl rank_lt_trans b bs in
      let hm : In m (candidates group a) = rw ec im in
      let kept =
        best_candidate a m i da hm
          (λ y iy. top y (subst (λ (cs : List IndexInfo). In y cs) ec iy)) in
      (
        m,
        unfold keepers in
            filter-In (λ b. not (is_redundant group b)) m (candidates group a) hm (rw kept refl),
      )

  -- the index that is reported with a redundant one covers it, and is not redundant
  pub keeper-Covers :
      (a : IndexInfo)
      → In a group
      → is_redundant group a ≡ true
      → (k : IndexInfo) × (keeper group a ≡ some k)
        × In k group
        × Covers a k
        × (is_redundant group k ≡ false)
  keeper-Covers a i h = by_keepers (keepers a) refl (best_keeper a i h).1
    where
      by_keepers :
          (ks : List IndexInfo)
          → keepers a ≡ ks
          → In (best_keeper a i h).0 (keepers a)
          → (k : IndexInfo) × (keeper group a ≡ some k)
            × In k group
            × Covers a k
            × (is_redundant group k ≡ false)
      by_keepers [] e j = absurd (subst (λ (ks : List IndexInfo). In (best_keeper a i h).0 ks) e j)
      by_keepers (k ∷ ks) e j =
          let found : In (greatest k ks) (keepers a) = rw e (greatest-In k ks) in
          let (c, kept) =
            In-filter (λ b. not (is_redundant group b)) (greatest k ks) (candidates group a)
              (unfold keepers in found) in
          let (ig, cov) = candidate-Covers group a (greatest k ks) c in
          (greatest k ks, keeper-some a k ks e, ig, cov, ground arith)

  -- a finding names an index of the table and one that covers it and is not reported itself
  pub record IsKept (t : Str) (f : Finding) : Type 0 where
    pub dropped : IndexInfo
    pub kept : IndexInfo
    pub is_dropped : f.index ≡ dropped.idx
    pub is_kept : f.covered_by ≡ some kept.idx
    pub dropped_In : In dropped group
    pub kept_In : In kept group
    pub covering : Covers dropped kept
    pub unreported : any (λ g. str_eq g.index kept.idx) (group_findings t group group) ≡ false
