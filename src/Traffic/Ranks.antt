-- ===== src/Traffic/Ranks.antt =====
-- scripts/traffic_gen.py: percentile, by the number of values below a limit.
use pruet_web_dev.Base.{
  ℕ, zero, suc, ◌+◌, ◌-◌, ◌*◌, ◌/◌, ◌≤◌, ◌<◌, ◌≡◌, ◌↔◌, refl, List, [], ◌∷◌, ltb, arith, All,
  length, count, if◌then◌else◌, Bool-cases, inl, inr,
}
use pruet_web_dev.Base.Sorting.{sort, insert_sorted}
use pruet_web_dev.Base.SortingLaws.{length-sort}
use pruet_web_dev.Base.Distinct.{All-map}
use pruet_web_dev.Traffic.{entry_at, smaller, percentile}

abbrev Ascending : List ℕ → Type 0
Ascending [] = Unit {0}
Ascending (x ∷ xs) = All (λ y. x ≤ y) xs × Ascending xs

insert-AtLeast :
    (m x : ℕ) (ys : List ℕ)
    → m ≤ x
    → All (λ y. m ≤ y) ys
    → All (λ y. m ≤ y) (insert_sorted ltb x ys)
unfolding insert_sorted
insert-AtLeast m x [] h hs = (h, tt)
insert-AtLeast m x (y ∷ ys) h hs =
    let rest = insert-AtLeast m x ys h hs.1 in
    elim (Bool-cases (ltb y x)) [ inl e ↦ rw e (hs.0, rest) | inr e ↦ rw e (h, hs) ]

insert-Ascending : (x : ℕ) (ys : List ℕ) → Ascending ys → Ascending (insert_sorted ltb x ys)
unfolding insert_sorted
insert-Ascending x [] h = (tt, tt)
insert-Ascending x (y ∷ ys) h =
    let rest = insert-Ascending x ys h.1 in
    elim (Bool-cases (ltb y x)) [
      | inl e ↦ rw e (insert-AtLeast y x ys (ground arith) h.0, rest)
      | inr e ↦
          let first : x ≤ y = ground arith in
          rw e ((first, All-map (λ z. y ≤ z) (λ z. x ≤ z) ys (λ z k. omega arith) h.0), h)
    ]

sort-Ascending : (xs : List ℕ) → Ascending (sort ltb xs)
unfolding sort
sort-Ascending [] = tt
sort-Ascending (x ∷ xs) = insert-Ascending x (sort ltb xs) (sort-Ascending xs)

module _ (limit : ℕ) where
  abbrev pub below : List ℕ → ℕ
  below xs = count (λ x. ltb x limit) xs

  below-insert_sorted :
      (x : ℕ) (ys : List ℕ)
      → below (insert_sorted ltb x ys) ≡ (if ltb x limit then 1 else 0) + below ys
  unfolding insert_sorted
  below-insert_sorted x [] = refl
  below-insert_sorted x (y ∷ ys) =
      let rest = below-insert_sorted x ys in
      elim (Bool-cases (ltb y x)) [ inl e ↦ rw e (omega arith) | inr e ↦ rw e refl ]

  below-sort : (xs : List ℕ) → below (sort ltb xs) ≡ below xs
  unfolding sort
  below-sort [] = refl
  below-sort (x ∷ xs) =
      let rest = below-sort xs in let here = below-insert_sorted x (sort ltb xs) in omega arith

  none_below : (xs : List ℕ) → All (λ y. limit ≤ y) xs → below xs ≡ 0
  none_below [] h = refl
  none_below (x ∷ xs) h = let rest = none_below xs h.1 in ground arith

  -- an entry of an ascending list is below the limit if that many entries are
  entry_below :
      (i : ℕ) (xs : List ℕ)
      → Ascending xs
      → i < length xs
      → (entry_at i xs < limit) ↔ (i < below xs)
  entry_below i [] h lt = absurd (omega arith)
  entry_below zero (x ∷ xs) h lt = elim (Bool-cases (ltb x limit)) [
    | inl e ↦ (λ k. ground arith, λ k. ground arith)
    | inr e ↦
        let rest =
          none_below xs (All-map (λ y. x ≤ y) (λ y. limit ≤ y) xs (λ y k. ground arith) h.0) in
        (λ k. ground arith, λ k. ground arith)
  ]
  entry_below (suc i) (x ∷ xs) h lt =
      let rest = entry_below i xs h.1 (omega arith) in
      elim (Bool-cases (ltb x limit)) [
        | inl e ↦ (λ k. let r = rest.0 k in ground arith, λ k. rest.1 (ground arith))
        | inr e ↦
            let few =
              none_below xs (All-map (λ y. x ≤ y) (λ y. limit ≤ y) xs (λ y k. ground arith) h.0) in
            (λ k. let r = rest.0 k in absurd (omega arith), λ k. absurd (ground arith))
      ]

-- The percentile of some values is below a limit if more than that share of them is.
pub percentile_below :
    (limit : ℕ) (xs : List ℕ)
    → 0 < limit
    → (percentile xs 99 < limit) ↔ (0 < length xs → length xs * 99 / 100 < below limit xs)
unfolding percentile
percentile_below limit [] some_limit = (λ k e. absurd (omega arith), λ k. some_limit)
percentile_below limit (x ∷ xs) some_limit =
    let n = length (sort ltb (x ∷ xs)) in
    let size : n ≡ suc (length xs) = length-sort ltb (x ∷ xs) in
    let index : smaller (n - 1) (n * 99 / 100) ≡ suc (length xs) * 99 / 100 =
      rw size (last (length xs)) in
    let inside : smaller (n - 1) (n * 99 / 100) < n = rw (index, size) (omega arith) in
    let rank =
      entry_below limit (smaller (n - 1) (n * 99 / 100)) (sort ltb (x ∷ xs))
        (sort-Ascending (x ∷ xs)) inside in
    let same = below-sort limit (x ∷ xs) in
    (λ k e. rw (← index, ← same) (rank.0 k), λ k. rank.1 (rw (index, same) (k (omega arith))))
  where
    last : (m : ℕ) → smaller (suc m - 1) (suc m * 99 / 100) ≡ suc m * 99 / 100
    last m = elim (Bool-cases (ltb (suc m - 1) (suc m * 99 / 100))) [
      | inl e ↦ absurd (ground arith)
      | inr e ↦ rw e refl
    ]
