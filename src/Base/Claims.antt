-- ===== src/Base/Claims.antt =====
-- A job claims the first rows, in some order, of those that pass a test; the rows are told apart by
-- their ids.
use Prim.Native.Nat.{ℕ, zero, suc, ◌<◌}
use mathlib.Core.Path.{◌≡◌, refl, sym, ◌∙◌}
use mathlib.Core.Bool.{Bool, true, false}
use mathlib.Core.List.{List, [], ◌∷◌}
use native.Mathlib.Omega.{arith}
use pruet_web_dev.Base.Tests.{◌==◌}
use pruet_web_dev.Base.Lists.{All, any, filter, take, length}
use pruet_web_dev.Base.Sorting.{sort}
use pruet_web_dev.Base.SortingLaws.{any-sort, any-take, any-filter, All-map₂}
use pruet_web_dev.Base.Distinct.{All-map, Distinct}

module _ {ℓ} {A : Type ℓ} where
  take_all : (n : ℕ) (xs : List A) → length (take n xs) < n → take n xs ≡ xs
  take_all zero xs h = absurd (omega arith)
  take_all (suc n) [] h = refl
  take_all (suc n) (x ∷ xs) h = ground (arith, take_all n xs)

module _ {ℓ} {A : Type ℓ} (id : A → ℕ) (p : A → Bool) where
  abbrev pub has_id : List A → ℕ → Bool
  has_id xs k = any (λ x. id x == k) xs

  -- every row that passes is among those that the filter keeps
  kept : (xs : List A) → All (λ x. p x ≡ true → has_id (filter p xs) (id x) ≡ true) xs
  kept [] = tt
  kept (x ∷ xs) = (
    (λ e. ground arith),
    All-map (λ y. p y ≡ true → has_id (filter p xs) (id y) ≡ true)
        (λ y. p y ≡ true → has_id (filter p (x ∷ xs)) (id y) ≡ true) xs
        (λ y f e. ground (arith, f e)) (kept xs),
  )

  -- a claim that is not full is of every row that passes
  pub claims_everything :
      (lt : A → A → Bool) (n : ℕ) (xs : List A)
      → length (take n (sort lt (filter p xs))) < n
      → All (λ x. p x ≡ true → has_id (take n (sort lt (filter p xs))) (id x) ≡ true) xs
  claims_everything lt n xs h =
      All-map (λ x. p x ≡ true → has_id (filter p xs) (id x) ≡ true)
        (λ x. p x ≡ true → has_id (take n (sort lt (filter p xs))) (id x) ≡ true) xs
        (λ x f e.
          rw (take_all n (sort lt (filter p xs)) h)
            (any-sort lt (λ q. id q == id x) (filter p xs) ∙ f e))
        (kept xs)

  -- the ids behind the first differ from it
  other_ids : (k : ℕ) (xs : List A) → has_id xs k ≡ false → All (λ x. (k == id x) ≡ false) xs
  other_ids k [] h = tt
  other_ids k (x ∷ xs) h = (ground arith, other_ids k xs (ground arith))

  -- a row whose id is among the filtered ones passes the filter itself
  filtered_passes :
      (xs : List A)
      → Distinct (λ x y. id x == id y) xs
      → All (λ x. has_id (filter p xs) (id x) ≡ true → p x ≡ true) xs
  filtered_passes [] d = tt
  filtered_passes (x ∷ xs) d = (
    (λ h. ground (arith, any-filter (λ y. id y == id x) p xs d.0)),
    All-map₂ (λ y. (id x == id y) ≡ false) (λ y. has_id (filter p xs) (id y) ≡ true → p y ≡ true)
        (λ y. has_id (filter p (x ∷ xs)) (id y) ≡ true → p y ≡ true) xs
        (λ y ne ih h. ih (ground arith)) (other_ids (id x) xs d.0) (filtered_passes xs d.1),
  )

  -- a claim is of rows that pass only, if the ids are distinct
  pub claims_only :
      (lt : A → A → Bool) (n : ℕ) (xs : List A)
      → Distinct (λ x y. id x == id y) xs
      → All (λ x. has_id (take n (sort lt (filter p xs))) (id x) ≡ true → p x ≡ true) xs
  claims_only lt n xs d =
      All-map (λ x. has_id (filter p xs) (id x) ≡ true → p x ≡ true)
        (λ x. has_id (take n (sort lt (filter p xs))) (id x) ≡ true → p x ≡ true) xs
        (λ x f e. f (
          sym (any-sort lt (λ q. id q == id x) (filter p xs))
          ∙ any-take (λ q. id q == id x) n (sort lt (filter p xs)) e))
        (filtered_passes xs d)
