-- ===== src/Base/SortingLaws.antt =====
-- Sorting keeps the elements: tests, counts and sums over a list do not see the order.
use pruet_web_dev.Base.Lists.{any, length, All, take, filter}
use pruet_web_dev.Base.Sorting.{insert_sorted, sort}
use Prim.Native.Nat.{ℕ, zero, suc}
use mathlib.Core.Bool.{Bool, true, false, ◌||◌}
use mathlib.Core.List.{List, [], ◌∷◌}
use mathlib.Core.Path.{◌≡◌, refl}
use mathlib.Core.Logic.{inl, inr}
use native.Mathlib.Omega.{arith}
use pruet_web_dev.Base.Tests.{Bool-cases}

module _ {ℓ} {A : Type ℓ} (lt : A → A → Bool) where
  any-insert_sorted :
      (p : A → Bool) (x : A) (ys : List A) → any p (insert_sorted lt x ys) ≡ (p x || any p ys)
  unfolding insert_sorted
  any-insert_sorted p x [] = refl
  any-insert_sorted p x (y ∷ ys) = ground (arith, any-insert_sorted p x ys)

  pub any-sort : (p : A → Bool) (xs : List A) → any p (sort lt xs) ≡ any p xs
  unfolding sort
  any-sort p [] = refl
  any-sort p (x ∷ xs) = ground (arith, any-insert_sorted p x (sort lt xs), any-sort p xs)

  length-insert_sorted : (x : A) (ys : List A) → length (insert_sorted lt x ys) ≡ suc (length ys)
  unfolding insert_sorted
  length-insert_sorted x [] = refl
  length-insert_sorted x (y ∷ ys) = ground (arith, length-insert_sorted x ys)

  pub length-sort : (xs : List A) → length (sort lt xs) ≡ length xs
  unfolding sort
  length-sort [] = refl
  length-sort (x ∷ xs) = ground (arith, length-insert_sorted x (sort lt xs), length-sort xs)

module _ {ℓ} {A : Type ℓ} where
  pub any-take : (p : A → Bool) (n : ℕ) (xs : List A) → any p (take n xs) ≡ true → any p xs ≡ true
  any-take p zero xs h = absurd (ground arith)
  any-take p (suc n) [] h = h
  any-take p (suc n) (x ∷ xs) h = ground (arith, any-take p n xs)

  pub any-filter : (p c : A → Bool) (xs : List A) → any p xs ≡ false → any p (filter c xs) ≡ false
  any-filter p c [] h = refl
  any-filter p c (x ∷ xs) h = ground (arith, any-filter p c xs)

pub All-map₂ {ℓ κ} :
    {A : Type ℓ} (P Q R : A → Type κ) (xs : List A)
    → ((x : A) → P x → Q x → R x)
    → All P xs
    → All Q xs
    → All R xs
All-map₂ P Q R [] f h k = tt
All-map₂ P Q R (x ∷ xs) f h k = (f x h.0 k.0, All-map₂ P Q R xs f h.1 k.1)

module _ {ℓ κ} {A : Type ℓ} (lt : A → A → Bool) (P : A → Type κ) where
  All-insert_sorted : (x : A) (ys : List A) → P x → All P ys → All P (insert_sorted lt x ys)
  unfolding insert_sorted
  All-insert_sorted x [] h hs = (h, tt)
  All-insert_sorted x (y ∷ ys) h hs = elim (Bool-cases (lt y x)) [
    | inl e ↦ rw e (hs.0, All-insert_sorted x ys h hs.1)
    | inr e ↦ rw e (h, hs)
  ]

  pub All-sort : (xs : List A) → All P xs → All P (sort lt xs)
  unfolding sort
  All-sort [] h = tt
  All-sort (x ∷ xs) h = All-insert_sorted x (sort lt xs) h.0 (All-sort xs h.1)
