-- ===== src/Base/Distinct.antt =====
-- Lists without two elements of one key, and what a search for a key finds in them.
use mathlib.Core.Path.{◌≡◌, refl, subst}
use mathlib.Core.Bool.{Bool, true, false}
use mathlib.Core.List.{List, [], ◌∷◌, ◌++◌}
use mathlib.Core.Option.{some}
use native.Mathlib.Omega.{arith}
use mathlib.Core.Logic.{inl, inr}
use pruet_web_dev.Base.Tests.{Bool-cases}
use pruet_web_dev.Base.Lists.{find?, any, All}

pub All-map {ℓ κ} :
    {A : Type ℓ} (P Q : A → Type κ) (xs : List A) → ((x : A) → P x → Q x) → All P xs → All Q xs
All-map P Q [] f h = tt
All-map P Q (x ∷ xs) f h = (f x h.0, All-map P Q xs f h.1)

pub All-const {ℓ κ} : {A : Type ℓ} (P : A → Type κ) (xs : List A) → ((x : A) → P x) → All P xs
All-const P [] f = tt
All-const P (x ∷ xs) f = (f x, All-const P xs f)

module _ {ℓ} {A : Type ℓ} (same : A → A → Bool) where
  abbrev pub Distinct : List A → Type 0
  Distinct [] = Unit {0}
  Distinct (x ∷ xs) = (any (λ y. same y x) xs ≡ false) × Distinct xs

  any_of_found :
      (p q : A → Bool) (xs : List A) (m : A) → find? p xs ≡ some m → q m ≡ true → any q xs ≡ true
  any_of_found p q [] m h e = cc
  any_of_found p q (x ∷ xs) m h e = ground (arith, any_of_found p q xs m)

  none_same :
      (x : A) (ys : List A) → any (λ y. same y x) ys ≡ false → All (λ y. same y x ≡ true → y ≡ x) ys
  none_same x [] h = tt
  none_same x (y ∷ ys) h = ((λ e. absurd (ground arith)), none_same x ys (ground arith))

  -- the element that a search finds is the only one of its key
  pub found_alone :
      (swap : (x y : A) → same x y ≡ true → same y x ≡ true) (p : A → Bool) (xs : List A) (m : A)
      → Distinct xs
      → find? p xs ≡ some m
      → All (λ x. same x m ≡ true → x ≡ m) xs
  found_alone swap p [] m d h = tt
  found_alone swap p (x ∷ xs) m d h = elim (Bool-cases (p x)) [
    | inl e ↦
        let first : x ≡ m = ground arith in
        (
          (λ _. first),
          subst (λ (a : A). All (λ y. same y a ≡ true → y ≡ a) xs) first (none_same x xs d.0),
        )
    | inr e ↦
        let rest : find? p xs ≡ some m = ground arith in
        (
          (λ s. absurd (ground (arith, any_of_found p (λ y. same y x) xs m rest (swap x m s)))),
          found_alone swap p xs m d.1 rest,
        )
  ]

  -- an element whose key is new
  pub append-Distinct :
      (xs : List A) (x : A) → Distinct xs → any (λ y. same x y) xs ≡ false → Distinct (xs ++ x ∷ [])
  append-Distinct [] x d h = (refl, tt)
  append-Distinct (y ∷ xs) x d h = (behind xs d.0, append-Distinct xs x d.1 (ground arith))
    where
      behind :
          (zs : List A)
          → any (λ z. same z y) zs ≡ false
          → any (λ z. same z y) (zs ++ x ∷ []) ≡ false
      behind [] n = ground arith
      behind (z ∷ zs) n = ground (arith, behind zs)
