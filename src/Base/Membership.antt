-- ===== src/Base/Membership.antt =====
-- Elements of lists, with the place where they stand.
use mathlib.Core.Path.{◌≡◌, refl, sym, subst, ◌∙◌}
use mathlib.Core.Logic.{◌⊎◌, inl, inr}
use mathlib.Core.Bool.{Bool, true, false}
use mathlib.Core.List.{List, [], ◌∷◌}
use native.Mathlib.Omega.{arith}
use pruet_web_dev.Base.Tests.{Bool-cases, if◌then◌else◌}
use pruet_web_dev.Base.Lists.{any, filter}
use pruet_web_dev.Base.Distinct.{Distinct}

module _ {A : Type 0} where
  abbrev pub In : A → List A → Type 0
  In x [] = ⊥
  In x (y ∷ ys) = (x ≡ y) ⊎ In x ys

  In-filter_head :
      (p : A → Bool) (x y : A) (ys : List A)
      → p y ≡ true
      → (In x (filter p ys) → In x ys × (p x ≡ true))
      → In x (y ∷ filter p ys)
      → In x (y ∷ ys) × (p x ≡ true)
  In-filter_head p x y ys e below (inl s) = (inl s, rw s e)
  In-filter_head p x y ys e below (inr i) = let (j, px) = below i in (inr j, px)

  pub In-filter : (p : A → Bool) (x : A) (ys : List A) → In x (filter p ys) → In x ys × (p x ≡ true)
  In-filter p x [] h = absurd h
  In-filter p x (y ∷ ys) h = elim (Bool-cases (p y)) [
    | inl e ↦
        In-filter_head p x y ys e (In-filter p x ys)
          (subst (λ b. In x (if b then y ∷ filter p ys else filter p ys)) e h)
    | inr e ↦
        let (i, px) =
          In-filter p x ys (subst (λ b. In x (if b then y ∷ filter p ys else filter p ys)) e h) in
        (inr i, px)
  ]

  pub filter-In : (p : A → Bool) (x : A) (ys : List A) → In x ys → p x ≡ true → In x (filter p ys)
  filter-In p x [] h e = h
  filter-In p x (y ∷ ys) (inl s) e =
      let py : p y ≡ true = subst (λ z. p z ≡ true) s e in rw py (inl s)
  filter-In p x (y ∷ ys) (inr i) e = elim (Bool-cases (p y)) [
    | inl py ↦ rw py (inr (filter-In p x ys i e))
    | inr py ↦ rw py (filter-In p x ys i e)
  ]

  pub any-In : (p : A → Bool) (x : A) (ys : List A) → In x ys → p x ≡ true → any p ys ≡ true
  any-In p x [] h e = absurd h
  any-In p x (y ∷ ys) (inl s) e = let py : p y ≡ true = subst (λ z. p z ≡ true) s e in ground arith
  any-In p x (y ∷ ys) (inr i) e = ground (arith, any-In p x ys i e)

  pub Distinct-In :
      (same : A → A → Bool) (swap : (x y : A) → same x y ≡ true → same y x ≡ true) (xs : List A)
      (x y : A)
      → Distinct same xs
      → In x xs
      → In y xs
      → same x y ≡ true
      → x ≡ y
  Distinct-In same swap [] x y d i j e = absurd i
  Distinct-In same swap (z ∷ zs) x y d (inl s) (inl t) e = s ∙ sym t
  Distinct-In same swap (z ∷ zs) x y d (inl s) (inr j) e =
      let hit : any (λ w. same w z) zs ≡ true =
        any-In (λ w. same w z) y zs j (subst (λ w. same y w ≡ true) s (swap x y e)) in
      absurd (ground arith)
  Distinct-In same swap (z ∷ zs) x y d (inr i) (inl t) e =
      let hit : any (λ w. same w z) zs ≡ true =
        any-In (λ w. same w z) x zs i (subst (λ w. same x w ≡ true) t e) in
      absurd (ground arith)
  Distinct-In same swap (z ∷ zs) x y d (inr i) (inr j) e = Distinct-In same swap zs x y d.1 i j e

  -- an element that none is greater than
  pub maximal :
      (lt : A → A → Bool) (irrefl : (x : A) → lt x x ≡ false)
      (trans : (x y z : A) → lt x y ≡ true → lt y z ≡ true → lt x z ≡ true) (x : A) (ys : List A)
      → (m : A) × In m (x ∷ ys) × ((y : A) → In y (x ∷ ys) → lt m y ≡ false)
  maximal lt irrefl trans x [] = (x, inl refl, last)
    where
      last : (y : A) → In y (x ∷ []) → lt x y ≡ false
      last y (inl s) = rw s (irrefl x)
      last y (inr i) = absurd i
  maximal lt irrefl trans x (z ∷ zs) = with_tail (maximal lt irrefl trans z zs)
    where
      with_tail :
          (m : A) × In m (z ∷ zs) × ((y : A) → In y (z ∷ zs) → lt m y ≡ false)
          → (m : A) × In m (x ∷ z ∷ zs) × ((y : A) → In y (x ∷ z ∷ zs) → lt m y ≡ false)
      with_tail (m, i, top) = elim (Bool-cases (lt m x)) [
        | inl e ↦ (x, inl refl, (λ y. above m e top y))
        | inr e ↦ (m, inr i, (λ y. beside m e top y))
      ]
        where
          above :
              (m : A)
              → lt m x ≡ true
              → ((y : A) → In y (z ∷ zs) → lt m y ≡ false)
              → (y : A) → In y (x ∷ z ∷ zs)
              → lt x y ≡ false
          above m e top y (inl s) = rw s (irrefl x)
          above m e top y (inr j) = ground (arith, top y j, trans m x y)

          beside :
              (m : A)
              → lt m x ≡ false
              → ((y : A) → In y (z ∷ zs) → lt m y ≡ false)
              → (y : A) → In y (x ∷ z ∷ zs)
              → lt m y ≡ false
          beside m e top y (inl s) = rw s e
          beside m e top y (inr j) = top y j
