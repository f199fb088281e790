-- ===== src/Base/Canonical.antt =====
-- Sorting by a strict total order depends on nothing but the elements.
use mathlib.Core.Bool.{Bool, true, false}
use mathlib.Core.List.{List, [], ◌∷◌, map}
use mathlib.Core.Logic.{inl, inr}
use mathlib.Core.Path.{◌≡◌, refl, sym, ap, ◌∙◌, subst}
use native.Mathlib.Omega.{arith}
use pruet_web_dev.Base.Tests.{Bool-cases}
use pruet_web_dev.Base.Sorting.{insert_sorted, sort}

-- a strict total order
pub record IsTotal {ℓ} {A : Type ℓ} (lt : A → A → Bool) : Type ℓ where
  pub irrefl : (x : A) → lt x x ≡ false
  pub trans : (x y z : A) → lt x y ≡ true → lt y z ≡ true → lt x z ≡ true
  pub antisym : (x y : A) → lt x y ≡ false → lt y x ≡ false → x ≡ y

module _ {ℓ} {A : Type ℓ} (lt : A → A → Bool) (total : IsTotal lt) where
  behind :
      (x z : A) (zs : List A)
      → lt z x ≡ true
      → insert_sorted lt x (z ∷ zs) ≡ z ∷ insert_sorted lt x zs
  unfolding insert_sorted
  behind x z zs e = rw e refl

  front : (x z : A) (zs : List A) → lt z x ≡ false → insert_sorted lt x (z ∷ zs) ≡ x ∷ z ∷ zs
  unfolding insert_sorted
  front x z zs e = rw e refl

  -- what does not stand behind `z` stands before all that does
  before : (x y z : A) → lt z x ≡ false → lt z y ≡ true → lt x y ≡ true
  before x y z h k = elim (Bool-cases (lt x z)) [
    | inl e ↦ total.trans x z y e k
    | inr e ↦ subst (λ u. lt u y ≡ true) (sym (total.antisym x z e h)) k
  ]

  swap_front :
      (x y : A) (ws : List A)
      → insert_sorted lt x ws ≡ x ∷ ws
      → insert_sorted lt y ws ≡ y ∷ ws
      → insert_sorted lt x (y ∷ ws) ≡ insert_sorted lt y (x ∷ ws)
  swap_front x y ws hx hy = elim (Bool-cases (lt y x)) [
    | inl e ↦ elim (Bool-cases (lt x y)) [
      | inl e' ↦
          let loop = total.trans x y x e' e in let never = total.irrefl x in absurd (ground arith)
      | inr e' ↦ behind x y ws e ∙ ap (λ zs. y ∷ zs) hx ∙ sym (front y x ws e')
    ]
    | inr e ↦ elim (Bool-cases (lt x y)) [
      | inl e' ↦ front x y ws e ∙ sym (behind y x ws e' ∙ ap (λ zs. x ∷ zs) hy)
      | inr e' ↦
          subst (λ u. insert_sorted lt x (u ∷ ws) ≡ insert_sorted lt u (x ∷ ws))
            (total.antisym x y e' e) refl
    ]
  ]

  insert_comm :
      (x y : A) (zs : List A)
      → insert_sorted lt x (insert_sorted lt y zs) ≡ insert_sorted lt y (insert_sorted lt x zs)
  insert_comm x y [] = unfold insert_sorted in swap_front x y [] refl refl
  insert_comm x y (z ∷ zs) =
      let rest = insert_comm x y zs in
      elim (Bool-cases (lt z y)) [
        | inl e ↦ elim (Bool-cases (lt z x)) [
          | inl e' ↦
              ap (insert_sorted lt x) (behind y z zs e)
              ∙ behind x z (insert_sorted lt y zs) e'
              ∙ ap (λ ws. z ∷ ws) rest
              ∙ sym (
                  ap (insert_sorted lt y) (behind x z zs e') ∙ behind y z (insert_sorted lt x zs) e)
          | inr e' ↦
              ap (insert_sorted lt x) (behind y z zs e)
              ∙ front x z (insert_sorted lt y zs) e'
              ∙ sym (
                  ap (insert_sorted lt y) (front x z zs e')
                  ∙ behind y x (z ∷ zs) (before x y z e' e)
                  ∙ ap (λ ws. x ∷ ws) (behind y z zs e))
        ]
        | inr e ↦ elim (Bool-cases (lt z x)) [
          | inl e' ↦
              ap (insert_sorted lt x) (front y z zs e)
              ∙ behind x y (z ∷ zs) (before y x z e e')
              ∙ ap (λ ws. y ∷ ws) (behind x z zs e')
              ∙ sym
                  (ap (insert_sorted lt y) (behind x z zs e') ∙ front y z (insert_sorted lt x zs) e)
          | inr e' ↦
              ap (insert_sorted lt x) (front y z zs e)
              ∙ swap_front x y (z ∷ zs) (front x z zs e') (front y z zs e)
              ∙ sym (ap (insert_sorted lt y) (front x z zs e'))
        ]
      ]

module _ {ℓ κ} {A : Type ℓ} {B : Type κ} (lt : B → B → Bool) (total : IsTotal lt)
    (lt' : A → A → Bool) (f : A → B) where
  sort-map-insert_sorted :
      (x : A) (ys : List A)
      → sort lt (map f (insert_sorted lt' x ys)) ≡ insert_sorted lt (f x) (sort lt (map f ys))
  unfolding insert_sorted sort
  sort-map-insert_sorted x [] = refl
  sort-map-insert_sorted x (y ∷ ys) =
      let rest = sort-map-insert_sorted x ys in
      elim (Bool-cases (lt' y x)) [
        | inl e ↦ rw e (
            ap (insert_sorted lt (f y)) rest
            ∙ insert_comm lt total (f y) (f x) (sort lt (map f ys)))
        | inr e ↦ rw e refl
      ]

  -- the order in which the elements stand before is forgotten
  pub sort-map-sort : (xs : List A) → sort lt (map f (sort lt' xs)) ≡ sort lt (map f xs)
  unfolding sort
  sort-map-sort [] = refl
  sort-map-sort (x ∷ xs) =
      let rest = sort-map-sort xs in
      sort-map-insert_sorted x (sort lt' xs) ∙ ap (insert_sorted lt (f x)) rest
