-- ===== src/Base/Rows.antt =====
-- How the queries see a table after an UPDATE ... WHERE.
use mathlib.Core.Path.{◌≡◌, refl}
use mathlib.Core.Bool.{Bool, true, false}
use mathlib.Core.List.{List, [], ◌∷◌, ◌++◌}
use mathlib.Core.Option.{some}
use native.Mathlib.Omega.{arith}
use pruet_web_dev.Base.Lists.{find?, count, update_where, any}

module _ {ℓ} {A : Type ℓ} (p : A → Bool) (f : A → A) where
  -- the row that a key finds is the updated row, where the update keeps the key
  pub find?-update_where :
      (xs : List A) (a : A)
      → ((x : A) → p x ≡ true → p (f x) ≡ true)
      → find? p xs ≡ some a
      → find? p (update_where p f xs) ≡ some (f a)
  find?-update_where [] a keep h = cc
  find?-update_where (x ∷ xs) a keep h = ground (arith, keep x, find?-update_where xs a keep)

  -- an update whose rows no longer pass a test leaves none of them among those that pass
  pub count-update_where_none :
      (xs : List A) → ((x : A) → p x ≡ true → p (f x) ≡ false) → count p (update_where p f xs) ≡ 0
  count-update_where_none [] drop_out = refl
  count-update_where_none (x ∷ xs) drop_out =
      ground (arith, drop_out x, count-update_where_none xs drop_out)

module _ {ℓ} {A : Type ℓ} where
  pub find?_passes : (p : A → Bool) (xs : List A) (a : A) → find? p xs ≡ some a → p a ≡ true
  find?_passes p [] a h = cc
  find?_passes p (x ∷ xs) a h = ground (arith, find?_passes p xs a)

  pub any-append_last :
      (p : A → Bool) (xs : List A) (a : A) → p a ≡ true → any p (xs ++ a ∷ []) ≡ true
  any-append_last p [] a h = ground arith
  any-append_last p (x ∷ xs) a h = ground (arith, any-append_last p xs a h)
