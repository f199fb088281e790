-- ===== src/Text/Order.antt =====
-- The order of strings is a strict total order.
use pruet_web_dev.Base.{◌≡◌, refl, true, false, [], ◌∷◌, arith}
use pruet_web_dev.Text.{Str, str_eq, str_lt}

pub str_lt_irrefl : (s : Str) → str_lt s s ≡ false
unfolding str_lt
str_lt_irrefl [] = refl
str_lt_irrefl (a ∷ s) = ground (arith, str_lt_irrefl s)

pub str_lt_trans : (s t u : Str) → str_lt s t ≡ true → str_lt t u ≡ true → str_lt s u ≡ true
unfolding str_lt
str_lt_trans s [] [] h k = ground arith
str_lt_trans s (b ∷ t) [] h k = ground arith
str_lt_trans [] t (c ∷ u) h k = ground arith
str_lt_trans (a ∷ s) [] (c ∷ u) h k = ground arith
str_lt_trans (a ∷ s) (b ∷ t) (c ∷ u) h k = ground (arith, str_lt_trans s t u)

pub str_lt_total : (s t : Str) → str_eq s t ≡ false → str_lt s t ≡ false → str_lt t s ≡ true
unfolding str_lt str_eq
str_lt_total [] [] h k = ground arith
str_lt_total [] (b ∷ t) h k = ground arith
str_lt_total (a ∷ s) [] h k = ground arith
str_lt_total (a ∷ s) (b ∷ t) h k = ground (arith, str_lt_total s t)
