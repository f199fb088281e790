-- ===== src/Text.antt =====
-- Python's `str` as a list of code points, and the methods that the program calls on it.
-- Whitespace and case are those of ASCII.
pub mod Order
pub mod Stripped
use Prim.Native.Char.{code}
use Prim.Native.String.{String}
use pruet_web_dev.Base.{
  ℕ, ◌+◌, ◌≡◌, refl, ◌↔◌, Bool, true, false, ◌&&◌, ◌||◌, Option, none, some, List, [], ◌∷◌, map,
  arith, ltb, leb, ◌==◌, if◌then◌else◌,
}

abbrev pub Str : Type 0
Str = List ℕ

-- a literal
abbrev pub text : String → Str
text String.[] = []
text (String.◌∷◌ c s) = code c ∷ text s

unfoldable pub str_eq : Str → Str → Bool
str_eq [] [] = true
str_eq (a ∷ s) (b ∷ t) = (a == b) && str_eq s t
str_eq _ _ = false

pub str_eq_refl : (s : Str) → str_eq s s ≡ true
unfolding str_eq
str_eq_refl [] = refl
str_eq_refl (a ∷ s) = ground (arith, str_eq_refl s)

pub str_eq→eq : (s t : Str) → str_eq s t ≡ true → s ≡ t
unfolding str_eq
str_eq→eq [] [] h = refl
str_eq→eq [] (b ∷ t) h = cc
str_eq→eq (a ∷ s) [] h = cc
str_eq→eq (a ∷ s) (b ∷ t) h = ground (arith, str_eq→eq s t)

eq→str_eq : (s t : Str) → s ≡ t → str_eq s t ≡ true
eq→str_eq s t e = rw e (str_eq_refl t)

pub str_eq_iff : (s t : Str) → (str_eq s t ≡ true) ↔ (s ≡ t)
str_eq_iff s t = (str_eq→eq s t, eq→str_eq s t)

-- `a < b` on two strings
unfoldable pub str_lt : Str → Str → Bool
str_lt [] [] = false
str_lt [] (b ∷ t) = true
str_lt (a ∷ s) [] = false
str_lt (a ∷ s) (b ∷ t) = ltb a b || (a == b) && str_lt s t

-- truth of an `Optional[str]`: `None` and `""` are false
abbrev pub truthy : Option Str → Bool
truthy none = false
truthy (some []) = false
truthy (some (c ∷ s)) = true

unfoldable pub is_space : ℕ → Bool
is_space c = (c == 32) || leb 9 c && leb c 13 || leb 28 c && leb c 31

unfoldable pub lstrip : Str → Str
unfolding is_space
lstrip [] = []
lstrip (c ∷ s) = if is_space c then lstrip s else c ∷ s

-- drops the whitespace at the end
unfoldable pub rstrip : Str → Str
unfolding is_space
rstrip [] = []
rstrip (c ∷ s) = elim (rstrip s) [ [] ↦ if is_space c then [] else c ∷ [] | d ∷ t ↦ c ∷ d ∷ t ]

unfoldable pub strip : Str → Str
unfolding lstrip rstrip
strip s = rstrip (lstrip s)

unfoldable pub to_lower : ℕ → ℕ
to_lower c = if leb b'A' c && leb c b'Z' then c + 32 else c

unfoldable pub lower : Str → Str
unfolding to_lower
lower = map to_lower

-- the text up to the first whitespace, and what follows that whitespace
unfoldable pub break_space : Str → Str × Str
unfolding is_space
break_space [] = ([], [])
break_space (c ∷ s) = elim (is_space c) [
  | true ↦ ([], s)
  | false ↦ let (head, rest) = break_space s in (c ∷ head, rest)
]

-- `(value or "").strip() or None`: a blank text becomes None
unfoldable pub clean : Option Str → Option Str
unfolding strip
clean none = none
clean (some s) = elim (strip s) [ [] ↦ none | c ∷ r ↦ some (c ∷ r) ]

-- `value or ""`
abbrev pub or_empty : Option Str → Str
or_empty none = []
or_empty (some s) = s
