-- ===== src/Text/Stripped.antt =====
-- Python's `strip` and `split(maxsplit=1)` on texts that are stripped already.
use pruet_web_dev.Base.{
  ℕ, ◌≡◌, refl, ap, ◌∙◌, subst, sym, Bool, true, false, ◌||◌, [], ◌∷◌, ◌++◌, arith, ◌≤◌, length,
  any, Bool-cases, ◌⊎◌, inl, inr,
}
use pruet_web_dev.Text.{Str, is_space, lstrip, rstrip, strip, break_space}

pub Str-cases : (s : Str) → (s ≡ []) ⊎ ((c : ℕ) × (t : Str) × (s ≡ c ∷ t))
Str-cases [] = inl refl
Str-cases (c ∷ t) = inr (c, t, refl)

or_false : (a b : Bool) → a || b ≡ false → (a ≡ false) × (b ≡ false)
or_false a b h = (ground arith, ground arith)

lstrip_space : (c : ℕ) (s : Str) → is_space c ≡ true → lstrip (c ∷ s) ≡ lstrip s
unfolding lstrip
lstrip_space c s h = rw h refl

pub lstrip_word : (c : ℕ) (s : Str) → is_space c ≡ false → lstrip (c ∷ s) ≡ c ∷ s
unfolding lstrip
lstrip_word c s h = rw h refl

rstrip_space : (c : ℕ) (s : Str) → rstrip s ≡ [] → is_space c ≡ true → rstrip (c ∷ s) ≡ []
unfolding rstrip
rstrip_space c s e h = rw e (rw h refl)

rstrip_last : (c : ℕ) (s : Str) → rstrip s ≡ [] → is_space c ≡ false → rstrip (c ∷ s) ≡ c ∷ []
unfolding rstrip
rstrip_last c s e h = rw e (rw h refl)

pub rstrip_more : (c d : ℕ) (s t : Str) → rstrip s ≡ d ∷ t → rstrip (c ∷ s) ≡ c ∷ d ∷ t
unfolding rstrip
rstrip_more c d s t e = rw e refl

pub break_at_space : (c : ℕ) (s : Str) → is_space c ≡ true → break_space (c ∷ s) ≡ ([], s)
unfolding break_space
break_at_space c s h = rw (h, break_space) refl

pub break_word :
    (c : ℕ) (s : Str)
    → is_space c ≡ false
    → break_space (c ∷ s) ≡ (c ∷ (break_space s).0, (break_space s).1)
unfolding break_space
break_word c s h = rw (h, break_space) refl

pub lstrip_idem : (s : Str) → lstrip (lstrip s) ≡ lstrip s
lstrip_idem [] = unfold lstrip in refl
lstrip_idem (c ∷ s) =
    let rest = lstrip_idem s in
    elim (Bool-cases (is_space c)) [
      | inl e ↦ subst (λ x. lstrip x ≡ x) (sym (lstrip_space c s e)) rest
      | inr e ↦ subst (λ x. lstrip x ≡ x) (sym (lstrip_word c s e)) (lstrip_word c s e)
    ]

pub rstrip_nil : rstrip [] ≡ []
unfolding rstrip
rstrip_nil = refl

rstrip_idem : (s : Str) → rstrip (rstrip s) ≡ rstrip s
rstrip_idem [] = subst (λ x. rstrip x ≡ x) (sym rstrip_nil) rstrip_nil
rstrip_idem (c ∷ s) =
    let rest : rstrip (rstrip s) ≡ rstrip s = rstrip_idem s in
    elim (Str-cases (rstrip s)) [
      | inl e ↦ elim (Bool-cases (is_space c)) [
        | inl h ↦ subst (λ x. rstrip x ≡ x) (sym (rstrip_space c s e h)) rstrip_nil
        | inr h ↦
            subst (λ x. rstrip x ≡ x) (sym (rstrip_last c s e h)) (rstrip_last c [] rstrip_nil h)
      ]
      | inr (d, t, e) ↦
          subst (λ x. rstrip x ≡ x) (sym (rstrip_more c d s t e))
            (rstrip_more c d (d ∷ t) t (subst (λ x. rstrip x ≡ x) e rest))
    ]

-- what follows in a text without whitespace at its end has none at its end
rstrip_tail : (c : ℕ) (s : Str) → rstrip (c ∷ s) ≡ c ∷ s → rstrip s ≡ s
rstrip_tail c s h = elim (Str-cases (rstrip s)) [
  | inl e ↦ elim (Bool-cases (is_space c)) [
    | inl b ↦ let no : rstrip (c ∷ s) ≡ [] = rstrip_space c s e b in absurd cc
    | inr b ↦ let one : rstrip (c ∷ s) ≡ c ∷ [] = rstrip_last c s e b in cc
  ]
  | inr (d, t, e) ↦ let more : rstrip (c ∷ s) ≡ c ∷ d ∷ t = rstrip_more c d s t e in cc
]

pub rstrip-lstrip : (s : Str) → rstrip s ≡ s → rstrip (lstrip s) ≡ lstrip s
rstrip-lstrip [] h = unfold lstrip in h
rstrip-lstrip (c ∷ s) h =
    let rest = rstrip-lstrip s (rstrip_tail c s h) in
    elim (Bool-cases (is_space c)) [
      | inl e ↦ subst (λ x. rstrip x ≡ x) (sym (lstrip_space c s e)) rest
      | inr e ↦ subst (λ x. rstrip x ≡ x) (sym (lstrip_word c s e)) h
    ]

-- a first character that is no whitespace stays in place
rstrip_head : (c : ℕ) (s : Str) → is_space c ≡ false → (t : Str) × (rstrip (c ∷ s) ≡ c ∷ t)
rstrip_head c s h = elim (Str-cases (rstrip s)) [
  | inl e ↦ ([], rstrip_last c s e h)
  | inr (d, t, e) ↦ (d ∷ t, rstrip_more c d s t e)
]

pub lstrip_nil : lstrip [] ≡ []
unfolding lstrip
lstrip_nil = refl

length-lstrip : (s : Str) → length (lstrip s) ≤ length s
length-lstrip [] = unfold lstrip in ground arith
length-lstrip (c ∷ s) =
    let rest = length-lstrip s in
    elim (Bool-cases (is_space c)) [
      | inl e ↦ let same : lstrip (c ∷ s) ≡ lstrip s = lstrip_space c s e in ground arith
      | inr e ↦ let same : lstrip (c ∷ s) ≡ c ∷ s = lstrip_word c s e in ground arith
    ]

pub lstrip_head : (c : ℕ) (s : Str) → lstrip (c ∷ s) ≡ c ∷ s → is_space c ≡ false
lstrip_head c s h = elim (Bool-cases (is_space c)) [
  | inl e ↦
      let same : lstrip (c ∷ s) ≡ lstrip s = lstrip_space c s e in
      let shorter = length-lstrip s in absurd (ground arith)
  | inr e ↦ e
]

lstrip-rstrip : (s : Str) → lstrip s ≡ s → lstrip (rstrip s) ≡ rstrip s
lstrip-rstrip [] h = subst (λ x. lstrip x ≡ x) (sym rstrip_nil) lstrip_nil
lstrip-rstrip (c ∷ s) h =
    let word : is_space c ≡ false = lstrip_head c s h in
    let (t, e) = rstrip_head c s word in subst (λ x. lstrip x ≡ x) (sym e) (lstrip_word c t word)

pub strip_stripped : (s : Str) → (lstrip (strip s) ≡ strip s) × (rstrip (strip s) ≡ strip s)
unfolding strip
strip_stripped s = (lstrip-rstrip (lstrip s) (lstrip_idem s), rstrip_idem (lstrip s))

-- `s.split(maxsplit=1)` of a stripped text: a first word, which holds no whitespace, and a rest with
-- none at its end
pub record IsBroken (s head rest : Str) : Type 0 where
  pub one_word : any is_space head ≡ false
  pub rest_rstripped : rstrip rest ≡ rest

pub break_space-IsBroken : (s : Str) → rstrip s ≡ s → IsBroken s (break_space s).0 (break_space s).1
break_space-IsBroken [] h = unfold break_space in record { one_word = refl; rest_rstripped = h }
break_space-IsBroken (c ∷ s) h =
    let rest = break_space-IsBroken s (rstrip_tail c s h) in
    elim (Bool-cases (is_space c)) [
      | inl e ↦
          subst (λ x. IsBroken (c ∷ s) x.0 x.1) (sym (break_at_space c s e))
            (record { one_word = refl; rest_rstripped = rstrip_tail c s h })
      | inr e ↦
          subst (λ x. IsBroken (c ∷ s) x.0 x.1) (sym (break_word c s e))
            (record { one_word = rw e rest.one_word; rest_rstripped = rest.rest_rstripped })
    ]

-- a word that a space and a text follow is the first word of the whole
pub break_space-append :
    (f l : Str) (c : ℕ)
    → is_space c ≡ true
    → any is_space f ≡ false
    → break_space (f ++ c ∷ l) ≡ (f, l)
break_space-append [] l c h e = break_at_space c l h
break_space-append (d ∷ f) l c h e =
    let (not_space, rest_word) = or_false (is_space d) (any is_space f) e in
    let rest : break_space (f ++ c ∷ l) ≡ (f, l) = break_space-append f l c h rest_word in
    subst (λ x. break_space (d ∷ f ++ c ∷ l) ≡ (d ∷ x.0, x.1)) rest
      (break_word d (f ++ c ∷ l) not_space)

pub break_space_word : (f : Str) → any is_space f ≡ false → break_space f ≡ (f, [])
break_space_word [] e = unfold break_space in refl
break_space_word (d ∷ f) e =
    let (not_space, rest_word) = or_false (is_space d) (any is_space f) e in
    let rest : break_space f ≡ (f, []) = break_space_word f rest_word in
    subst (λ x. break_space (d ∷ f) ≡ (d ∷ x.0, x.1)) rest (break_word d f not_space)

rstrip-append :
    (f l : Str) (c : ℕ)
    → rstrip (c ∷ l) ≡ c ∷ l
    → (t : Str) × (d : ℕ) × (f ++ c ∷ l ≡ d ∷ t) × (rstrip (f ++ c ∷ l) ≡ d ∷ t)
rstrip-append [] l c h = (l, c, refl, h)
rstrip-append (a ∷ f) l c h =
    let (t, d, same, rest) = rstrip-append f l c h in
    (
      f ++ c ∷ l,
      a,
      refl,
      subst (λ x. rstrip (a ∷ f ++ c ∷ l) ≡ a ∷ x) (sym same) (rstrip_more a d (f ++ c ∷ l) t rest),
    )

pub rstrip_append_same :
    (f l : Str) (c : ℕ) → rstrip (c ∷ l) ≡ c ∷ l → rstrip (f ++ c ∷ l) ≡ f ++ c ∷ l
rstrip_append_same f l c h = let (t, d, same, e) = rstrip-append f l c h in e ∙ sym same

pub rstrip_word : (f : Str) → any is_space f ≡ false → rstrip f ≡ f
rstrip_word [] e = rstrip_nil
rstrip_word (c ∷ f) e =
    let (not_space, rest_word) = or_false (is_space c) (any is_space f) e in
    let rest : rstrip f ≡ f = rstrip_word f rest_word in
    elim (Str-cases f) [
      | inl nil ↦
          subst (λ x. rstrip (c ∷ x) ≡ c ∷ x) (sym nil) (rstrip_last c [] rstrip_nil not_space)
      | inr (d, t, cons) ↦ rstrip_more c d f t (rest ∙ cons) ∙ ap (λ x. c ∷ x) (sym cons)
    ]

pub strip_same : (s : Str) → lstrip s ≡ s → rstrip s ≡ s → strip s ≡ s
unfolding strip
strip_same s l r = rw l r
