-- ===== src/Users/RoundTrip.antt =====
-- app/services/user_service.py: a name that is split, joined and split again.
use pruet_web_dev.Base.{
  ℕ, ◌≡◌, refl, ap, ◌∙◌, subst, sym, false, none, some, [], ◌∷◌, ◌++◌, arith, any, inl, inr,
}
use pruet_web_dev.Text.{Str, is_space, lstrip, rstrip, strip, break_space, clean}
use pruet_web_dev.Text.Stripped.{
  Str-cases, break_space-IsBroken, break_space-append, break_space_word, break_word, lstrip_nil,
  lstrip_head, lstrip_word, lstrip_idem, rstrip-lstrip, rstrip_append_same, rstrip_word,
  rstrip_more, strip_same, strip_stripped,
}
use pruet_web_dev.Users.Names.{split_full_name, join_names, join_clean}

-- the two parts of a name as the program stores them
pub record IsName (f l : Str) : Type 0 where
  pub one_word : any is_space f ≡ false
  pub last_lstripped : lstrip l ≡ l
  pub last_rstripped : rstrip l ≡ l
  pub no_last_alone : f ≡ [] → l ≡ []

pub split_some :
    (s : Str)
    → split_full_name (some s) ≡ ((break_space (strip s)).0, lstrip (break_space (strip s)).1)
unfolding split_full_name
split_some s = refl

broken-IsName :
    (t : Str) → lstrip t ≡ t → rstrip t ≡ t → IsName (break_space t).0 (lstrip (break_space t).1)
broken-IsName t left right =
    let b = break_space-IsBroken t right in
    record {
      one_word = b.one_word;
      last_lstripped = lstrip_idem (break_space t).1;
      last_rstripped = rstrip-lstrip (break_space t).1 b.rest_rstripped;
      no_last_alone = λ e. elim (Str-cases t) [
        | inl nil ↦
            subst (λ x. lstrip (break_space x).1 ≡ []) (sym nil) (unfold break_space in lstrip_nil)
        | inr (c, s, cons) ↦
            let word = break_word c s (lstrip_head c s (subst (λ x. lstrip x ≡ x) cons left)) in
            let first : (break_space t).0 ≡ c ∷ (break_space s).0 =
              ap (λ x. (break_space x).0) cons ∙ ap (λ (x : Str × Str). x.0) word in
            absurd cc
      ];
    }

pub split_full_name-IsName :
    (s : Str) → IsName (split_full_name (some s)).0 (split_full_name (some s)).1
split_full_name-IsName s =
    let (left, right) = strip_stripped s in
    subst (λ x. IsName x.0 x.1) (sym (split_some s)) (broken-IsName (strip s) left right)

clean_nil : clean (some []) ≡ none
unfolding clean strip lstrip rstrip
clean_nil = refl

pub clean_same : (c : ℕ) (s : Str) → strip (c ∷ s) ≡ c ∷ s → clean (some (c ∷ s)) ≡ some (c ∷ s)
unfolding clean
clean_same c s e = rw (e, clean) refl

join_some :
    (f l : Str) → join_names (some f) (some l) ≡ join_clean (clean (some f)) (clean (some l))
unfolding join_names
join_some f l = refl

-- a text that is stripped already and breaks into a word and a rest is split into these
split_broken :
    (s f l : Str)
    → strip s ≡ s
    → break_space s ≡ (f, l)
    → lstrip l ≡ l
    → split_full_name (some s) ≡ (f, l)
split_broken s f l stripped broken left =
    split_some s
    ∙ ap (λ x. ((break_space x).0, lstrip (break_space x).1)) stripped
    ∙ ap (λ (x : Str × Str). (x.0, lstrip x.1)) broken
    ∙ ap (λ x. (f, x)) left

word_strip : (c : ℕ) (f : Str) → any is_space (c ∷ f) ≡ false → strip (c ∷ f) ≡ c ∷ f
word_strip c f word = strip_same (c ∷ f) (lstrip_word c f (ground arith)) (rstrip_word (c ∷ f) word)

split_word :
    (c : ℕ) (f : Str)
    → any is_space (c ∷ f) ≡ false
    → split_full_name (some (join_names (some (c ∷ f)) (some []))) ≡ (c ∷ f, [])
split_word c f word =
    let joined : join_names (some (c ∷ f)) (some []) ≡ c ∷ f =
      join_some (c ∷ f) []
      ∙ ap (λ x. join_clean x (clean (some []))) (clean_same c f (word_strip c f word))
      ∙ ap (join_clean (some (c ∷ f))) clean_nil in
    ap (λ x. split_full_name (some x)) joined
    ∙ split_broken (c ∷ f) (c ∷ f) [] (word_strip c f word) (break_space_word (c ∷ f) word)
        lstrip_nil

split_words :
    (c d : ℕ) (f l : Str)
    → any is_space (c ∷ f) ≡ false
    → lstrip (d ∷ l) ≡ d ∷ l
    → rstrip (d ∷ l) ≡ d ∷ l
    → split_full_name (some (join_names (some (c ∷ f)) (some (d ∷ l)))) ≡ (c ∷ f, d ∷ l)
split_words c d f l word left right =
    let joined : join_names (some (c ∷ f)) (some (d ∷ l)) ≡ (c ∷ f) ++ 32 ∷ d ∷ l =
      join_some (c ∷ f) (d ∷ l)
      ∙ ap (λ x. join_clean x (clean (some (d ∷ l)))) (clean_same c f (word_strip c f word))
      ∙ ap (join_clean (some (c ∷ f))) (clean_same d l (strip_same (d ∷ l) left right)) in
    let stripped : strip ((c ∷ f) ++ 32 ∷ d ∷ l) ≡ (c ∷ f) ++ 32 ∷ d ∷ l =
      strip_same ((c ∷ f) ++ 32 ∷ d ∷ l) (lstrip_word c (f ++ 32 ∷ d ∷ l) (ground arith))
        (rstrip_append_same (c ∷ f) (d ∷ l) 32 (rstrip_more 32 d (d ∷ l) l right)) in
    ap (λ x. split_full_name (some x)) joined
    ∙ split_broken ((c ∷ f) ++ 32 ∷ d ∷ l) (c ∷ f) (d ∷ l) stripped
        (break_space-append (c ∷ f) (d ∷ l) 32 (unfold is_space in refl) word) left

split_nothing : split_full_name (some (join_names (some []) (some []))) ≡ ([], [])
unfolding split_full_name join_names clean strip lstrip rstrip break_space
split_nothing = refl

pub split-join :
    (f l : Str) → IsName f l → split_full_name (some (join_names (some f) (some l))) ≡ (f, l)
split-join [] l h =
    subst (λ x. split_full_name (some (join_names (some []) (some x))) ≡ ([], x))
      (sym (h.no_last_alone refl)) split_nothing
split-join (c ∷ f) [] h = split_word c f h.one_word
split-join (c ∷ f) (d ∷ l) h = split_words c d f l h.one_word h.last_lstripped h.last_rstripped

-- Splitting a full name at its first whitespace gives a first name without whitespace and a last name
-- without whitespace at either end; joining the two and splitting again gives the same two names.
pub split_full_name-join_names :
    (s : Str)
    → IsName (split_full_name (some s)).0 (split_full_name (some s)).1
      × (split_full_name (
            some
              (join_names (some (split_full_name (some s)).0) (some (split_full_name (some s)).1)))
          ≡ split_full_name (some s))
split_full_name-join_names s =
    let parts = split_full_name-IsName s in
    (parts, split-join (split_full_name (some s)).0 (split_full_name (some s)).1 parts)
