-- ===== src/Users/Modes.antt =====
-- app/services/user_service.py and scripts/backfill.py: one account, in the write modes and the read
-- sources of the name migration.
use pruet_web_dev.Base.{
  ℕ, ◌≡◌, refl, ap, ◌∙◌, subst, sym, true, false, Option, none, some, [], ◌∷◌, ◌&&◌, arith, ◌⊎◌,
  inl, inr, Bool-cases, is_some, if◌then◌else◌,
}
use pruet_web_dev.Text.{Str, str_eq, str_eq_refl, str_eq_iff, lstrip, strip, break_space, clean}
use pruet_web_dev.Text.Stripped.{Str-cases, strip_same, strip_stripped}
use pruet_web_dev.Models.{User}
use pruet_web_dev.Users.Names.{
  Names, split_full_name, join_names, derive_parts, fill_last, resolve_names, shown_names, legacy,
  new_mode,
}
use pruet_web_dev.Users.RoundTrip.{split_some}
use pruet_web_dev.Users.Accounts.{UserCreate, Settings, new_user, names_of, build_user_response}
use pruet_web_dev.Backfill.{fill_names}

clean-strip :
    (s : Str)
    → is_some (clean (some s)) ≡ true
    → (c : ℕ) × (t : Str) × (strip s ≡ c ∷ t) × (clean (some s) ≡ some (c ∷ t))
unfolding clean
clean-strip s h = elim (Str-cases (strip s)) [
  | inl e ↦ let no : clean (some s) ≡ none = rw (e, clean) refl in absurd cc
  | inr (c, t, e) ↦ (c, t, e, rw (e, clean) refl)
]

-- a name and the same name stripped are split alike
split_strip : (s : Str) → split_full_name (some (strip s)) ≡ split_full_name (some s)
split_strip s =
    let (left, right) = strip_stripped s in
    split_some (strip s)
    ∙ ap (λ x. ((break_space x).0, lstrip (break_space x).1)) (strip_same (strip s) left right)
    ∙ sym (split_some s)

-- what a full name alone resolves to
resolved : Option Str → Str × Str → Str → Names
resolved full parts mode =
    if str_eq mode legacy
    then record { full_name = full; first_name = none; last_name = none }
    else if str_eq mode new_mode
    then record { full_name = none; first_name = some parts.0; last_name = some parts.1 }
    else record { full_name = full; first_name = some parts.0; last_name = some parts.1 }

clean-none : clean none ≡ none
unfolding clean
clean-none = refl

join_none : join_names none none ≡ []
unfolding join_names clean
join_none = refl

resolve_full :
    (name : Str) (c : ℕ) (t : Str) (mode : Str)
    → clean (some name) ≡ some (c ∷ t)
    → resolve_names (some name) none none mode
      ≡ resolved (some (c ∷ t)) (split_full_name (some (c ∷ t))) mode
unfolding resolve_names derive_parts fill_last resolved
resolve_full name c t mode e = rw (e, clean-none, join_none) refl

-- the parts are stored
pub record HasParts (n : Names) (parts : Str × Str) : Type 0 where
  pub has_first : n.first_name ≡ some parts.0
  pub has_last : n.last_name ≡ some parts.1

-- the parts are stored, or only the full name that they are split from
abbrev Stored : Names → Str × Str → Type 0
Stored n parts =
    HasParts n parts
    ⊎ ((c : ℕ) × (t : Str) × (n
          ≡ record { full_name = some (c ∷ t); first_name = none; last_name = none })
        × (split_full_name (some (c ∷ t)) ≡ parts))

shown-HasParts :
    (n : Names) (parts : Str × Str) (source : Str)
    → HasParts n parts
    → HasParts (shown_names n source) parts
unfolding shown_names
shown-HasParts n parts source h = elim (Bool-cases (str_eq source new_mode)) [
  | inl e ↦ record { has_first = rw e h.has_first; has_last = rw e h.has_last }
  | inr e ↦ record {
    has_first = rw (e, h.has_first) refl;
    has_last = rw (e, h.has_first, h.has_last) refl;
  }
]

shown_split :
    (c : ℕ) (t : Str) (source : Str)
    → str_eq source new_mode ≡ false
    → HasParts
        (shown_names
          (record { full_name = some (c ∷ t); first_name = none; last_name = none })
          source)
        (split_full_name (some (c ∷ t)))
unfolding shown_names
shown_split c t source e = record { has_first = rw e refl; has_last = rw e refl }

fill-HasParts :
    (u : User) (parts : Str × Str)
    → Stored (names_of u) parts
    → HasParts (names_of (fill_names u)) parts
unfolding fill_names
fill-HasParts u parts (inl h) = record {
  has_first = rw h.has_first refl;
  has_last = rw h.has_last refl;
}
fill-HasParts u parts (inr (c, t, e, same)) =
    let full : u.full_name ≡ some (c ∷ t) = ap (λ (n : Names). n.full_name) e in
    let first : u.first_name ≡ none = ap (λ (n : Names). n.first_name) e in
    let last : u.last_name ≡ none = ap (λ (n : Names). n.last_name) e in
    record {
      has_first = rw (first, full) (ap (λ (x : Str × Str). some x.0) same);
      has_last =
          rw (last, first, full, str_eq_refl (split_full_name (some (c ∷ t))).0)
            (ap (λ (x : Str × Str). some x.1) same);
    }

-- what the read source shows of a name that may be split already
shown-Stored :
    (n : Names) (parts : Str × Str) (source : Str)
    → str_eq source new_mode ≡ false
    → Stored n parts
    → HasParts (shown_names n source) parts
shown-Stored n parts source old (inl h) = shown-HasParts n parts source h
shown-Stored n parts source old (inr (c, t, e, same)) =
    subst (λ x. HasParts (shown_names x source) parts) (sym e)
      (subst
        (λ x.
          HasParts
            (shown_names (record { full_name = some (c ∷ t); first_name = none; last_name = none })
              source)
            x)
        same (shown_split c t source old))

module _ (st : Settings) (now id : ℕ) (user_in : UserCreate) (name : Str)
    (full : user_in.full_name ≡ some name) (no_first : user_in.first_name ≡ none)
    (no_last : user_in.last_name ≡ none) (not_blank : is_some (clean (some name)) ≡ true) where
  parts_resolved :
      (c : ℕ) × (t : Str) × (split_full_name (some (c ∷ t)) ≡ split_full_name (some name))
      × (resolve_names user_in.full_name user_in.first_name user_in.last_name st.write_mode
          ≡ resolved (some (c ∷ t)) (split_full_name (some (c ∷ t))) st.write_mode)
  parts_resolved =
      let (c, t, stripped, cleaned) = clean-strip name not_blank in
      (
        c,
        t,
        ap (λ x. split_full_name (some x)) (sym stripped) ∙ split_strip name,
        rw (full, no_first, no_last) (resolve_full name c t st.write_mode cleaned),
      )

  -- a mode that writes the parts stores them
  new_user-HasParts :
      str_eq st.write_mode legacy ≡ false
      → HasParts (names_of (new_user st now user_in id)) (split_full_name (some name))
  unfolding resolved
  new_user-HasParts e =
      let (c, t, same, r) = parts_resolved in
      elim (Bool-cases (str_eq st.write_mode new_mode)) [
        | inl n ↦ record {
          has_first = rw (r, e, n) (ap (λ (x : Str × Str). some x.0) same);
          has_last = rw (r, e, n) (ap (λ (x : Str × Str). some x.1) same);
        }
        | inr n ↦ record {
          has_first = rw (r, e, n) (ap (λ (x : Str × Str). some x.0) same);
          has_last = rw (r, e, n) (ap (λ (x : Str × Str). some x.1) same);
        }
      ]

  not_new : str_eq st.write_mode legacy ≡ true → str_eq st.write_mode new_mode ≡ false
  unfolding str_eq
  not_new e = rw ((str_eq_iff st.write_mode legacy).0 e) refl

  legacy_names :
      (c : ℕ) (t : Str) (parts : Str × Str)
      → str_eq st.write_mode legacy ≡ true
      → resolve_names user_in.full_name user_in.first_name user_in.last_name st.write_mode
        ≡ resolved (some (c ∷ t)) parts st.write_mode
      → names_of (new_user st now user_in id)
        ≡ record { full_name = some (c ∷ t); first_name = none; last_name = none }
  unfolding resolved
  legacy_names c t parts e r = rw (r, e, not_new e) refl

  new_user-Stored : Stored (names_of (new_user st now user_in id)) (split_full_name (some name))
  new_user-Stored = elim (Bool-cases (str_eq st.write_mode legacy)) [
    | inl e ↦
        let (c, t, same, r) = parts_resolved in
        inr (c, t, legacy_names c t (split_full_name (some (c ∷ t))) e r, same)
    | inr e ↦ inl (new_user-HasParts e)
  ]

  -- An account that is registered by a full name alone, not a blank one, shows the two names that the
  -- full name splits into, under every write mode and read source except the old writes with the new
  -- reads.
  pub build_user_response-HasParts :
      (source : Str)
      → str_eq st.write_mode legacy && str_eq source new_mode ≡ false
      → HasParts
          (build_user_response (new_user st now user_in id) source).names
          (split_full_name (some name))
  unfolding build_user_response
  build_user_response-HasParts source h = elim (Bool-cases (str_eq st.write_mode legacy)) [
    | inl e ↦
        shown-Stored (names_of (new_user st now user_in id)) (split_full_name (some name)) source
          (ground arith) new_user-Stored
    | inr e ↦
        shown-HasParts (names_of (new_user st now user_in id)) (split_full_name (some name)) source
          (new_user-HasParts e)
  ]

  -- After the backfill of its row, an account that was registered by a full name alone, not a blank
  -- one, shows the two names that the full name splits into, whatever write mode stored it and
  -- whatever source is read.
  pub fill_names-HasParts :
      (source : Str)
      → HasParts
          (build_user_response (fill_names (new_user st now user_in id)) source).names
          (split_full_name (some name))
  unfolding build_user_response
  fill_names-HasParts source =
      shown-HasParts (names_of (fill_names (new_user st now user_in id)))
        (split_full_name (some name)) source
        (fill-HasParts (new_user st now user_in id) (split_full_name (some name)) new_user-Stored)
