-- ===== src/Flags/Served.antt =====
-- app/core/flags.py: when a new value of a flag is served.
use pruet_web_dev.Base.{
  ◌⊎◌, ℕ, ◌<◌, ◌-◌, ltb, ◌≡◌, refl, subst, sym, ap, ◌∙◌, true, false, some, List, [], ◌∷◌, ◌++◌,
  arith, any, All, update_where, Bool-cases, Option-cases, inl, inr, if◌then◌else◌,
}
use pruet_web_dev.Base.Rows.{any-append_last}
use pruet_web_dev.Text.{Str, str_eq, str_eq_refl, str_eq_iff}
use pruet_web_dev.Models.{FeatureFlag, Pg}
use pruet_web_dev.Service.{ok}
use pruet_web_dev.Flags.{
  Dict, choices, lookup, put, defaults, is_flag, overlay, Cache, refresh, get_all_flags,
  values_or_defaults, upsert, invalidate_cache, set_flag, update_flag,
}

lookup_hit : (key k v : Str) (d : Dict) → str_eq k key ≡ true → lookup key ((k, v) ∷ d) ≡ some v
unfolding lookup
lookup_hit key k v d e = rw e refl

lookup_miss :
    (key k v : Str) (d : Dict) → str_eq k key ≡ false → lookup key ((k, v) ∷ d) ≡ lookup key d
unfolding lookup
lookup_miss key k v d e = rw e refl

lookup-put : (key v : Str) (d : Dict) → lookup key (put key v d) ≡ some v
unfolding put
lookup-put key v [] = lookup_hit key key v [] (str_eq_refl key)
lookup-put key v ((k, w) ∷ d) = elim (Bool-cases (str_eq k key)) [
  | inl e ↦ rw e (lookup_hit key k v d e)
  | inr e ↦ rw e (lookup_miss key k w (put key v d) e ∙ lookup-put key v d)
]

lookup-put_other :
    (key other v : Str) (d : Dict)
    → str_eq other key ≡ false
    → lookup key (put other v d) ≡ lookup key d
unfolding put
lookup-put_other key other v [] h = lookup_miss key other v [] h
lookup-put_other key other v ((k, w) ∷ d) h = elim (Bool-cases (str_eq k other)) [
  | inl e ↦
      let same : k ≡ other = (str_eq_iff k other).0 e in
      let miss : str_eq k key ≡ false = subst (λ x. str_eq x key ≡ false) (sym same) h in
      rw e (lookup_miss key k v d miss ∙ sym (lookup_miss key k w d miss))
  | inr e ↦ rw e (elim (Bool-cases (str_eq k key)) [
    | inl hit ↦ lookup_hit key k w (put other v d) hit ∙ sym (lookup_hit key k w d hit)
    | inr miss ↦
        lookup_miss key k w (put other v d) miss
        ∙ lookup-put_other key other v d h
        ∙ sym (lookup_miss key k w d miss)
  ])
]

-- every row of a flag has one value
abbrev OneValue : Str → Str → List FeatureFlag → Type 0
OneValue key v rows = All (λ (r : FeatureFlag). str_eq r.key key ≡ true → r.value ≡ v) rows

module _ (key v : Str) (flag : is_flag key ≡ true) where
  put_row :
      (r : FeatureFlag) (d : Dict)
      → (str_eq r.key key ≡ true → r.value ≡ v)
      → (str_eq r.key key ≡ true) ⊎ (lookup key d ≡ some v)
      → lookup key (if is_flag r.key then put r.key r.value d else d) ≡ some v
  put_row r d value h = elim (Bool-cases (str_eq r.key key)) [
    | inl e ↦
        let same : r.key ≡ key = (str_eq_iff r.key key).0 e in
        let is_one : is_flag r.key ≡ true = subst (λ x. is_flag x ≡ true) (sym same) flag in
        subst (λ x. lookup key (if x then put r.key r.value d else d) ≡ some v) (sym is_one)
          (subst (λ x. lookup key (put x r.value d) ≡ some v) (sym same)
            (lookup-put key r.value d ∙ ap (λ x. some x) (value e)))
    | inr e ↦ elim h [
      | inl e' ↦ absurd (ground arith)
      | inr found ↦ elim (Bool-cases (is_flag r.key)) [
        | inl one ↦ rw one (lookup-put_other key r.key r.value d e ∙ found)
        | inr not_one ↦ rw not_one found
      ]
    ]
  ]

  overlay_keeps :
      (rows : List FeatureFlag) (d : Dict)
      → OneValue key v rows
      → lookup key d ≡ some v
      → lookup key (overlay rows d) ≡ some v
  unfolding overlay
  overlay_keeps [] d h found = found
  overlay_keeps (r ∷ rows) d h found =
      overlay_keeps rows (if is_flag r.key then put r.key r.value d else d) h.1
        (put_row r d h.0 (inr found))

  overlay_finds :
      (rows : List FeatureFlag) (d : Dict)
      → OneValue key v rows
      → any (λ r. str_eq r.key key) rows ≡ true
      → lookup key (overlay rows d) ≡ some v
  unfolding overlay
  overlay_finds [] d h found = absurd cc
  overlay_finds (r ∷ rows) d h found = elim (Bool-cases (str_eq r.key key)) [
    | inl e ↦
        overlay_keeps rows (if is_flag r.key then put r.key r.value d else d) h.1
          (put_row r d h.0 (inl e))
    | inr e ↦
        overlay_finds rows (if is_flag r.key then put r.key r.value d else d) h.1 (ground arith)
  ]

upserted :
    (key v : Str) (rows : List FeatureFlag)
    → OneValue key v (upsert key v rows) × (any (λ r. str_eq r.key key) (upsert key v rows) ≡ true)
unfolding upsert
upserted key v rows = elim (Bool-cases (any (λ r. str_eq r.key key) rows)) [
  | inl e ↦ rw e (set_all rows, still_there rows e)
  | inr e ↦ rw e (
    added rows e,
    any-append_last (λ r. str_eq r.key key) rows (record { key = key; value = v })
        (str_eq_refl key),
  )
]
  where
    set_all :
        (rs : List FeatureFlag)
        → OneValue key v (update_where (λ r. str_eq r.key key) (λ r. record r { value = v }) rs)
    set_all [] = tt
    set_all (r ∷ rs) = elim (Bool-cases (str_eq r.key key)) [
      | inl e ↦ rw e ((λ _. refl), set_all rs)
      | inr e ↦ rw e ((λ h. absurd (ground arith)), set_all rs)
    ]

    still_there :
        (rs : List FeatureFlag)
        → any (λ r. str_eq r.key key) rs ≡ true
        → any
            (λ r. str_eq r.key key)
            (update_where (λ r. str_eq r.key key) (λ r. record r { value = v }) rs)
          ≡ true
    still_there [] h = h
    still_there (r ∷ rs) h = ground (arith, still_there rs)

    added :
        (rs : List FeatureFlag)
        → any (λ r. str_eq r.key key) rs ≡ false
        → OneValue key v (rs ++ record { key = key; value = v } ∷ [])
    added [] h = ((λ _. refl), tt)
    added (r ∷ rs) h = ((λ e. absurd (ground arith)), added rs (ground arith))

choices_flag : (key : Str) (allowed : List Str) → choices key ≡ some allowed → is_flag key ≡ true
unfolding choices
choices_flag key allowed e = ground arith

accepted :
    (key v : Str) (pg : Pg) (c : Cache)
    → (update_flag key v (pg, c)).0 ≡ ok tt
    → (is_flag key ≡ true)
      × ((update_flag key v (pg, c)).1
          ≡ (record pg { flags = upsert key v pg.flags }, invalidate_cache c))
unfolding update_flag set_flag
accepted key v pg c h = elim (Option-cases (choices key)) [
  | inl e ↦ absurd (ground arith)
  | inr (allowed, e) ↦ (choices_flag key allowed e, ground arith)
]

non_empty : (key v : Str) (d : Dict) → lookup key d ≡ some v → values_or_defaults d ≡ d
unfolding lookup
non_empty key v [] h = absurd cc
non_empty key v (e ∷ d) h = refl

reloaded :
    (ttl now : ℕ) (rows : List FeatureFlag) (c : Cache)
    → ttl < now
    → (get_all_flags ttl now true (some rows) (invalidate_cache c)).0
      ≡ values_or_defaults (overlay rows defaults)
unfolding get_all_flags refresh
reloaded ttl now rows c h = let stale : ltb ttl (now - 0) ≡ true = ground arith in rw stale refl

-- The replica that accepted a new value of a flag serves it on the next read that finds the refresh
-- lock free and loads the table, if no other value of the flag has been accepted meanwhile and the
-- clock stands later than the time to live.
pub update_flag-served :
    (key v : Str) (pg : Pg) (c : Cache) (ttl now : ℕ)
    → (update_flag key v (pg, c)).0 ≡ ok tt
    → ttl < now
    → lookup key
        (get_all_flags ttl now true
          (some (update_flag key v (pg, c)).1.0.flags)
          (update_flag key v (pg, c)).1.1).0
      ≡ some v
update_flag-served key v pg c ttl now h late =
    let (flag, same) = accepted key v pg c h in
    let (one, there) = upserted key v pg.flags in
    let found = overlay_finds key v flag (upsert key v pg.flags) defaults one there in
    subst
      (λ (x : Pg × Cache). lookup key (get_all_flags ttl now true (some x.0.flags) x.1).0 ≡ some v)
      (sym same)
      (ap (lookup key) (
          reloaded ttl now (upsert key v pg.flags) c late
          ∙ non_empty key v (overlay (upsert key v pg.flags) defaults) found)
        ∙ found)
