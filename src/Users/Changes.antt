-- ===== src/Users/Changes.antt =====
-- app/services/user_service.py: what update_user leaves of the unique columns.
use pruet_web_dev.Base.{
  ◌⊎◌, ℕ, ◌≡◌, refl, subst, sym, ap, ◌∙◌, Bool, true, false, not, ◌&&◌, Option, none, some, List,
  [], ◌∷◌, ◌==◌, arith, any, All, find?, update_where, Bool-cases, Option-cases, inl, inr,
}
use pruet_web_dev.Base.Distinct.{Distinct, found_alone, All-map}
use pruet_web_dev.Base.Rows.{find?_passes}
use pruet_web_dev.Text.{Str, str_eq, str_eq_iff}
use pruet_web_dev.Models.{User, Pg}
use pruet_web_dev.Users.Accounts.{
  UserUpdate, Settings, update_user, email_taken, new_email, stamp, write_names,
}
use pruet_web_dev.Users.Registration.{same_email, same_username, UniqueAccounts}

abbrev pub same_id : User → User → Bool
same_id v u = v.id == u.id

-- the row with a key is replaced, and the new row has the other key of no other row
module _ (same : User → User → Bool) (k : ℕ) (new : User) where
  abbrev IsApart : User → Type 0
  IsApart x = (x.id == k) ≡ false → (same x new ≡ false) × (same new x ≡ false)

  none_replaced :
      (y : User) (us : List User)
      → (same new y ≡ false)
      → any (λ z. same z y) us ≡ false
      → any (λ z. same z y) (update_where (λ v. v.id == k) (λ v. new) us) ≡ false
  none_replaced y [] h d = refl
  none_replaced y (z ∷ us) h d = ground (arith, none_replaced y us h)

  none_other :
      (us : List User)
      → any (λ v. v.id == k) us ≡ false
      → All IsApart us
      → any (λ z. same z new) (update_where (λ v. v.id == k) (λ v. new) us) ≡ false
  none_other [] h apart = refl
  none_other (z ∷ us) h apart =
      let other : (z.id == k) ≡ false = ground arith in
      let (here, there) = apart.0 other in
      let rest = none_other us (ground arith) apart.1 in ground arith

  others_left :
      (us : List User)
      → any (λ v. v.id == k) us ≡ false
      → update_where (λ v. v.id == k) (λ v. new) us ≡ us
  others_left [] h = refl
  others_left (z ∷ us) h =
      let other : (z.id == k) ≡ false = ground arith in
      rw other (ap (λ t. z ∷ t) (others_left us (ground arith)))

  replace-Distinct :
      (us : List User)
      → Distinct same us
      → Distinct same_id us
      → All IsApart us
      → Distinct same (update_where (λ v. v.id == k) (λ v. new) us)
  replace-Distinct [] d ids apart = tt
  replace-Distinct (y ∷ us) d ids apart = elim (Bool-cases (y.id == k)) [
    | inl e ↦
        let same_key : y.id ≡ k = ground arith in
        let alone : any (λ v. v.id == k) us ≡ false =
          subst (λ j. any (λ v. v.id == j) us ≡ false) same_key ids.0 in
        rw e (none_other us alone apart.1, subst (Distinct same) (sym (others_left us alone)) d.1)
    | inr e ↦
        let (here, there) = apart.0 e in
        rw e (none_replaced y us there d.0, replace-Distinct us d.1 ids.1 apart.1)
  ]

same_email_swap : (u v : User) → same_email u v ≡ true → same_email v u ≡ true
same_email_swap u v e = (str_eq_iff u.email v.email).1 (sym ((str_eq_iff v.email u.email).0 e))

same_username_swap : (u v : User) → same_username u v ≡ true → same_username v u ≡ true
same_username_swap u v e =
    (str_eq_iff u.username v.username).1 (sym ((str_eq_iff v.username u.username).0 e))

-- the user with an id is alone with its key, so every other row is apart from a row of that key
found_IsApart :
    (same : User → User → Bool) (swap : (u v : User) → same u v ≡ true → same v u ≡ true) (k : ℕ)
    (u new : User) (us : List User)
    → ((x : User) → same x new ≡ true → same x u ≡ true)
    → Distinct same us
    → find? (λ v. v.id == k) us ≡ some u
    → All (IsApart same k new) us
found_IsApart same swap k u new us keeps d found =
    All-map (λ x. same x u ≡ true → x ≡ u) (IsApart same k new) us apart
      (found_alone same swap (λ v. v.id == k) us u d found)
  where
    no_match : (x : User) → (same x u ≡ true → x ≡ u) → (x.id == k) ≡ false → same x new ≡ true → ⊥
    no_match x alone other e =
        let is_u : x ≡ u = alone (keeps x e) in
        let hit : (u.id == k) ≡ true = find?_passes (λ v. v.id == k) us u found in
        let miss : (u.id == k) ≡ false = subst (λ (y : User). (y.id == k) ≡ false) is_u other in
        ground arith

    apart : (x : User) → (same x u ≡ true → x ≡ u) → IsApart same k new x
    apart x alone other = (
      elim (Bool-cases (same x new)) [ inl e ↦ absurd (no_match x alone other e) | inr e ↦ e ],
      elim (Bool-cases (same new x)) [
        | inl e ↦ absurd (no_match x alone other (swap new x e))
        | inr e ↦ e
      ],
    )

written_keys :
    (s : Settings) (now : ℕ) (user_in : UserUpdate) (old u : User)
    → ((stamp now old (write_names s user_in u)).email ≡ u.email)
      × ((stamp now old (write_names s user_in u)).username ≡ u.username)
unfolding write_names
written_keys s now user_in old u = (ground arith, ground arith)

-- the email of the change is that of the account, or it was found in use by no other
email_branches :
    (e : Option Str) (u : User) (rows : List User)
    → email_taken e u rows ≡ false
    → (new_email e u ≡ u.email)
      ⊎ (any (λ v. str_eq v.email (new_email e u) && not (v.id == u.id)) rows ≡ false)
email_branches none u rows h = inl refl
email_branches (some e) u rows h = elim (Bool-cases (str_eq e u.email)) [
  | inl same ↦ inl ((str_eq_iff e u.email).0 same)
  | inr other ↦ inr (ground arith)
]

free_IsApart :
    (k : ℕ) (new : User) (rows : List User)
    → any (λ v. str_eq v.email new.email && not (v.id == k)) rows ≡ false
    → All (IsApart same_email k new) rows
free_IsApart k new [] h = tt
free_IsApart k new (v ∷ rows) h =
    ((λ other. apart (ground arith)), free_IsApart k new rows (ground arith))
  where
    apart :
        str_eq v.email new.email ≡ false → (same_email v new ≡ false) × (same_email new v ≡ false)
    apart miss = (
      elim (Bool-cases (same_email v new)) [
        | inl e ↦ let hit = same_email_swap v new e in absurd (ground arith)
        | inr e ↦ e
      ],
      miss,
    )

update_branches :
    (s : Settings) (now k : ℕ) (user_in : UserUpdate) (pg : Pg)
    → ((update_user s now k user_in pg).1 ≡ pg)
      ⊎ ((u : User) × (find? (λ v. v.id == k) pg.users ≡ some u)
          × (email_taken user_in.email u pg.users ≡ false)
          × ((update_user s now k user_in pg).1.users
              ≡ update_where
                  (λ v. v.id == k)
                  (λ v.
                    stamp now u
                      (write_names s user_in (record u { email = new_email user_in.email u })))
                  pg.users))
unfolding update_user
update_branches s now k user_in pg = elim (Option-cases (find? (λ v. v.id == k) pg.users)) [
  | inl e ↦ inl (rw (e, update_user) refl)
  | inr (u, e) ↦ elim (Bool-cases (email_taken user_in.email u pg.users)) [
    | inl taken ↦ inl (rw (e, taken, update_user) refl)
    | inr free ↦ inr (u, e, free, rw (e, free, update_user) refl)
  ]
]

-- A change of an account, accepted or refused, leaves no two accounts with one email or one username,
-- if there were none before and no two accounts have one id.
pub update_user-UniqueAccounts :
    (s : Settings) (now k : ℕ) (user_in : UserUpdate) (pg : Pg)
    → UniqueAccounts pg
    → Distinct same_id pg.users
    → UniqueAccounts (update_user s now k user_in pg).1
update_user-UniqueAccounts s now k user_in pg unique ids =
    elim (update_branches s now k user_in pg) [
      | inl same ↦ rw same unique
      | inr (u, found, free, users) ↦
          let new : User =
            stamp now u (write_names s user_in (record u { email = new_email user_in.email u })) in
          let (email, username) =
            written_keys s now user_in u (record u { email = new_email user_in.email u }) in
          let is_k : u.id ≡ k = ground (arith, find?_passes (λ v. v.id == k) pg.users u found) in
          let emails : All (IsApart same_email k new) pg.users =
            elim (email_branches user_in.email u pg.users free) [
              | inl same ↦
                  found_IsApart same_email same_email_swap k u new pg.users
                    (λ x.
                      subst (λ y. str_eq y x.email ≡ true → str_eq u.email x.email ≡ true)
                        (sym (email ∙ same)) (λ e. e))
                    unique.0 found
              | inr none_has ↦ free_IsApart k new pg.users (
                  subst (λ y. any (λ v. str_eq v.email y && not (v.id == k)) pg.users ≡ false)
                    (sym email)
                    (subst
                      (λ j.
                        any (λ v. str_eq v.email (new_email user_in.email u) && not (v.id == j))
                          pg.users
                        ≡ false)
                      is_k none_has))
            ] in
          let usernames : All (IsApart same_username k new) pg.users =
            found_IsApart same_username same_username_swap k u new pg.users
              (λ x.
                subst (λ y. str_eq y x.username ≡ true → str_eq u.username x.username ≡ true)
                  (sym username) (λ e. e))
              unique.1 found in
          rw users (
            replace-Distinct same_email k new pg.users unique.0 ids emails,
            replace-Distinct same_username k new pg.users unique.1 ids usernames,
          )
    ]
