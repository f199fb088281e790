-- ===== src/Backfill/Complete.antt =====
-- scripts/backfill.py: a sweep ends, and what it leaves.
use pruet_web_dev.Base.{
  ℕ, zero, suc, ◌≤◌, ◌<◌, ◌≡◌, refl, subst, sym, ap, ◌∙◌, Bool, true, false, not, ◌&&◌, ◌==◌, ltb,
  leb, Option, none, some, List, [], ◌∷◌, arith, any, count, length, filter, take, update_where,
  Bool-cases, is_some, inl, inr, if◌then◌else◌,
}
use pruet_web_dev.Base.Sorting.{sort}
use pruet_web_dev.Base.SortingLaws.{length-sort, any-sort, any-take, any-filter}
use pruet_web_dev.Base.Membership.{In, any-In}
use pruet_web_dev.Text.{Str}
use pruet_web_dev.Models.{User, Pg}
use pruet_web_dev.Backfill.{
  names_for, coalesce, needs_backfill, fill_names, select_batch, last_row_id, run_batch,
  migrate_batch, overflows, run_sweep, save_checkpoint,
}
use pruet_web_dev.Backfill.Cursor.{by_id, waits, batch_reached, batch_above, last_row_of}

-- the rows after a batch
batch_rows : List User → List User → List User
batch_rows rows us =
    update_where (λ v. any (λ r. r.id == v.id) rows && needs_backfill v) fill_names us

migrate_batch_none :
    (locked : ℕ → Bool) (last_id n : ℕ) (pg : Pg)
    → select_batch locked last_id n pg.users ≡ []
    → migrate_batch locked last_id n pg ≡ ((0, last_id, 0), pg)
unfolding migrate_batch
migrate_batch_none locked last_id n pg e = rw (e, migrate_batch) refl

migrate_batch_some :
    (locked : ℕ → Bool) (last_id n : ℕ) (pg : Pg) (u : User) (us : List User)
    → select_batch locked last_id n pg.users ≡ u ∷ us
    → ((migrate_batch locked last_id n pg).0
        ≡ (length (u ∷ us), last_row_id last_id (u ∷ us), length (u ∷ us)))
      × ((migrate_batch locked last_id n pg).1.users ≡ batch_rows (u ∷ us) pg.users)
unfolding migrate_batch save_checkpoint batch_rows
migrate_batch_some locked last_id n pg u us e =
    (rw (e, migrate_batch) refl, rw (e, migrate_batch) refl)

is_some-coalesce : (o : Option Str) (s : Str) → is_some (coalesce o s) ≡ true
is_some-coalesce none s = refl
is_some-coalesce (some t) s = refl

fill_names_done : (u : User) → needs_backfill (fill_names u) ≡ false
unfolding fill_names
fill_names_done u =
    let (first, last) = names_for u.full_name u.first_name u.last_name in
    rw (is_some-coalesce u.first_name first, is_some-coalesce u.last_name last) refl

fill_names_id : (u : User) → (fill_names u).id ≡ u.id
unfolding fill_names
fill_names_id u = refl

-- no row overflows its columns when its name is filled in
abbrev pub HasFittingNames : List User → Type 0
HasFittingNames us = any (λ u. overflows (fill_names u)) us ≡ false

-- no statement runs into a timeout
abbrev pub never : ℕ → Bool
never last_id = false

coalesce_twice : (o : Option Str) (s t : Str) → coalesce (coalesce o s) t ≡ coalesce o s
coalesce_twice none s t = refl
coalesce_twice (some r) s t = refl

fill_names_twice : (u : User) → overflows (fill_names (fill_names u)) ≡ overflows (fill_names u)
unfolding fill_names overflows
fill_names_twice u =
    let (first, last) = names_for u.full_name u.first_name u.last_name in
    let v : User = record u {
      first_name = coalesce u.first_name first;
      last_name = coalesce u.last_name last;
    } in
    let (first', last') = names_for v.full_name v.first_name v.last_name in
    rw (coalesce_twice u.first_name first first', coalesce_twice u.last_name last last') refl

batch_rows-HasFittingNames :
    (rows us : List User) → HasFittingNames us → HasFittingNames (batch_rows rows us)
unfolding batch_rows
batch_rows-HasFittingNames rows [] h = refl
batch_rows-HasFittingNames rows (u ∷ us) h =
    ground (arith, batch_rows-HasFittingNames rows us, fill_names_twice u)

-- a batch that meets no timeout and no row that overflows commits
run_batch_commits :
    (locked : ℕ → Bool) (last_id n : ℕ) (pg : Pg)
    → HasFittingNames pg.users
    → run_batch locked false last_id n pg
      ≡ (some (migrate_batch locked last_id n pg).0, (migrate_batch locked last_id n pg).1)
unfolding run_batch select_batch
run_batch_commits locked last_id n pg h =
    let q : User → Bool = λ u. overflows (fill_names u) in
    let rows : List User = filter (waits locked last_id) pg.users in
    elim (Bool-cases (any q (take n (sort by_id rows)))) [
      | inr e ↦ rw e refl
      | inl e ↦
          let sorted = any-take q n (sort by_id rows) e in
          let same = any-sort by_id q rows in
          let chosen = any-filter q (waits locked last_id) pg.users h in absurd cc
    ]

-- a batch keeps the ids
count-batch_rows :
    (q : ℕ → Bool) (rows us : List User)
    → count (λ u. q u.id) (batch_rows rows us) ≡ count (λ u. q u.id) us
unfolding batch_rows
count-batch_rows q rows [] = refl
count-batch_rows q rows (u ∷ us) = ground (arith, count-batch_rows q rows us, fill_names_id u)

-- no waiting row at or below the cursor
unfoldable pub Passed : (ℕ → Bool) → ℕ → List User → Type 0
Passed locked last_id us =
    any (λ u. leb u.id last_id && (needs_backfill u && not (locked u.id))) us ≡ false

passed : (ℕ → Bool) → ℕ → User → Bool
passed locked last_id u = leb u.id last_id && (needs_backfill u && not (locked u.id))

updated_in : List User → User → User
updated_in rows v = if any (λ r. r.id == v.id) rows && needs_backfill v then fill_names v else v

row_settled :
    (locked : ℕ → Bool) (last_id n : ℕ) (us rows : List User) (v : User)
    → select_batch locked last_id n us ≡ rows
    → Passed locked last_id us
    → In v us
    → passed locked (last_row_id last_id rows) (updated_in rows v) ≡ false
unfolding passed updated_in Passed
row_settled locked last_id n us rows v same h i =
    elim (Bool-cases (any (λ r. r.id == v.id) rows && needs_backfill v)) [
      | inl e ↦ let done = fill_names_done v in rw e (rw done (ground arith))
      | inr e ↦ rw e (elim (Bool-cases (needs_backfill v && not (locked v.id))) [
        | inr quiet ↦ rw quiet (ground arith)
        | inl due ↦ elim (Bool-cases (leb v.id last_id)) [
          | inl low ↦
              let hit : any (passed locked last_id) us ≡ true =
                any-In (passed locked last_id) v us i (ground arith) in
              absurd (ground arith)
          | inr high ↦ elim (Bool-cases (leb v.id (last_row_id last_id rows))) [
            | inr above ↦ ground arith
            | inl below ↦
                let hit : any (λ r. r.id == v.id) rows ≡ true =
                  subst (λ x. v.id ≤ last_row_id last_id x → any (λ r. r.id == v.id) x ≡ true) same
                    (batch_reached locked last_id n us v i (ground arith)) (ground arith) in
                absurd (ground arith)
          ]
        ]
      ])
    ]

any-batch_rows :
    (q : User → Bool) (rows vs : List User)
    → ((v : User) → In v vs → q (updated_in rows v) ≡ false)
    → any q (batch_rows rows vs) ≡ false
unfolding batch_rows updated_in
any-batch_rows q rows [] h = refl
any-batch_rows q rows (v ∷ vs) h =
    let rest = any-batch_rows q rows vs (λ w i. h w (inr i)) in
    let head = h v (inl refl) in rw head rest

fewer_above :
    (l m : ℕ) (us : List User) → l ≤ m → count (λ u. ltb m u.id) us ≤ count (λ u. ltb l u.id) us
fewer_above l m [] h = omega arith
fewer_above l m (u ∷ us) h = let rest = fewer_above l m us h in ground arith

-- the cursor moves past the id of a row
count_above :
    (l m : ℕ) (us : List User)
    → l < m
    → any (λ u. u.id == m) us ≡ true
    → count (λ u. ltb m u.id) us < count (λ u. ltb l u.id) us
count_above l m [] h i = absurd cc
count_above l m (u ∷ us) h i = elim (Bool-cases (u.id == m)) [
  | inl e ↦ let rest = fewer_above l m us (omega arith) in ground arith
  | inr e ↦ let rest = count_above l m us h (ground arith) in ground arith
]

take_none : (n : ℕ) (xs : List User) → 0 < n → take n xs ≡ [] → length xs ≡ 0
take_none zero xs h e = absurd (ground arith)
take_none (suc n) [] h e = refl
take_none (suc n) (x ∷ xs) h e = absurd cc

length-filter-any : (p : User → Bool) (us : List User) → any p us ≡ true → 0 < length (filter p us)
length-filter-any p [] h = absurd cc
length-filter-any p (u ∷ us) h = ground (arith, length-filter-any p us)

no_row_waits :
    (locked : ℕ → Bool) (last_id n : ℕ) (us : List User)
    → 0 < n
    → select_batch locked last_id n us ≡ []
    → any (waits locked last_id) us ≡ false
unfolding select_batch
no_row_waits locked last_id n us h e = elim (Bool-cases (any (waits locked last_id) us)) [
  | inl some_wait ↦
      let empty = take_none n (sort by_id (filter (waits locked last_id) us)) h e in
      let same = length-sort by_id (filter (waits locked last_id) us) in
      let positive = length-filter-any (waits locked last_id) us some_wait in absurd (omega arith)
  | inr none_wait ↦ none_wait
]

-- what a sweep that returns has done
pub record Swept (locked : ℕ → Bool) (last_id : ℕ) (pg pg' : Pg) (result : Option ℕ) : Type 0 where
  pub returns : (k : ℕ) × (result ≡ some k)
  pub nothing_left :
      Passed locked last_id pg.users
      → any (λ u. needs_backfill u && not (locked u.id)) pg'.users ≡ false
  pub names_fit : HasFittingNames pg'.users
  pub same_ids : (q : ℕ → Bool) → count (λ u. q u.id) pg'.users ≡ count (λ u. q u.id) pg.users

sweep_stops :
    (locked : ℕ → Bool) (n fuel last_id : ℕ) (pg : Pg)
    → HasFittingNames pg.users
    → select_batch locked last_id n pg.users ≡ []
    → run_sweep locked never n (suc fuel) last_id pg ≡ (some last_id, pg)
unfolding run_sweep
sweep_stops locked n fuel last_id pg f e =
    rw (run_batch_commits locked last_id n pg f, migrate_batch_none locked last_id n pg e) refl

sweep_goes_on :
    (locked : ℕ → Bool) (n fuel last_id : ℕ) (pg : Pg) (u : User) (us : List User)
    → HasFittingNames pg.users
    → select_batch locked last_id n pg.users ≡ u ∷ us
    → run_sweep locked never n (suc fuel) last_id pg
      ≡ run_sweep locked never n fuel
          (last_row_id last_id (u ∷ us))
          (migrate_batch locked last_id n pg).1
unfolding run_sweep
sweep_goes_on locked n fuel last_id pg u us f e =
    let (counts, rows) = migrate_batch_some locked last_id n pg u us e in
    rw (run_batch_commits locked last_id n pg f, counts) (ground arith)

split_by_cursor :
    (locked : ℕ → Bool) (last_id : ℕ) (us : List User)
    → any (waits locked last_id) us ≡ false
    → Passed locked last_id us
    → any (λ u. needs_backfill u && not (locked u.id)) us ≡ false
unfolding Passed
split_by_cursor locked last_id [] h p = refl
split_by_cursor locked last_id (u ∷ us) h p = ground (arith, split_by_cursor locked last_id us)

-- a batch with rows leaves fewer rows above the cursor
batch_fewer :
    (locked : ℕ → Bool) (last_id n : ℕ) (pg : Pg) (u : User) (us : List User)
    → select_batch locked last_id n pg.users ≡ u ∷ us
    → count
        (λ v. ltb (last_row_id last_id (u ∷ us)) v.id)
        (migrate_batch locked last_id n pg).1.users
      < count (λ v. ltb last_id v.id) pg.users
batch_fewer locked last_id n pg u us e =
    let (counts, rows) = migrate_batch_some locked last_id n pg u us e in
    let last' : ℕ = last_row_id last_id (u ∷ us) in
    let (above, is_row) =
      batch_above locked last_id n last' pg.users
        (subst (λ x. any (λ v. v.id == last') x ≡ true) (sym e) (last_row_of last_id u us)) in
    let fewer = count_above last_id last' pg.users above is_row in
    rw (rows, count-batch_rows (ltb last') (u ∷ us) pg.users) fewer

-- a batch and a sweep after it are a sweep
batch_then :
    (locked : ℕ → Bool) (last_id n : ℕ) (pg pg'' : Pg) (result : Option ℕ) (u : User)
    (us : List User)
    → select_batch locked last_id n pg.users ≡ u ∷ us
    → Swept locked (last_row_id last_id (u ∷ us)) (migrate_batch locked last_id n pg).1 pg'' result
    → Swept locked last_id pg pg'' result
unfolding Passed passed
batch_then locked last_id n pg pg'' result u us e s =
    let (counts, rows) = migrate_batch_some locked last_id n pg u us e in
    record {
      returns = s.returns;
      nothing_left = λ p. s.nothing_left (
          subst (λ x. Passed locked (last_row_id last_id (u ∷ us)) x) (sym rows)
            (any-batch_rows (passed locked (last_row_id last_id (u ∷ us))) (u ∷ us) pg.users
              (λ v i. row_settled locked last_id n pg.users (u ∷ us) v e p i)));
      names_fit = s.names_fit;
      same_ids =
          λ q. s.same_ids q ∙ ap (count (λ v. q v.id)) rows ∙ count-batch_rows q (u ∷ us) pg.users;
    }

pub sweep-Swept :
    (locked : ℕ → Bool) (n fuel last_id : ℕ) (pg : Pg)
    → 0 < n
    → HasFittingNames pg.users
    → count (λ u. ltb last_id u.id) pg.users < fuel
    → Swept locked last_id pg
        (run_sweep locked never n fuel last_id pg).1
        (run_sweep locked never n fuel last_id pg).0
sweep-Swept locked n zero last_id pg h f lt = absurd (omega arith)
sweep-Swept locked n (suc fuel) last_id pg h f lt =
    by_batch (select_batch locked last_id n pg.users) refl
      (λ last' pg'. sweep-Swept locked n fuel last' pg' h)
  where
    still_fits :
        (u : User) (us : List User)
        → select_batch locked last_id n pg.users ≡ u ∷ us
        → HasFittingNames (migrate_batch locked last_id n pg).1.users
    still_fits u us e =
        let (counts, rows) = migrate_batch_some locked last_id n pg u us e in
        rw rows (batch_rows-HasFittingNames (u ∷ us) pg.users f)

    by_batch :
        (rows : List User)
        → select_batch locked last_id n pg.users ≡ rows
        → ((last' : ℕ) (pg' : Pg)
            → HasFittingNames pg'.users
            → count (λ u. ltb last' u.id) pg'.users < fuel
            → Swept locked last' pg'
                (run_sweep locked never n fuel last' pg').1
                (run_sweep locked never n fuel last' pg').0)
        → Swept locked last_id pg
            (run_sweep locked never n (suc fuel) last_id pg).1
            (run_sweep locked never n (suc fuel) last_id pg).0
    by_batch [] e later =
        subst (λ r. Swept locked last_id pg r.1 r.0)
          (sym (sweep_stops locked n fuel last_id pg f e))
          (record {
            returns = (last_id, refl);
            nothing_left =
                split_by_cursor locked last_id pg.users
                  (no_row_waits locked last_id n pg.users h e);
            names_fit = f;
            same_ids = λ q. refl;
          })
    by_batch (u ∷ us) e later =
        subst (λ r. Swept locked last_id pg r.1 r.0)
          (sym (sweep_goes_on locked n fuel last_id pg u us f e))
          (let fewer = batch_fewer locked last_id n pg u us e in
            batch_then locked last_id n pg
              (run_sweep locked never n fuel (last_row_id last_id (u ∷ us))
                (migrate_batch locked last_id n pg).1).1
              (run_sweep locked never n fuel (last_row_id last_id (u ∷ us))
                (migrate_batch locked last_id n pg).1).0
              u us e
              (later (last_row_id last_id (u ∷ us)) (migrate_batch locked last_id n pg).1
                (still_fits u us e) (omega arith)))
