-- ===== src/Backfill/Kept.antt =====
-- scripts/backfill.py: what the job does to the users, however it is cut short.
use pruet_web_dev.Base.{
  ℕ, zero, suc, ◌≡◌, refl, ap, ◌∙◌, Bool, true, false, ◌&&◌, ◌||◌, ◌==◌, ltb, Option, none, some,
  List, [], ◌∷◌, any, update_where, Bool-cases, inl, inr, if◌then◌else◌,
}
use pruet_web_dev.Text.{Str}
use pruet_web_dev.Models.{User, Pg}
use pruet_web_dev.Backfill.{
  needs_backfill, names_for, coalesce, fill_names, select_batch, run_batch, migrate_batch,
  overflows, after_batch, after_sweep, run_sweep, run_sweeps, backfill_main, count_remaining,
  load_checkpoint, max_sweeps, save_checkpoint,
}

-- the same account, with no stored part of its name changed
pub record IsKept (u v : User) : Type 0 where
  pub first_kept : (s : Str) → u.first_name ≡ some s → v.first_name ≡ some s
  pub last_kept : (s : Str) → u.last_name ≡ some s → v.last_name ≡ some s
  pub rest_same : v ≡ record u { first_name = v.first_name; last_name = v.last_name }

-- the same accounts in the same order
pub AreKept : List User → List User → Type 0
AreKept [] [] = Unit {0}
AreKept (u ∷ us) (v ∷ vs) = IsKept u v × AreKept us vs
AreKept _ _ = ⊥

same-IsKept : (u : User) → IsKept u u
same-IsKept u = record { first_kept = λ s e. e; last_kept = λ s e. e; rest_same = refl }

then-IsKept : (u v w : User) → IsKept u v → IsKept v w → IsKept u w
then-IsKept u v w h k = record {
  first_kept = λ s e. k.first_kept s (h.first_kept s e);
  last_kept = λ s e. k.last_kept s (h.last_kept s e);
  rest_same =
      k.rest_same
      ∙ ap (λ (x : User). record x { first_name = w.first_name; last_name = w.last_name })
          h.rest_same;
}

coalesce-some : (o : Option Str) (s t : Str) → o ≡ some s → coalesce o t ≡ some s
coalesce-some o s t e = rw e refl

fill_names-IsKept : (u : User) → IsKept u (fill_names u)
unfolding fill_names
fill_names-IsKept u =
    let (first, last) = names_for u.full_name u.first_name u.last_name in
    record {
      first_kept = λ s e. coalesce-some u.first_name s first e;
      last_kept = λ s e. coalesce-some u.last_name s last e;
      rest_same = refl;
    }

same-AreKept : (us : List User) → AreKept us us
unfolding AreKept
same-AreKept [] = tt
same-AreKept (u ∷ us) = (same-IsKept u, same-AreKept us)

then-AreKept : (us vs ws : List User) → AreKept us vs → AreKept vs ws → AreKept us ws
unfolding AreKept
then-AreKept [] [] ws h k = k
then-AreKept (u ∷ us) (v ∷ vs) [] h k = absurd k
then-AreKept (u ∷ us) (v ∷ vs) (w ∷ ws) h k =
    (then-IsKept u v w h.0 k.0, then-AreKept us vs ws h.1 k.1)
then-AreKept [] (v ∷ vs) ws h k = absurd h
then-AreKept (u ∷ us) [] ws h k = absurd h

update_where-AreKept :
    (p : User → Bool) (us : List User) → AreKept us (update_where p fill_names us)
unfolding AreKept
update_where-AreKept p [] = tt
update_where-AreKept p (u ∷ us) = elim (Bool-cases (p u)) [
  | inl e ↦ rw e (fill_names-IsKept u, update_where-AreKept p us)
  | inr e ↦ rw e (same-IsKept u, update_where-AreKept p us)
]

migrate_batch-AreKept :
    (locked : ℕ → Bool) (last_id n : ℕ) (pg : Pg)
    → AreKept pg.users (migrate_batch locked last_id n pg).1.users
unfolding migrate_batch save_checkpoint
migrate_batch-AreKept locked last_id n pg = by_rows (select_batch locked last_id n pg.users) refl
  where
    by_rows :
        (rows : List User)
        → select_batch locked last_id n pg.users ≡ rows
        → AreKept pg.users (migrate_batch locked last_id n pg).1.users
    by_rows [] e = rw (e, migrate_batch) (same-AreKept pg.users)
    by_rows (r ∷ rs) e =
        rw (e, migrate_batch)
          (update_where-AreKept (λ v. any (λ w. w.id == v.id) (r ∷ rs) && needs_backfill v)
            pg.users)

-- either of two outcomes
either-AreKept :
    {A : Type 0} (b : Bool) (us : List User) (x y : A × Pg)
    → AreKept us x.1.users
    → AreKept us y.1.users
    → AreKept us (if b then x else y).1.users
either-AreKept true us x y h k = h
either-AreKept false us x y h k = k

run_batch-AreKept :
    (locked : ℕ → Bool) (timeout : Bool) (last_id n : ℕ) (pg : Pg)
    → AreKept pg.users (run_batch locked timeout last_id n pg).1.users
unfolding run_batch
run_batch-AreKept locked timeout last_id n pg =
    let (counts, pg') = migrate_batch locked last_id n pg in
    either-AreKept
      (timeout || any (λ u. overflows (fill_names u)) (select_batch locked last_id n pg.users))
      pg.users (none, pg) (some counts, pg') (same-AreKept pg.users)
      (migrate_batch-AreKept locked last_id n pg)

after_batch-AreKept :
    (us : List User) (r : Option (ℕ × ℕ × ℕ) × Pg) (go_on : ℕ → Pg → Option ℕ × Pg)
    → AreKept us r.1.users
    → ((k : ℕ) → AreKept r.1.users (go_on k r.1).1.users)
    → AreKept us (after_batch r go_on).1.users
after_batch-AreKept us (none, pg) go_on h k = h
after_batch-AreKept us (some counts, pg) go_on h k =
    either-AreKept (counts.2 == 0) us (some counts.1, pg) (go_on counts.1 pg) h
      (then-AreKept us pg.users (go_on counts.1 pg).1.users h (k counts.1))

run_sweep-AreKept :
    (locked timeout : ℕ → Bool) (n fuel last_id : ℕ) (pg : Pg)
    → AreKept pg.users (run_sweep locked timeout n fuel last_id pg).1.users
unfolding run_sweep
run_sweep-AreKept locked timeout n zero last_id pg = same-AreKept pg.users
run_sweep-AreKept locked timeout n (suc fuel) last_id pg =
    after_batch-AreKept pg.users (run_batch locked (timeout last_id) last_id n pg)
      (λ k pg'. run_sweep locked timeout n fuel k pg')
      (run_batch-AreKept locked (timeout last_id) last_id n pg)
      (λ k.
        run_sweep-AreKept locked timeout n fuel k
          (run_batch locked (timeout last_id) last_id n pg).1)

after_sweep-AreKept :
    (us : List User) (r : Option ℕ × Pg) (go_on : Pg → ℕ × Pg)
    → AreKept us r.1.users
    → AreKept r.1.users (go_on r.1).1.users
    → AreKept us (after_sweep r go_on).1.users
after_sweep-AreKept us (none, pg) go_on h k = h
after_sweep-AreKept us (some last, pg) go_on h k =
    either-AreKept (count_remaining pg == 0) us (0, pg) (go_on pg) h
      (then-AreKept us pg.users (go_on pg).1.users h k)

run_sweeps-AreKept :
    (locks timeouts : ℕ → ℕ → Bool) (n fuel rounds last_id : ℕ) (pg : Pg)
    → AreKept pg.users (run_sweeps locks timeouts n fuel rounds last_id pg).1.users
unfolding run_sweeps
run_sweeps-AreKept locks timeouts n fuel zero last_id pg = same-AreKept pg.users
run_sweeps-AreKept locks timeouts n fuel (suc rounds) last_id pg =
    let r : Option ℕ × Pg = run_sweep (locks rounds) (timeouts rounds) n fuel last_id pg in
    after_sweep-AreKept pg.users r (λ pg'. run_sweeps locks timeouts n fuel rounds 0 pg')
      (run_sweep-AreKept (locks rounds) (timeouts rounds) n fuel last_id pg)
      (run_sweeps-AreKept locks timeouts n fuel rounds 0 r.1)

-- The job keeps every account in its place and changes none but in a part of the name that was not
-- stored, whatever its arguments, the rows that others lock and the
-- statements that time out.
pub backfill_main-AreKept :
    (dry_run restart : Bool) (locks timeouts : ℕ → ℕ → Bool) (batch_size fuel : ℕ) (pg : Pg)
    → AreKept pg.users (backfill_main dry_run restart locks timeouts batch_size fuel pg).1.users
unfolding backfill_main
backfill_main-AreKept dry_run restart locks timeouts batch_size fuel pg =
    let first : ℕ = if restart then 0 else (load_checkpoint pg).0 in
    either-AreKept (ltb batch_size 1 || ltb 500 batch_size) pg.users (2, pg)
      (if dry_run then (0, pg) else run_sweeps locks timeouts batch_size fuel max_sweeps first pg)
      (same-AreKept pg.users)
      (either-AreKept dry_run pg.users (0, pg)
        (run_sweeps locks timeouts batch_size fuel max_sweeps first pg) (same-AreKept pg.users)
        (run_sweeps-AreKept locks timeouts batch_size fuel max_sweeps first pg))
