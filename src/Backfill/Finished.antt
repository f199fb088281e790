-- ===== src/Backfill/Finished.antt =====
-- scripts/backfill.py: the job comes to its end.
use pruet_web_dev.Base.{
  ℕ, suc, ◌≤◌, ◌<◌, ◌≡◌, refl, sym, ◌∙◌, Bool, true, false, not, ◌&&◌, ◌||◌, ◌==◌, ltb, some, List,
  [], ◌∷◌, arith, any, count, length, Bool-cases, inl, inr, if◌then◌else◌,
}
use pruet_web_dev.Models.{User, Pg}
use pruet_web_dev.Backfill.{
  needs_backfill, count_remaining, run_sweep, run_sweeps, backfill_main, load_checkpoint,
}
use pruet_web_dev.Backfill.Complete.{Passed, HasFittingNames, never, sweep-Swept}

-- the ids come from a sequence that starts at 1
abbrev pub HasPositiveIds : List User → Type 0
HasPositiveIds us = count (λ u. u.id == 0) us ≡ 0

positive-Passed : (locked : ℕ → Bool) (us : List User) → HasPositiveIds us → Passed locked 0 us
unfolding Passed
positive-Passed locked [] h = refl
positive-Passed locked (u ∷ us) h = ground (arith, positive-Passed locked us)

count-le-length : (p : User → Bool) (us : List User) → count p us ≤ length us
count-le-length p [] = omega arith
count-le-length p (u ∷ us) = ground (arith, count-le-length p us)

count_all : (us : List User) → count (λ u. true) us ≡ length us
count_all [] = refl
count_all (u ∷ us) = ground (arith, count_all us)

none_remain :
    (us : List User) → any (λ u. needs_backfill u && true) us ≡ false → count needs_backfill us ≡ 0
none_remain [] h = refl
none_remain (u ∷ us) h = ground (arith, none_remain us)

-- A sweep from id 0 in which no statement times out ends, given more fuel than there are users, and
-- then every row that still lacks a name is one that another session held locked; the batch size is
-- positive, no id is 0, and no name that is filled in has more than 100 characters.
pub run_sweep-Finished :
    (locked : ℕ → Bool) (batch_size fuel : ℕ) (pg : Pg)
    → 0 < batch_size
    → HasPositiveIds pg.users
    → HasFittingNames pg.users
    → length pg.users < fuel
    → ((k : ℕ) × ((run_sweep locked never batch_size fuel 0 pg).0 ≡ some k))
      × (any
            (λ u. needs_backfill u && not (locked u.id))
            (run_sweep locked never batch_size fuel 0 pg).1.users
          ≡ false)
run_sweep-Finished locked batch_size fuel pg h ids f lt =
    let few = count-le-length (λ u. ltb 0 u.id) pg.users in
    let s = sweep-Swept locked batch_size fuel 0 pg h f (omega arith) in
    (s.returns, s.nothing_left (positive-Passed locked pg.users ids))

abbrev pub no_locks : ℕ → ℕ → Bool
no_locks n id = false

abbrev pub no_timeouts : ℕ → ℕ → Bool
no_timeouts n last_id = false

pub IsFinished : ℕ × Pg → Type 0
IsFinished r = (r.0 ≡ 0) × (count_remaining r.1 ≡ 0)

sweeps_stop :
    (n fuel rounds last_id : ℕ) (pg : Pg)
    → ((k : ℕ) × ((run_sweep (λ _. false) never n fuel last_id pg).0 ≡ some k))
    → count_remaining (run_sweep (λ _. false) never n fuel last_id pg).1 ≡ 0
    → IsFinished (run_sweeps no_locks no_timeouts n fuel (suc rounds) last_id pg)
unfolding run_sweeps IsFinished
sweeps_stop n fuel rounds last_id pg k e = rw (k.1, e) (refl, e)

sweeps_go_on :
    (n fuel rounds last_id : ℕ) (pg : Pg)
    → ((k : ℕ) × ((run_sweep (λ _. false) never n fuel last_id pg).0 ≡ some k))
    → (count_remaining (run_sweep (λ _. false) never n fuel last_id pg).1 == 0) ≡ false
    → IsFinished (
        run_sweeps no_locks no_timeouts n fuel rounds 0
          (run_sweep (λ _. false) never n fuel last_id pg).1)
    → IsFinished (run_sweeps no_locks no_timeouts n fuel (suc rounds) last_id pg)
unfolding run_sweeps
sweeps_go_on n fuel rounds last_id pg k e later = rw (k.1, e) later

first_from_zero :
    (n fuel rounds : ℕ) (pg : Pg)
    → 0 < n
    → HasPositiveIds pg.users
    → HasFittingNames pg.users
    → length pg.users < fuel
    → IsFinished (run_sweeps no_locks no_timeouts n fuel (suc rounds) 0 pg)
unfolding count_remaining
first_from_zero n fuel rounds pg h ids f lt =
    let (ends, left) = run_sweep-Finished (λ _. false) n fuel pg h ids f lt in
    sweeps_stop n fuel rounds 0 pg ends
      (none_remain (run_sweep (λ _. false) never n fuel 0 pg).1.users left)

two_sweeps :
    (n fuel rounds last_id : ℕ) (pg : Pg)
    → 0 < n
    → HasPositiveIds pg.users
    → HasFittingNames pg.users
    → length pg.users < fuel
    → IsFinished (run_sweeps no_locks no_timeouts n fuel (suc (suc rounds)) last_id pg)
two_sweeps n fuel rounds last_id pg h ids f lt =
    let pg' : Pg = (run_sweep (λ _. false) never n fuel last_id pg).1 in
    let few = count-le-length (λ u. ltb last_id u.id) pg.users in
    let s = sweep-Swept (λ _. false) n fuel last_id pg h f (omega arith) in
    let same : length pg'.users ≡ length pg.users =
      sym (count_all pg'.users) ∙ s.same_ids (λ _. true) ∙ count_all pg.users in
    elim (Bool-cases (count_remaining pg' == 0)) [
      | inl e ↦ sweeps_stop n fuel (suc rounds) last_id pg s.returns (ground arith)
      | inr e ↦ sweeps_go_on n fuel (suc rounds) last_id pg s.returns e (
          first_from_zero n fuel rounds pg' h (s.same_ids (λ i. i == 0) ∙ ids) s.names_fit
            (omega arith))
    ]

-- While no other session locks a user and no statement times out, the job ends with status 0 and no
-- user that lacks a name, wherever its checkpoint stood, for every batch size that it accepts and more
-- fuel than there are users; no id is 0, and no name that is filled in has more than 100 characters.
pub backfill_main-Finished :
    (restart : Bool) (batch_size fuel : ℕ) (pg : Pg)
    → 1 ≤ batch_size
    → batch_size ≤ 500
    → HasPositiveIds pg.users
    → HasFittingNames pg.users
    → length pg.users < fuel
    → IsFinished (backfill_main false restart no_locks no_timeouts batch_size fuel pg)
unfolding backfill_main
backfill_main-Finished restart batch_size fuel pg low high ids f lt =
    let first : ℕ = if restart then 0 else (load_checkpoint pg).0 in
    let done = two_sweeps batch_size fuel 3 first pg (omega arith) ids f lt in
    let in_range : ltb batch_size 1 || ltb 500 batch_size ≡ false = ground arith in rw in_range done
