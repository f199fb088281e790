-- ===== src/Outbox/Retention.antt =====
-- app/services/outbox_worker.py: what purge_processed_outbox_events leaves alone.
use pruet_web_dev.Base.{
  ℕ, zero, suc, ◌-◌, ◌*◌, ◌≡◌, sym, subst, Bool, true, false, not, ◌&&◌, List, [], ◌∷◌, ◌==◌, ltb,
  arith, All, filter, inl, inr, Bool-cases,
}
use pruet_web_dev.Base.Membership.{In, filter-In}
use pruet_web_dev.Base.Distinct.{Distinct}
use pruet_web_dev.Base.SortingLaws.{any-filter}
use pruet_web_dev.Base.Claims.{claims_only}
use pruet_web_dev.Models.{OutboxEvent, Pg}
use pruet_web_dev.Outbox.{
  is_processed, older, in_rows, claim_rows, purge, purge_processed_outbox_events, seconds_per_day,
}
use pruet_web_dev.Integrity.Services.{batches_keep}

-- no two rows of the outbox have one id
abbrev pub DistinctRows : List OutboxEvent → Type 0
DistinctRows = Distinct (λ (r s : OutboxEvent). r.id == s.id)

-- a row that the purge is for
abbrev pub is_old : ℕ → OutboxEvent → Bool
is_old before r = is_processed r.status && ltb r.created_at before

All-In : {A : Type 0} (P : A → Type 0) (x : A) (xs : List A) → All P xs → In x xs → P x
All-In P x [] h i = absurd i
All-In P x (y ∷ ys) h (inl e) = subst P (sym e) h.0
All-In P x (y ∷ ys) h (inr i) = All-In P x ys h.1 i

filter-DistinctRows :
    (c : OutboxEvent → Bool) (rows : List OutboxEvent)
    → DistinctRows rows
    → DistinctRows (filter c rows)
filter-DistinctRows c [] d = tt
filter-DistinctRows c (r ∷ rows) d =
    let rest = filter-DistinctRows c rows d.1 in
    elim (Bool-cases (c r)) [
      | inl e ↦ rw e (any-filter (λ (q : OutboxEvent). q.id == r.id) c rows d.0, rest)
      | inr e ↦ rw e rest
    ]

module _ (before : ℕ) (locked : ℕ → Bool) (r : OutboxEvent) (young : is_old before r ≡ false) where
  abbrev IsKept : Pg → Type 0
  IsKept pg = DistinctRows pg.outbox × In r pg.outbox

  purge-IsKept : (size : ℕ) (pg : Pg) → IsKept pg → IsKept (purge before locked size pg).1
  unfolding purge claim_rows
  purge-IsKept size pg (d, i) =
      let wanted : OutboxEvent → Bool = λ q. is_old before q && not (locked q.id) in
      let claimed = claim_rows (λ q. is_old before q) locked size pg.outbox in
      let only =
        All-In (λ q. in_rows claimed q.id ≡ true → wanted q ≡ true) r pg.outbox
          (claims_only (λ q. q.id) wanted older size pg.outbox d) i in
      let spared : not (in_rows claimed r.id) ≡ true = ground arith in
      (
        filter-DistinctRows (λ q. not (in_rows claimed q.id)) pg.outbox d,
        filter-In (λ q. not (in_rows claimed q.id)) r pg.outbox i spared,
      )

-- The purge deletes only processed rows that are older than the retention: every other row stays as
-- it is, whatever rows other sessions hold and wherever the database fails, if no two rows have one
-- id. A retention of zero days keeps every row.
pub purge_processed_outbox_events-In :
    (fault : ℕ → Bool) (now : ℕ) (locked : ℕ → Bool) (days size n : ℕ) (pg : Pg) (r : OutboxEvent)
    → DistinctRows pg.outbox
    → In r pg.outbox
    → is_old (now - days * seconds_per_day) r && not (days == 0) ≡ false
    → In r (purge_processed_outbox_events fault now locked days size n pg).1.outbox
unfolding purge_processed_outbox_events
purge_processed_outbox_events-In fault now locked zero size n pg r d i young = i
purge_processed_outbox_events-In fault now locked (suc days) size n pg r d i young =
    let spared : is_old (now - suc days * seconds_per_day) r ≡ false = ground arith in
    (batches_keep (IsKept (now - suc days * seconds_per_day) locked r spared) fault
      (purge (now - suc days * seconds_per_day) locked size) size n
      (purge-IsKept (now - suc days * seconds_per_day) locked r spared size) pg (d, i)).1
