-- ===== src/Backfill/Cursor.antt =====
-- scripts/backfill.py: what the cursor of a batch leaves behind it.
use pruet_web_dev.Base.{
  ℕ, zero, suc, ◌≤◌, ◌<◌, ◌≡◌, sym, ◌∙◌, Bool, true, not, All, ◌&&◌, ◌||◌, ◌==◌, ltb, List, [], ◌∷◌,
  arith, any, filter, take, Bool-cases, inl, inr,
}
use pruet_web_dev.Base.Sorting.{sort, insert_sorted}
use pruet_web_dev.Base.SortingLaws.{any-sort, any-take}
use pruet_web_dev.Base.Membership.{In, any-In, filter-In}
use pruet_web_dev.Models.{User}
use pruet_web_dev.Backfill.{needs_backfill, select_batch, last_row_id}

abbrev pub by_id : User → User → Bool
by_id u v = ltb u.id v.id

Ascending : ℕ → List User → Type 0
Ascending b [] = Unit {0}
Ascending b (u ∷ us) = (b ≤ u.id) × Ascending u.id us

insert-Ascending :
    (b : ℕ) (u : User) (us : List User)
    → b ≤ u.id
    → Ascending b us
    → Ascending b (insert_sorted by_id u us)
unfolding insert_sorted Ascending
insert-Ascending b u [] h s = (h, tt)
insert-Ascending b u (v ∷ vs) h s = elim (Bool-cases (ltb v.id u.id)) [
  | inl e ↦ rw e (s.0, insert-Ascending v.id u vs (ground arith) s.1)
  | inr e ↦ rw e (h, (ground arith, s.1))
]

sort-Ascending : (b : ℕ) (us : List User) → All (λ u. b ≤ u.id) us → Ascending b (sort by_id us)
unfolding sort Ascending
sort-Ascending b [] h = tt
sort-Ascending b (u ∷ us) h = insert-Ascending b u (sort by_id us) h.0 (sort-Ascending b us h.1)

bound_below : (b k : ℕ) (us : List User) → Ascending b us → any (λ u. u.id == k) us ≡ true → b ≤ k
unfolding Ascending
bound_below b k [] s h = absurd cc
bound_below b k (u ∷ us) s h = elim (Bool-cases (u.id == k)) [
  | inl e ↦ ground arith
  | inr e ↦ let rest = bound_below u.id k us s.1 (ground arith) in ground arith
]

-- an id of the sorted rows that the cursor has reached is that of a row of the batch, or the cursor
-- has not moved
reached :
    (b d k n : ℕ) (us : List User)
    → Ascending b us
    → d ≤ b
    → any (λ u. u.id == k) us ≡ true
    → k ≤ last_row_id d (take n us)
    → (k == d) || any (λ u. u.id == k) (take n us) ≡ true
unfolding Ascending
reached b d k zero us s low h top = let above = bound_below b k us s h in ground arith
reached b d k (suc n) [] s low h top = absurd cc
reached b d k (suc n) (u ∷ us) s low h top = elim (Bool-cases (u.id == k)) [
  | inl e ↦ ground arith
  | inr e ↦
      let rest = reached u.id u.id k n us s.1 (ground arith) (ground arith) top in ground arith
]

abbrev pub waits : (ℕ → Bool) → ℕ → User → Bool
waits locked last_id u = ltb last_id u.id && (needs_backfill u && not (locked u.id))

above_cursor :
    (locked : ℕ → Bool) (last_id : ℕ) (us : List User)
    → All (λ u. last_id ≤ u.id) (filter (waits locked last_id) us)
above_cursor locked last_id [] = tt
above_cursor locked last_id (u ∷ us) =
    let rest = above_cursor locked last_id us in
    elim (Bool-cases (waits locked last_id u)) [
      | inl e ↦ rw e (ground arith, rest)
      | inr e ↦ rw e rest
    ]

-- the batch is in the order of the ids, so a waiting row that the cursor has passed was in it
pub batch_reached :
    (locked : ℕ → Bool) (last_id n : ℕ) (us : List User) (u : User)
    → In u us
    → waits locked last_id u ≡ true
    → u.id ≤ last_row_id last_id (select_batch locked last_id n us)
    → any (λ v. v.id == u.id) (select_batch locked last_id n us) ≡ true
unfolding select_batch
batch_reached locked last_id n us u i w top =
    let waiting : any (λ v. v.id == u.id) (filter (waits locked last_id) us) ≡ true =
      any-In (λ v. v.id == u.id) u (filter (waits locked last_id) us)
        (filter-In (waits locked last_id) u us i w) (ground arith) in
    let sorted : any (λ v. v.id == u.id) (sort by_id (filter (waits locked last_id) us)) ≡ true =
      any-sort by_id (λ v. v.id == u.id) (filter (waits locked last_id) us) ∙ waiting in
    let hit =
      reached last_id last_id u.id n (sort by_id (filter (waits locked last_id) us))
        (sort-Ascending last_id (filter (waits locked last_id) us) (above_cursor locked last_id us))
        (omega arith) sorted top in
    ground arith

-- the cursor of a batch with rows is the id of one of them
pub last_row_of :
    (d : ℕ) (u : User) (us : List User) → any (λ v. v.id == last_row_id d (u ∷ us)) (u ∷ us) ≡ true
last_row_of d u [] = ground arith
last_row_of d u (v ∷ vs) = let rest = last_row_of u.id v vs in ground arith

-- a row of a batch lies above the old cursor
pub batch_above :
    (locked : ℕ → Bool) (last_id n k : ℕ) (us : List User)
    → any (λ v. v.id == k) (select_batch locked last_id n us) ≡ true
    → last_id < k × (any (λ v. v.id == k) us ≡ true)
unfolding select_batch
batch_above locked last_id n k us h =
    let sorted = any-take (λ v. v.id == k) n (sort by_id (filter (waits locked last_id) us)) h in
    waiting_above us
      (sym (any-sort by_id (λ v. v.id == k) (filter (waits locked last_id) us)) ∙ sorted)
  where
    waiting_above :
        (vs : List User)
        → any (λ v. v.id == k) (filter (waits locked last_id) vs) ≡ true
        → last_id < k × (any (λ v. v.id == k) vs ≡ true)
    waiting_above [] e = absurd cc
    waiting_above (v ∷ vs) e = elim (Bool-cases (waits locked last_id v)) [
      | inl w ↦ elim (Bool-cases (v.id == k)) [
        | inl same ↦ (ground arith, ground arith)
        | inr other ↦ let rest = waiting_above vs (ground arith) in (rest.0, ground arith)
      ]
      | inr w ↦ let rest = waiting_above vs (ground arith) in (rest.0, ground arith)
    ]
