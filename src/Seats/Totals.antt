-- ===== src/Seats/Totals.antt =====
-- The documents with a list of reservations added to their counters, and what one `update_one` makes
-- of them.
use pruet_web_dev.Base.{
  ◌⊎◌, ℕ, ◌+◌, ◌≡◌, refl, subst, sym, ap, ◌∙◌, Bool, true, false, ◌&&◌, Option, none, some, List,
  [], ◌∷◌, ◌++◌, ◌==◌, ==_iff, arith, All, any, Bool-cases, inl, inr, if◌then◌else◌,
}
use pruet_web_dev.Base.Int.{ℤ, pos, ◌+ℤ◌, int_laws}
use pruet_web_dev.Base.Distinct.{Distinct}
use pruet_web_dev.Text.{Str, str_eq, str_eq_iff}
use pruet_web_dev.Mongo.{
  Zone, EventDoc, modified, no_match, write_error, refused, update_zones, update_event,
}
use pruet_web_dev.Seats.{Reserved, named}
use pruet_web_dev.Seats.Updates.{
  with_count, behind_zone, behind_event, in_event, update_zones_hit, update_zones_miss,
  update_event_hit, update_event_miss, same_name, DistinctDocs,
}

-- seats reserved in a zone
abbrev pub total : List Reserved → ℕ → Str → ℕ
total [] k n = 0
total (r ∷ rs) k n =
    (if (r.event_oid == k) && str_eq n r.zone_name then r.quantity else 0) + total rs k n

abbrev pub plus_zone : List Reserved → ℕ → Zone → Zone
plus_zone rs k z = record z { booked_count = z.booked_count +ℤ pos (total rs k z.name) }

abbrev pub plus_zones : List Reserved → ℕ → List Zone → List Zone
plus_zones rs k [] = []
plus_zones rs k (z ∷ zs) = plus_zone rs k z ∷ plus_zones rs k zs

abbrev pub plus_event : List Reserved → EventDoc → EventDoc
plus_event rs d = record d { zones = plus_zones rs d.id d.zones }

-- the documents with the reservations added
abbrev pub plus : List Reserved → List EventDoc → List EventDoc
plus rs [] = []
plus rs (d ∷ ds) = plus_event rs d ∷ plus rs ds

pub plus_zones-nil : (k : ℕ) (zs : List Zone) → plus_zones [] k zs ≡ zs
plus_zones-nil k [] = refl
plus_zones-nil k (z ∷ zs) =
    λ i. record z { booked_count = add_zero z.booked_count i } ∷ plus_zones-nil k zs i
  where
    add_zero : (b : ℤ) → b +ℤ pos 0 ≡ b
    add_zero b = omega int_laws

pub plus-nil : (ds : List EventDoc) → plus [] ds ≡ ds
plus-nil [] = refl
plus-nil (d ∷ ds) = λ i. record d { zones = plus_zones-nil d.id d.zones i } ∷ plus-nil ds i

pub total-append :
    (rs ss : List Reserved) (k : ℕ) (n : Str) → total (rs ++ ss) k n ≡ total rs k n + total ss k n
total-append [] ss k n = omega arith
total-append (r ∷ rs) ss k n = omega (arith, total-append rs ss k n)

-- How an update ends on the documents with the first reservations: nothing matches; the validator
-- refuses one document; or they become the documents with the second.
pub data Updated (rs rs' : List Reserved) (oid : ℕ) (name : Str) (p : Zone → Bool) (f : ℤ → ℤ)
    (guarded : Bool) (P : EventDoc → Type 0) (ds : List EventDoc) : Type 0 where
  missed :
      update_event guarded oid p f (plus rs ds) ≡ no_match
      → (((z : Zone) → named name z ≡ true → p z ≡ true) → plus rs' ds ≡ plus rs ds)
      → Updated rs rs' oid name p f guarded P ds
  rejected :
      (d : EventDoc)
      → update_event guarded oid p f (plus rs ds) ≡ write_error
      → P d
      → refused guarded (plus_zones rs d.id d.zones) (plus_zones rs' d.id d.zones) ≡ true
      → Updated rs rs' oid name p f guarded P ds
  done :
      update_event guarded oid p f (plus rs ds) ≡ modified (plus rs' ds)
      → Updated rs rs' oid name p f guarded P ds

-- Two lists of reservations that differ in one zone only, and an update that makes up for it there.
module _ (rs rs' : List Reserved) (oid : ℕ) (name : Str) (p : Zone → Bool) (f : ℤ → ℤ)
    (only_named : (z : Zone) → p z ≡ true → named name z ≡ true)
    (elsewhere : (n : Str) → str_eq n name ≡ false → total rs' oid n ≡ total rs oid n)
    (other_event : (k : ℕ) (n : Str) → (oid == k) ≡ false → total rs' k n ≡ total rs k n)
    (here : (b : ℤ) (n : Str)
      → str_eq n name ≡ true
      → f (b +ℤ pos (total rs oid n)) ≡ b +ℤ pos (total rs' oid n)) where
  -- zones of other names see no difference
  plus_zones_elsewhere :
      (zs : List Zone) → any (named name) zs ≡ false → plus_zones rs' oid zs ≡ plus_zones rs oid zs
  plus_zones_elsewhere [] h = refl
  plus_zones_elsewhere (z ∷ zs) h =
      rw (elsewhere z.name (ground arith), plus_zones_elsewhere zs (ground arith))

  plus_zones_other :
      (k : ℕ) (zs : List Zone) → (oid == k) ≡ false → plus_zones rs' k zs ≡ plus_zones rs k zs
  plus_zones_other k [] h = refl
  plus_zones_other k (z ∷ zs) h = rw (other_event k z.name h, plus_zones_other k zs h)

  pub plus_other :
      (ds : List EventDoc) → any (λ e. e.id == oid) ds ≡ false → plus rs' ds ≡ plus rs ds
  plus_other [] h = refl
  plus_other (d ∷ ds) h =
      rw (plus_zones_other d.id d.zones (ground arith), plus_other ds (ground arith))

  fails_elsewhere : (z : Zone) → named name z ≡ false → p (plus_zone rs oid z) ≡ false
  fails_elsewhere z e = elim (Bool-cases (p (plus_zone rs oid z))) [
    | inr no_pass ↦ no_pass
    | inl pass ↦ absurd (true_not_false (sym (only_named (plus_zone rs oid z) pass) ∙ e))
  ]
    where
      true_not_false : true ≡ false → ⊥
      true_not_false h = ground arith

  none_passes :
      (zs : List Zone)
      → any (named name) zs ≡ false
      → update_zones p f (plus_zones rs oid zs) ≡ none
  none_passes [] h = unfold update_zones in refl
  none_passes (z ∷ zs) h =
      let rest = none_passes zs (ground arith) in
      update_zones_miss p f (plus_zone rs oid z) (plus_zones rs oid zs)
        (fails_elsewhere z (ground arith))
      ∙ behind_none z rest
    where
      behind_none :
          (z : Zone) {o : Option (List Zone)} → o ≡ none → behind_zone (plus_zone rs oid z) o ≡ none
      behind_none z e = rw e

  -- the names behind a zone of that name are others
  alone :
      (z : Zone) (zs : List Zone)
      → named name z ≡ true
      → any (λ y. str_eq y.name z.name) zs ≡ false
      → any (named name) zs ≡ false
  alone z zs e h =
      subst (λ (n : Str). any (λ y. str_eq y.name n) zs ≡ false) ((str_eq_iff z.name name).0 e) h

  hit_zone :
      (z : Zone) (zs : List Zone)
      → named name z ≡ true
      → any (named name) zs ≡ false
      → with_count f (plus_zone rs oid z) ∷ plus_zones rs oid zs ≡ plus_zones rs' oid (z ∷ zs)
  hit_zone z zs e h = λ i.
      record z { booked_count = here z.booked_count z.name e i } ∷ sym (plus_zones_elsewhere zs h) i

  -- an update that asks for the name alone misses only where the difference is not seen
  abbrev Missed : List Zone → Type 0
  Missed zs =
      (update_zones p f (plus_zones rs oid zs) ≡ none)
      × (((z : Zone) → named name z ≡ true → p z ≡ true)
          → plus_zones rs' oid zs ≡ plus_zones rs oid zs)

  abbrev Hit : List Zone → Type 0
  Hit zs = update_zones p f (plus_zones rs oid zs) ≡ some (plus_zones rs' oid zs)

  behind :
      (z : Zone) (zs : List Zone)
      → named name z ≡ false
      → Missed zs ⊎ Hit zs
      → Missed (z ∷ zs) ⊎ Hit (z ∷ zs)
  behind z zs e (inl h) = inl (
    update_zones_miss p f (plus_zone rs oid z) (plus_zones rs oid zs) (fails_elsewhere z e)
        ∙ ap (behind_zone (plus_zone rs oid z)) h.0,
    (λ exact. rw (elsewhere z.name e, h.1 exact)),
  )
  behind z zs e (inr h) = inr (
      update_zones_miss p f (plus_zone rs oid z) (plus_zones rs oid zs) (fails_elsewhere z e)
      ∙ ap (behind_zone (plus_zone rs oid z)) h
      ∙ ap
          (λ (n : ℕ).
            some (record z { booked_count = z.booked_count +ℤ pos n } ∷ plus_zones rs' oid zs))
          (sym (elsewhere z.name e)))

  update_zones_plus : (zs : List Zone) → Distinct same_name zs → Missed zs ⊎ Hit zs
  update_zones_plus [] d = inl (unfold update_zones in refl, (λ _. refl))
  update_zones_plus (z ∷ zs) d = elim (Bool-cases (named name z)) [
    | inl e ↦ elim (Bool-cases (p (plus_zone rs oid z))) [
      | inl pass ↦ inr (
          update_zones_hit p f (plus_zone rs oid z) (plus_zones rs oid zs) pass
          ∙ ap some (hit_zone z zs e (alone z zs e d.0)))
      | inr no_pass ↦ inl (
        update_zones_miss p f (plus_zone rs oid z) (plus_zones rs oid zs) no_pass
            ∙ ap (behind_zone (plus_zone rs oid z)) (none_passes zs (alone z zs e d.0)),
        (λ exact. absurd (ground (arith, exact (plus_zone rs oid z) e))),
      )
    ]
    | inr e ↦ behind z zs e (update_zones_plus zs d.1)
  ]

  -- a fact about the event that was asked for, at the id of its document
  at_id : (d : EventDoc) → (d.id == oid) ≡ true → (Q : ℕ → Type 0) → Q oid → Q d.id
  at_id d e Q = subst Q (sym ((==_iff d.id oid).0 e))

  tail_same :
      (d : EventDoc) (ds : List EventDoc)
      → (d.id == oid) ≡ true
      → any (λ x. x.id == d.id) ds ≡ false
      → plus rs' ds ≡ plus rs ds
  tail_same d ds e others =
      plus_other ds
        (subst (λ (k : ℕ). any (λ x. x.id == k) ds ≡ false) ((==_iff d.id oid).0 e) others)

  in_this_event :
      (guarded : Bool) (P : EventDoc → Type 0) (d : EventDoc) (ds : List EventDoc)
      → (d.id == oid) ≡ true
      → any (λ e. e.id == d.id) ds ≡ false
      → P d
      → Missed d.zones ⊎ Hit d.zones
      → Updated rs rs' oid name p f guarded P (d ∷ ds)
  in_this_event guarded P d ds e others h (inl m) =
      missed
        (update_event_hit p f guarded oid (plus_event rs d) (plus rs ds) e
          ∙ ap (in_event guarded (plus_event rs d) (plus rs ds))
              (at_id d e (λ k. update_zones p f (plus_zones rs k d.zones) ≡ none) m.0))
        (λ exact. rw (
          at_id d e (λ k. plus_zones rs' k d.zones ≡ plus_zones rs k d.zones) (m.1 exact),
          tail_same d ds e others,
        ))
  in_this_event guarded P d ds e others h (inr m) =
      let hit =
        update_event_hit p f guarded oid (plus_event rs d) (plus rs ds) e
        ∙ ap (in_event guarded (plus_event rs d) (plus rs ds)) (
            at_id d e
              (λ k. update_zones p f (plus_zones rs k d.zones) ≡ some (plus_zones rs' k d.zones))
              m) in
      elim (Bool-cases
        (refused guarded (plus_zones rs d.id d.zones) (plus_zones rs' d.id d.zones))) [
          | inl r ↦ rejected d (hit ∙ rw r refl) h r
          | inr r ↦ done (hit ∙ rw (r, tail_same d ds e others) refl)
        ]

  in_other_event :
      (guarded : Bool) (P : EventDoc → Type 0) (d : EventDoc) (ds : List EventDoc)
      → (d.id == oid) ≡ false
      → Updated rs rs' oid name p f guarded P ds
      → Updated rs rs' oid name p f guarded P (d ∷ ds)
  in_other_event guarded P d ds e (missed h same) =
      missed
        (update_event_miss p f guarded oid (plus_event rs d) (plus rs ds) e
          ∙ ap (behind_event (plus_event rs d)) h)
        (λ exact. rw (plus_zones_other d.id d.zones (ground arith), same exact))
  in_other_event guarded P d ds e (rejected x h hx r) =
      rejected x
        (update_event_miss p f guarded oid (plus_event rs d) (plus rs ds) e
          ∙ ap (behind_event (plus_event rs d)) h)
        hx r
  in_other_event guarded P d ds e (done h) = done (
      update_event_miss p f guarded oid (plus_event rs d) (plus rs ds) e
      ∙ ap (behind_event (plus_event rs d)) h
      ∙ ap (λ (zs : List Zone). modified (record d { zones = zs } ∷ plus rs' ds))
          (sym (plus_zones_other d.id d.zones (ground arith))))

  pub update_event_plus :
      (guarded : Bool) (P : EventDoc → Type 0) (ds : List EventDoc)
      → DistinctDocs ds
      → All P ds
      → Updated rs rs' oid name p f guarded P ds
  update_event_plus guarded P [] h hs = missed (unfold update_event in refl) (λ _. refl)
  update_event_plus guarded P (d ∷ ds) h hs = elim (Bool-cases (d.id == oid)) [
    | inl e ↦ in_this_event guarded P d ds e h.0.0 hs.0 (update_zones_plus d.zones h.1.0)
    | inr e ↦ in_other_event guarded P d ds e (update_event_plus guarded P ds (h.0.1, h.1.1) hs.1)
  ]
