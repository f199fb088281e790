-- ===== src/Sync/Guarded.antt =====
-- app/services/order_service.py: updates of one seat counter under two guards.
use pruet_web_dev.Base.{
  ℕ, ◌≡◌, refl, sym, ap, ◌∙◌, Bool, true, false, Option, none, some, List, [], ◌∷◌, ◌==◌, ==_iff,
  arith, All, Bool-cases, inl, inr,
}
use pruet_web_dev.Base.Int.{ℤ}
use pruet_web_dev.Mongo.{
  Zone, EventDoc, Write, modified, no_match, write_error, refused, update_zones, update_event,
}
use pruet_web_dev.Seats.Updates.{
  AllZones, behind_zone, behind_event, in_event, update_zones_hit, update_zones_miss,
  update_event_hit, update_event_miss,
}

-- two guards that agree on the event that is asked for make the same update
module _ (p q : Zone → Bool) (f : ℤ → ℤ) where
  update_zones-same :
      (zs : List Zone) → All (λ z. p z ≡ q z) zs → update_zones p f zs ≡ update_zones q f zs
  update_zones-same [] h = unfold update_zones in refl
  update_zones-same (z ∷ zs) h = elim (Bool-cases (q z)) [
    | inl e ↦ update_zones_hit p f z zs (h.0 ∙ e) ∙ sym (update_zones_hit q f z zs e)
    | inr e ↦
        update_zones_miss p f z zs (h.0 ∙ e)
        ∙ ap (behind_zone z) (update_zones-same zs h.1)
        ∙ sym (update_zones_miss q f z zs e)
  ]

  pub update_event-same :
      (guarded : Bool) (oid : ℕ) (ds : List EventDoc)
      → AllZones (λ k z. k ≡ oid → p z ≡ q z) ds
      → update_event guarded oid p f ds ≡ update_event guarded oid q f ds
  update_event-same guarded oid [] h = unfold update_event in refl
  update_event-same guarded oid (d ∷ ds) h = elim (Bool-cases (d.id == oid)) [
    | inl e ↦
        update_event_hit p f guarded oid d ds e
        ∙ ap (in_event guarded d ds)
            (update_zones-same d.zones (here d.zones ((==_iff d.id oid).0 e) h.0))
        ∙ sym (update_event_hit q f guarded oid d ds e)
    | inr e ↦
        update_event_miss p f guarded oid d ds e
        ∙ ap (behind_event d) (update_event-same guarded oid ds h.1)
        ∙ sym (update_event_miss q f guarded oid d ds e)
  ]
    where
      here :
          (zs : List Zone)
          → d.id ≡ oid
          → All (λ z. d.id ≡ oid → p z ≡ q z) zs
          → All (λ z. p z ≡ q z) zs
      here [] k hs = tt
      here (z ∷ zs) k hs = (hs.0 k, here zs k hs.1)

-- where no zone has the name, no update of a zone of that name matches
module _ (p q : Zone → Bool) (f g : ℤ → ℤ) (stronger : (z : Zone) → q z ≡ true → p z ≡ true) where
  fails : (z : Zone) → p z ≡ false → q z ≡ false
  fails z e = elim (Bool-cases (q z)) [ inl h ↦ absurd (ground (arith, stronger z)) | inr h ↦ h ]

  nothing_behind : (z : Zone) (o : Option (List Zone)) → behind_zone z o ≡ none → o ≡ none
  nothing_behind z none h = refl
  nothing_behind z (some zs) h = absurd cc

  update_zones-none : (zs : List Zone) → update_zones p f zs ≡ none → update_zones q g zs ≡ none
  update_zones-none [] h = unfold update_zones in refl
  update_zones-none (z ∷ zs) h = elim (Bool-cases (p z)) [
    | inl e ↦ let hit = update_zones_hit p f z zs e in absurd cc
    | inr e ↦
        update_zones_miss q g z zs (fails z e)
        ∙ ap (behind_zone z) (
            update_zones-none zs
              (nothing_behind z (update_zones p f zs) (sym (update_zones_miss p f z zs e) ∙ h)))
  ]

  no_match_behind : (d : EventDoc) (r : Write) → behind_event d r ≡ no_match → r ≡ no_match
  no_match_behind d (modified ds) h = absurd cc
  no_match_behind d no_match h = refl
  no_match_behind d write_error h = absurd cc

  no_match_in :
      (guarded : Bool) (d : EventDoc) (ds : List EventDoc) (o : Option (List Zone))
      → in_event guarded d ds o ≡ no_match
      → o ≡ none
  no_match_in guarded d ds none h = refl
  no_match_in guarded d ds (some zs) h = elim (Bool-cases (refused guarded d.zones zs)) [
    | inl e ↦ absurd (ground arith)
    | inr e ↦ absurd (ground arith)
  ]

  pub update_event-none :
      (guarded : Bool) (oid : ℕ) (ds : List EventDoc)
      → update_event guarded oid p f ds ≡ no_match
      → update_event guarded oid q g ds ≡ no_match
  update_event-none guarded oid [] h = unfold update_event in refl
  update_event-none guarded oid (d ∷ ds) h = elim (Bool-cases (d.id == oid)) [
    | inl e ↦
        update_event_hit q g guarded oid d ds e
        ∙ ap (in_event guarded d ds) (
            update_zones-none d.zones (
              no_match_in guarded d ds (update_zones p f d.zones)
                (sym (update_event_hit p f guarded oid d ds e) ∙ h)))
    | inr e ↦
        update_event_miss q g guarded oid d ds e
        ∙ ap (behind_event d) (
            update_event-none guarded oid ds (
              no_match_behind d (update_event guarded oid p f ds)
                (sym (update_event_miss p f guarded oid d ds e) ∙ h)))
  ]
