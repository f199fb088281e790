-- ===== src/Integrity/Settled.antt =====
-- Orders of app/services that are paid, expired or cancelled.
use pruet_web_dev.Base.{ℕ, ◌≡◌, subst, ap, false, ◌&&◌, List, [], ◌∷◌, ◌++◌, ◌==◌, arith, inl, inr}
use pruet_web_dev.Base.Membership.{In}
use pruet_web_dev.Models.{Order, OrderStatus, is_pending}
use pruet_web_dev.Service.{World}
use pruet_web_dev.Integrity.Invariant.{IsSound}
use pruet_web_dev.Integrity.History.{Reach}
use pruet_web_dev.Integrity.Ledger.{
  Booking, booking_of, ledger, resolve, Turn, Turns, stay, turn, opened, confirmed, expired,
}
use pruet_web_dev.Integrity.Refinement.{Reach-Turns}

resolve-In :
    (k : ℕ) (to : OrderStatus) (b : Booking) (s : List Booking)
    → is_pending b.stage ≡ false
    → In b s
    → In b (resolve k to s)
resolve-In k to b [] settled i = i
resolve-In k to b (c ∷ s) settled (inl e) =
    let no_match : (c.id == k) && is_pending c.stage ≡ false =
      subst (λ (x : Booking). (x.id == k) && is_pending x.stage ≡ false) e (ground arith) in
    inl (rw no_match e)
resolve-In k to b (c ∷ s) settled (inr i) = inr (resolve-In k to b s settled i)

append-In : (b c : Booking) (s : List Booking) → In b s → In b (s ++ c ∷ [])
append-In b c [] i = absurd i
append-In b c (d ∷ s) (inl e) = inl e
append-In b c (d ∷ s) (inr i) = inr (append-In b c s i)

Turn-In :
    {s t : List Booking} (b : Booking) → Turn s t → is_pending b.stage ≡ false → In b s → In b t
Turn-In {s} b (opened c pending fresh) settled i = append-In b c s i
Turn-In {s} b (confirmed k) settled i = resolve-In k OrderStatus.confirmed b s settled i
Turn-In {s} b (expired k) settled i = resolve-In k OrderStatus.expired b s settled i

Turns-In :
    {s t : List Booking} (b : Booking) → Turns s t → is_pending b.stage ≡ false → In b s → In b t
Turns-In b stay settled i = i
Turns-In b (turn h last) settled i = Turn-In b last settled (Turns-In b h settled i)

In-ledger : (o : Order) (os : List Order) → In o os → In (booking_of o) (ledger os)
In-ledger o [] i = i
In-ledger o (p ∷ os) (inl e) = inl (ap booking_of e)
In-ledger o (p ∷ os) (inr i) = inr (In-ledger o os i)

-- An order that is no longer pending stays in the table with its number, its customer, its total, its
-- time and its status, whatever transactions follow, in any order and under any fault, from a database
-- that satisfies the rules.
pub Reach-settled :
    {w v : World} (o : Order)
    → Reach w v
    → IsSound w.pg
    → In o w.pg.orders
    → is_pending o.status ≡ false
    → In (booking_of o) (ledger v.pg.orders)
Reach-settled {w} o r s i settled =
    Turns-In (booking_of o) (Reach-Turns r s) settled (In-ledger o w.pg.orders i)
