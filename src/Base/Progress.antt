-- ===== src/Base/Progress.antt =====
-- When the batch loop stops before its last round, its last batch was not full.
use Prim.Native.Nat.{ℕ, zero, suc, ◌*◌, ◌≤◌, ◌<◌}
use mathlib.Core.Path.{◌≡◌, refl}
use mathlib.Core.Bool.{false}
use mathlib.Core.Logic.{inl, inr}
use mathlib.Core.Option.{Option, none, some}
use native.Mathlib.Omega.{arith}
use pruet_web_dev.Base.Tests.{Bool-cases, ltb}
use pruet_web_dev.Base.Loops.{batches, add_done}

module _ {ℓ κ} {S : Type ℓ} (Finished : S → Type κ) (body : S → ℕ × S) (size : ℕ)
    (finishes : (s : S) → (body s).0 < size → Finished (body s).1) where
  by_rest :
      (rest : Option ℕ) (done k n : ℕ)
      → add_done done rest ≡ some k
      → k < suc n * size
      → size ≤ done
      → (j : ℕ) × (rest ≡ some j) × (j < n * size)
  by_rest none done k n h lt full = absurd (ground arith)
  by_rest (some j) done k n h lt full = (j, refl, ground arith)

  -- fewer than the rounds allow were handled, so the work is finished
  pub batches_finish :
      (n k : ℕ) (s : S)
      → (batches (λ _. false) body size n s).0 ≡ some k
      → k < n * size
      → Finished (batches (λ _. false) body size n s).1
  unfolding batches
  batches_finish zero k s h lt = absurd (ground arith)
  batches_finish (suc n) k s h lt = elim (Bool-cases (ltb (body s).0 size)) [
    | inl e ↦ rw e (finishes s (ground arith))
    | inr e ↦
        let (j, hj, ltj) =
          by_rest (batches (λ _. false) body size n (body s).1).0 (body s).0 k n (ground arith) lt
            (ground arith) in
        rw e (batches_finish n j (body s).1 hj ltj)
  ]
