-- ===== src/Base/Loops.antt =====
-- The batch loop of the background jobs: `for _ in range(max_batches)`, one transaction a round,
-- until a round handles less than a full batch.
use Prim.Native.Nat.{ℕ, zero, suc, ◌+◌}
use mathlib.Core.Bool.{Bool}
use mathlib.Core.Option.{Option, none, some}
use pruet_web_dev.Base.Tests.{if◌then◌else◌, ltb}

abbrev pub add_done : ℕ → Option ℕ → Option ℕ
add_done n none = none
add_done n (some k) = some (n + k)

-- `fault` tells in which round (by the rounds left after it) the database raises before the commit;
-- `none` stands for the exception, and what earlier rounds committed stays
unfoldable pub batches {ℓ} : {S : Type ℓ} → (ℕ → Bool) → (S → ℕ × S) → ℕ → ℕ → S → Option ℕ × S
batches fault body size zero s = (some 0, s)
batches {S} fault body size (suc n) s =
    let (done, s') = body s in
    let rest : Option ℕ × S = batches fault body size n s' in
    if fault n
    then (none, s)
    else if ltb done size
    then (some done, s')
    else (add_done done rest.0, rest.1)
