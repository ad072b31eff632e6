-- ===== src/Base/Check.antt =====
-- A test that passes on every number below a bound, found out by evaluation.
use Prim.Native.Nat.{ℕ, zero, suc, ◌<◌}
use mathlib.Core.Path.{◌≡◌}
use mathlib.Core.Bool.{Bool, true, ◌&&◌}
use mathlib.Core.Logic.{inl, inr}
use native.Mathlib.Omega.{arith}
use nl.Base.Tests.{◌==◌, Bool-cases, ==_iff}

unfoldable pub passes_below : (ℕ → Bool) → (bound : ℕ) → Bool
passes_below test zero = true
passes_below test (suc i) = passes_below test i && test i

pub passes_below_at :
    (test : ℕ → Bool) (bound i : ℕ) → i < bound → passes_below test bound ≡ true → test i ≡ true
unfolding passes_below
passes_below_at test zero i below all = absurd (omega arith)
passes_below_at test (suc bound) i below all = elim (Bool-cases (i == bound)) [
  | inl last ↦ let e : i ≡ bound = (==_iff i bound).0 last in rw e (ground arith)
  | inr other ↦ passes_below_at test bound i (ground (arith, ==_iff i bound)) (ground arith)
]
