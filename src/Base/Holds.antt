-- ===== src/Base/Holds.antt =====
-- A test of every number under a bound, by evaluation.
use native.Mathlib.Decide.{dec_lt}
use Prim.Native.Nat.{ℕ, zero, suc, ◌<◌}
use mathlib.Core.Path.{◌≡◌}
use mathlib.Core.Bool.{Bool, true, ◌&&◌}
use native.Mathlib.Omega.{arith}

-- The test holds of each number under the bound.
unfoldable pub holds_under : (ℕ → Bool) → ℕ → Bool
holds_under test zero = true
holds_under test (suc bound) = holds_under test bound && test bound

pub holds_under-at :
    (test : ℕ → Bool) (bound k : ℕ) → k < bound → holds_under test bound ≡ true → test k ≡ true
unfolding holds_under
holds_under-at test zero k below every = absurd (omega arith)
holds_under-at test (suc bound) k below every = elim (dec_lt k bound) [
  | yes lower ↦ holds_under-at test bound k lower (ground arith)
  | no last ↦ let e : k ≡ bound = omega arith in rw e (ground arith)
]
