-- ===== src/Common/Check.antt =====
-- A test of the numbers in a range, run by evaluation.
use Prim.Native.Nat.{ℕ, zero, suc, ◌+◌, ◌<◌}
use mathlib.Core.Path.{◌≡◌, ap, ◌∙◌}
use mathlib.Core.Bool.{Bool, true, ◌&&◌}
use native.Mathlib.Omega.{arith}

-- The test holds at `count` numbers from `start` on.
unfoldable pub passes : (ℕ → Bool) → ℕ → ℕ → Bool
passes test start zero = true
passes test start (suc count) = passes test (suc start) count && test start

passes-at :
    (test : ℕ → Bool) (start count i : ℕ)
    → passes test start count ≡ true
    → i < count
    → test (start + i) ≡ true
unfolding passes
passes-at test start zero i ok low = absurd (omega arith)
passes-at test start (suc count) zero ok low = ground arith
passes-at test start (suc count) (suc i) ok low =
    ap test (omega arith) ∙ passes-at test (suc start) count i (ground arith) (omega arith)

pub test_below :
    (test : ℕ → Bool) (bound n : ℕ) → passes test 0 bound ≡ true → n < bound → test n ≡ true
test_below test bound n ok low = ap test (omega arith) ∙ passes-at test 0 bound n ok low
