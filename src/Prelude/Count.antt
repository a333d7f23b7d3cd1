-- ===== src/Prelude/Count.antt =====
-- How often a byte stands in an array, and what one write does to that.
use gamespy_emulator.Prelude.Tests.{◌==◌, if◌then◌else◌}
use gamespy_emulator.Prelude.Lists.{length, get_or, set}
use Prim.Native.Nat.{ℕ, zero, suc, ◌+◌, ◌<◌}
use mathlib.Core.Path.{◌≡◌}
use mathlib.Core.List.{List, [], ◌∷◌}
use native.Mathlib.Omega.{arith}

-- 1 if the two are the same byte.
abbrev pub hit : ℕ → ℕ → ℕ
hit v x = if x == v then 1 else 0

unfoldable pub count : ℕ → List ℕ → ℕ
count v [] = 0
count v (x ∷ xs) = hit v x + count v xs

-- A write at `i` takes the old value out and puts the new one in.
pub count-set :
    (v : ℕ) (xs : List ℕ) (i w : ℕ)
    → i < length xs
    → count v (set xs i w) + hit v (get_or xs i 0) ≡ count v xs + hit v w
unfolding count
count-set v [] i w h = elim h [ ]
count-set v (x ∷ xs) zero w h = omega arith
count-set v (x ∷ xs) (suc i) w h = omega (arith, count-set v xs i w (omega arith))
