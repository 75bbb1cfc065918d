-- ===== src/Prelude/Numbers.antt =====
-- Division and remainder, beside what `omega` knows of them.
use Prim.Native.Nat.{ℕ, ◌-◌, ◌*◌, ◌/◌, ◌%◌}
use mathlib.Core.Path.{◌≡◌}
use native.Mathlib.Nat.{mul-mod_right, div-add-mod}
use native.Mathlib.Omega.{arith}

-- What is left of a number without its remainder is a multiple.
pub sub-mod-mod : (x a : ℕ) → (x - x % a) % a ≡ 0
sub-mod-mod x a = rw whole (mul-mod_right a (x / a))
  where
    whole : x - x % a ≡ a * (x / a)
    whole = omega (arith, div-add-mod x a)
