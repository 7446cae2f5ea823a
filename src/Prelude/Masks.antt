-- ===== src/Prelude/Masks.antt =====
-- Sizes of tables whose index is masked, `i & (size - 1)`.
use Prim.Native.Nat.{ℕ, zero, suc, ◌-◌, ◌≤◌, ◌<◌, bit_and}
use mathlib.Core.Path.{◌≡◌, refl}
use native.Mathlib.Omega.{arith}
use rsim.Prelude.Tests.{◌==◌, if◌then◌else◌}

-- A size whose predecessor is a mask, as a power of two is.
abbrev pub IsMaskSize : ℕ → Type 0
IsMaskSize n =
    (0 < n)
    × ((x : ℕ) → x ≤ n → bit_and x (n - 1) ≡ (if x == n then 0 else x))
    × (bit_and 4294967295 (n - 1) ≡ n - 1)

-- 4 is such a size.
pub four-IsMaskSize : IsMaskSize 4
four-IsMaskSize = (omega arith, mask, refl)
  where
    mask : (x : ℕ) → x ≤ 4 → bit_and x 3 ≡ (if x == 4 then 0 else x)
    mask zero h = refl
    mask (suc zero) h = refl
    mask (suc (suc zero)) h = refl
    mask (suc (suc (suc zero))) h = refl
    mask (suc (suc (suc (suc zero)))) h = refl
    mask (suc (suc (suc (suc (suc x))))) h = absurd (omega arith)
