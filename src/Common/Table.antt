-- ===== src/Common/Table.antt =====
-- A Boolean property of small numbers, checked by evaluation.
use Prim.Native.Nat.{ℕ, zero, suc, ◌<◌}
use mathlib.Core.Path.{◌≡◌}
use mathlib.Core.Bool.{Bool, true, ◌&&◌}
use native.Mathlib.Omega.{arith}

unfoldable pub holds_below : (ℕ → Bool) → ℕ → Bool
holds_below p zero = true
holds_below p (suc n) = p n && holds_below p n

pub holds_below-at : (p : ℕ → Bool) (n x : ℕ) → holds_below p n ≡ true → x < n → p x ≡ true
unfolding holds_below
holds_below-at p zero x h lt = absurd (omega arith)
holds_below-at p (suc n) x h lt = ground (arith, holds_below-at p n x)
