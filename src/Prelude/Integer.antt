-- ===== src/Prelude/Integer.antt =====
-- Signed integers over the native numbers, with the order of two of them.
use Prim.Native.Nat.{ℕ}
use mathlib.Core.Path.{◌≡◌}
use mathlib.Core.Bool.{Bool, true, false}
use native.Mathlib.Omega.{arith}
use sim_expr_tree.Prelude.Tests.{ltb}

pub data ℤ : Type 0 where
  pos : ℕ → ℤ
  negsuc : ℕ → ℤ

abbrev pub ltz : ℤ → ℤ → Bool
ltz (pos m) (pos n) = ltb m n
ltz (pos m) (negsuc n) = false
ltz (negsuc m) (pos n) = true
ltz (negsuc m) (negsuc n) = ltb n m

pub ltz_trans : (a b c : ℤ) → ltz b a ≡ false → ltz c b ≡ false → ltz c a ≡ false
ltz_trans a b c h k = ground arith

pub ltz_irrefl : (a : ℤ) → ltz a a ≡ false
ltz_irrefl a = ground arith

pub ltz_asym : (a b : ℤ) → ltz a b ≡ true → ltz b a ≡ false
ltz_asym a b h = ground arith
