-- ===== src/Prelude/Int.antt =====
-- Signed integers (i32, i64) over the native numbers: `negsuc n` is -(n + 1).
use Prim.Native.Nat.{ℕ}
use mathlib.Core.Bool.{Bool, false, ◌&&◌}
use servarr_operator.Prelude.Tests.{leb, eqb}

pub data ℤ : Type 0 where
  pos : ℕ → ℤ
  negsuc : ℕ → ℤ

-- `(lo..=hi).contains(&x)` for bounds that are not negative.
abbrev pub in_range : ℕ → ℕ → ℤ → Bool
in_range lo hi (pos n) = leb lo n && leb n hi
in_range lo hi (negsuc n) = false

-- `x == n` for a bound that is not negative.
abbrev pub eqz : ℤ → ℕ → Bool
eqz (pos m) n = eqb m n
eqz (negsuc m) n = false
