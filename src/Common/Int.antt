-- ===== src/Common/Int.antt =====
-- Rust's `i32` and `i64` as integers: `negsuc n` is -(n + 1). The program only compares them.
use Prim.Native.Nat.{ℕ}
use mathlib.Core.Bool.{Bool, true, false, ◌&&◌}
use stardelt_operator.Common.Tests.{leb}

pub data ℤ : Type 0 where
  pos : ℕ → ℤ
  negsuc : ℕ → ℤ

abbrev pub leb_ℤ : ℤ → ℤ → Bool
leb_ℤ (pos a) (pos b) = leb a b
leb_ℤ (pos a) (negsuc b) = false
leb_ℤ (negsuc a) (pos b) = true
leb_ℤ (negsuc a) (negsuc b) = leb b a

-- `(lo..=hi).contains(&n)`
abbrev pub in_range : ℤ → ℤ → ℤ → Bool
in_range lo hi n = leb_ℤ lo n && leb_ℤ n hi
