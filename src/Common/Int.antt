-- ===== src/Common/Int.antt =====
-- Signed integers over the native numbers, and the wrap-around of the language's 64-bit `int`.
use Prim.Native.Nat.{ℕ, suc, ◌+◌, ◌-◌, ◌%◌, ◌≤◌, ◌<◌}
use mathlib.Core.Bool.{Bool}
use t_cloud_public_csi_drive.Common.Tests.{ltb, leb, if◌then◌else◌}

-- `negsuc n` is -(n + 1).
pub data ℤ : Type 0 where
  pos : ℕ → ℤ
  negsuc : ℕ → ℤ

abbrev pub pos_part : ℤ → ℕ
pos_part (pos n) = n
pos_part (negsuc n) = 0

abbrev pub neg_part : ℤ → ℕ
neg_part (pos n) = 0
neg_part (negsuc n) = suc n

infix 50 ◌≤ℤ◌
abbrev pub ◌≤ℤ◌ : ℤ → ℤ → Type 0
a ≤ℤ b = pos_part a + neg_part b ≤ pos_part b + neg_part a

abbrev pub ltb_ℤ : ℤ → ℤ → Bool
ltb_ℤ a b = ltb (pos_part a + neg_part b) (pos_part b + neg_part a)

abbrev pub leb_ℤ : ℤ → ℤ → Bool
leb_ℤ a b = leb (pos_part a + neg_part b) (pos_part b + neg_part a)

-- 2 ^ 63 and 2 ^ 64.
abbrev pub int64_bound : ℕ
int64_bound = 9_223_372_036_854_775_808

abbrev pub int64_mod : ℕ
int64_mod = 18_446_744_073_709_551_616

-- The 64-bit signed integer with the low 64 bits of a number.
abbrev pub wrap64 : ℕ → ℤ
wrap64 n = let r = n % int64_mod in if ltb r int64_bound then pos r else negsuc (int64_mod - 1 - r)

-- The low 64 bits of a signed integer.
abbrev pub bits64 : ℤ → ℕ
bits64 (pos n) = n % int64_mod
bits64 (negsuc n) = int64_mod - 1 - n % int64_mod

-- A value that an `int64` can hold.
abbrev pub IsInt64 : ℤ → Type 0
IsInt64 (pos n) = n < int64_bound
IsInt64 (negsuc n) = n < int64_bound
