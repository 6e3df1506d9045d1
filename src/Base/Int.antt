-- ===== src/Base/Int.antt =====
-- Signed numbers: `i32` process ids and policy modes.
use Prim.Native.Nat.{ℕ, compare, Ordering}
use mathlib.Core.Path.{◌≡◌}
use mathlib.Core.Logic.{◌↔◌}
use mathlib.Core.Bool.{Bool, false}
use native.Mathlib.Omega.{arith}
use freezeit_cos.Base.Tests.{◌==◌}
use freezeit_cos.Base.Maps.{Key}

-- `negsuc n` is -(n + 1).
pub data ℤ : Type 0 where
  pos : ℕ → ℤ
  negsuc : ℕ → ℤ

-- The comparison of a signed number with a literal that is not negative.
abbrev pub is_pos : ℤ → ℕ → Bool
is_pos (pos n) k = n == k
is_pos (negsuc n) k = false

abbrev pub cmp_int : ℤ → ℤ → Ordering
cmp_int (pos m) (pos n) = compare m n
cmp_int (pos m) (negsuc n) = Ordering.gt
cmp_int (negsuc m) (pos n) = Ordering.lt
cmp_int (negsuc m) (negsuc n) = compare n m

pub cmp_int_iff : (a b : ℤ) → (cmp_int a b ≡ Ordering.eq) ↔ (a ≡ b)
cmp_int_iff (pos m) (pos n) = ground arith
cmp_int_iff (pos m) (negsuc n) = ground arith
cmp_int_iff (negsuc m) (pos n) = ground arith
cmp_int_iff (negsuc m) (negsuc n) = ground arith

instance abbrev pub int_key : Key ℤ
int_key = record { cmp = cmp_int; cmp_iff = cmp_int_iff }
