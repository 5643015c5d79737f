-- ===== src/Common/Int.antt =====
-- The values of a C `int` that the program tells apart by sign.
use Prim.Native.Nat.{ℕ, zero}
use mathlib.Core.Bool.{Bool, true, false}

-- `negsuc n` is -(n + 1).
pub data ℤ : Type 0 where
  pos : ℕ → ℤ
  negsuc : ℕ → ℤ

-- `rc == 0`
abbrev pub is_zero : ℤ → Bool
is_zero (pos zero) = true
is_zero _ = false

-- -EINVAL
abbrev pub einval : ℤ
einval = negsuc 21

-- -EPERM and -ENOMEM
abbrev pub eperm : ℤ
eperm = negsuc 0

abbrev pub enomem : ℤ
enomem = negsuc 11
