-- ===== src/Common/Integers.antt =====
-- The integers as a C++ int holds them: 32 bits in two's complement.
use Prim.Native.Nat.{ℕ, suc, ◌-◌, ◌/◌, ◌^◌}
use mathlib.Core.List.{◌++◌}
use sonic_bmp.Common.Decimal.{Text, codes, to_dec}
use sonic_bmp.Common.Tests.{ltb, if◌then◌else◌}

-- `negsuc n` is -(n + 1).
pub data ℤ : Type 0 where
  pos : ℕ → ℤ
  negsuc : ℕ → ℤ

-- `(int) v` of a uint32_t
abbrev pub to_int : ℕ → ℤ
to_int v = if ltb v (2 ^ 31) then pos v else negsuc (2 ^ 32 - 1 - v)

-- `v >> n`, which keeps the sign
abbrev pub shift_right : ℤ → ℕ → ℤ
shift_right (pos v) n = pos (v / 2 ^ n)
shift_right (negsuc v) n = negsuc (v / 2 ^ n)

-- `<< v` of an int
abbrev pub int_text : ℤ → Text
int_text (pos v) = to_dec v
int_text (negsuc v) = codes "-" ++ to_dec (suc v)
