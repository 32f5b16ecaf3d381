-- ===== src/Prelude/Int.antt =====
-- Signed integers, for the fields that Go declares as `int` or `int64`.
use Prim.Native.Nat.{ℕ, zero, suc}
use Prim.Native.String.{String}
use mathlib.Core.Bool.{Bool, true, false, ◌&&◌}
use rknno_vpn.Prelude.Tests.{leb}
use rknno_vpn.Prelude.Text.{concat}
use rknno_vpn.Prelude.Print.{decimal}

-- `negsuc n` is -(n + 1).
pub data ℤ : Type 0 where
  pos : ℕ → ℤ
  negsuc : ℕ → ℤ

abbrev pub is_zero_ℤ : ℤ → Bool
is_zero_ℤ (pos zero) = true
is_zero_ℤ _ = false

-- lo ≤ n ≤ hi, for bounds that are not negative.
abbrev pub in_range : ℕ → ℕ → ℤ → Bool
in_range lo hi (pos n) = leb lo n && leb n hi
in_range lo hi (negsuc n) = false

-- `strconv.Itoa`.
unfoldable pub itoa : ℤ → String
itoa (pos n) = decimal n
itoa (negsuc n) = concat "-" (decimal (suc n))
