-- ===== src/Base/Int.antt =====
-- Go's signed integers: an `int64` (or an `int`) is read as the integer that it stands for.
use Prim.Native.Nat.{ℕ, zero, suc, ◌+◌, ◌-◌, ◌^◌, ◌≤◌}
use mathlib.Core.Bool.{Bool, true, false}
use mathlib.Core.Path.{◌≡◌}
use native.Mathlib.Omega.{arith}
use sshai.Base.Booleans.{ltb, ◌==◌, if◌then◌else◌}

-- `negsuc n` is -(n + 1).
pub data ℤ : Type 0 where
  pos : ℕ → ℤ
  negsuc : ℕ → ℤ

abbrev pub max_int64 : ℕ
max_int64 = 9223372036854775807

-- v == k, v < 1 and v < 0 for an integer v and a natural number k.
abbrev pub is_nat : ℤ → ℕ → Bool
is_nat (pos n) k = n == k
is_nat (negsuc n) k = false

abbrev pub below_one : ℤ → Bool
below_one (pos n) = ltb n 1
below_one (negsuc n) = true

abbrev pub is_negative : ℤ → Bool
is_negative (pos n) = false
is_negative (negsuc n) = true

-- v > k
abbrev pub above_nat : ℤ → ℕ → Bool
above_nat (pos n) k = ltb k n
above_nat (negsuc n) k = false

abbrev pub same_int : ℤ → ℤ → Bool
same_int (pos m) (pos n) = m == n
same_int (pos m) (negsuc n) = false
same_int (negsuc m) (pos n) = false
same_int (negsuc m) (negsuc n) = m == n

-- v + 1 in an `int64`: the largest value wraps to the smallest.
unfoldable pub inc_int64 : ℤ → ℤ
inc_int64 (pos n) = if n == max_int64 then negsuc max_int64 else pos (n + 1)
inc_int64 (negsuc zero) = pos 0
inc_int64 (negsuc (suc n)) = negsuc n

-- A `uint64` is a natural number; the largest one wraps to 0.
abbrev pub max_uint64 : ℕ
max_uint64 = 18446744073709551615

unfoldable pub inc_uint64 : ℕ → ℕ
inc_uint64 n = if n == max_uint64 then 0 else n + 1

infixl 60 ◌+ℤ◌
abbrev pub ◌+ℤ◌ : ℤ → ℤ → ℤ
pos m +ℤ pos n = pos (m + n)
pos m +ℤ negsuc n = if ltb n m then pos (m - (n + 1)) else negsuc (n - m)
negsuc m +ℤ pos n = if ltb m n then pos (n - (m + 1)) else negsuc (m - n)
negsuc m +ℤ negsuc n = negsuc (m + n + 1)

abbrev pub neg : ℤ → ℤ
neg (pos zero) = pos 0
neg (pos (suc n)) = negsuc n
neg (negsuc n) = pos (n + 1)

-- v < w
abbrev pub ltb_int : ℤ → ℤ → Bool
ltb_int (pos m) (pos n) = ltb m n
ltb_int (pos m) (negsuc n) = false
ltb_int (negsuc m) (pos n) = true
ltb_int (negsuc m) (negsuc n) = ltb n m

-- The value that the bits of the sum of two `int64` stand for.
abbrev pub wrap_int64 : ℤ → ℤ
wrap_int64 (pos n) = if ltb max_int64 n then negsuc (2 ^ 64 - (n + 1)) else pos n
wrap_int64 (negsuc n) = if ltb max_int64 n then pos (2 ^ 64 - (n + 1)) else negsuc n

unfoldable pub add_int64 : ℤ → ℤ → ℤ
add_int64 v w = wrap_int64 (v +ℤ w)

abbrev pub IsInt64 : ℤ → Type 0
IsInt64 (pos n) = n ≤ max_int64
IsInt64 (negsuc n) = n ≤ max_int64

-- The two tests before a sum that keep it from overflowing: v > 0 && w > max - v, and
-- v < 0 && w < min - v.
unfoldable pub overflows : ℤ → ℤ → Bool
unfolding add_int64
overflows v w =
    if is_negative v
    then ltb_int w (add_int64 (negsuc max_int64) (neg v))
    else if below_one v
    then false
    else ltb_int (add_int64 (pos max_int64) (neg v)) w

-- Where the tests fail the sum of two `int64` is their sum, and an `int64`.
pub add_int64-exact :
    (v w : ℤ)
    → IsInt64 v
    → IsInt64 w
    → overflows v w ≡ false
    → (add_int64 w v ≡ w +ℤ v) × IsInt64 (w +ℤ v)
unfolding overflows
add_int64-exact v w p q h = ground arith

-- The tests fail only for a sum that is no `int64`.
pub overflows-of_fits : (v w : ℤ) → IsInt64 v → IsInt64 w → IsInt64 (w +ℤ v) → overflows v w ≡ false
unfolding overflows
overflows-of_fits v w p q h = ground arith
