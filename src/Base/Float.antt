-- ===== src/Base/Float.antt =====
-- Go's float64 as far as it is compared: every finite value is a whole multiple of 2 ^ -1074, and
-- `fin z` is z of these units. The two zeros are one value here; no comparison tells them apart.
use resilient_mesh_razorpayb.Base.Int.{ℤ, pos, ltb_ℤ, leb_ℤ}
use Prim.Native.Nat.{◌^◌}
use mathlib.Core.Bool.{Bool, true, false}

pub data Float64 : Type 0 where
  nan neg_inf pos_inf : Float64
  fin : ℤ → Float64

abbrev pub is_nan : Float64 → Bool
is_nan nan = true
is_nan _ = false

abbrev pub is_inf : Float64 → Bool
is_inf neg_inf = true
is_inf pos_inf = true
is_inf _ = false

-- a <= b, which is false as soon as an operand is NaN.
abbrev pub leb_float : Float64 → Float64 → Bool
leb_float nan b = false
leb_float neg_inf nan = false
leb_float neg_inf _ = true
leb_float pos_inf pos_inf = true
leb_float pos_inf _ = false
leb_float (fin a) (fin b) = leb_ℤ a b
leb_float (fin a) pos_inf = true
leb_float (fin a) _ = false

-- a < b.
abbrev pub ltb_float : Float64 → Float64 → Bool
ltb_float nan b = false
ltb_float neg_inf (fin b) = true
ltb_float neg_inf pos_inf = true
ltb_float neg_inf _ = false
ltb_float pos_inf b = false
ltb_float (fin a) (fin b) = ltb_ℤ a b
ltb_float (fin a) pos_inf = true
ltb_float (fin a) _ = false

abbrev pub float_zero : Float64
float_zero = fin (pos 0)

-- 1.0
unfoldable pub float_one : Float64
float_one = fin (pos (2 ^ 1074))
