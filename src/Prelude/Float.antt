-- ===== src/Prelude/Float.antt =====
-- A finite double as it is: a whole number over a power of two.
use Prim.Native.Nat.{ℕ, ◌^◌}
use mathlib.Core.Bool.{Bool, not}
use agents_reality_layer.Prelude.Int.{ℤ, scaled_ltb}

pub record Float : Type 0 where
  pub mantissa : ℤ
  pub scale : ℕ

-- a > b
abbrev pub float_gt : Float → Float → Bool
float_gt a b = scaled_ltb b.mantissa (2 ^ a.scale) a.mantissa (2 ^ b.scale)

-- a >= b
abbrev pub float_ge : Float → Float → Bool
float_ge a b = not (float_gt b a)

-- What `float(value)` comes to: a number, a `TypeError` or a `ValueError`, or an `OverflowError`.
pub data Conversion : Type 0 where
  number : Float → Conversion
  refused overflow : Conversion
