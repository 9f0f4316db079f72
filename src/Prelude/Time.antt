-- ===== src/Prelude/Time.antt =====
-- Python's `datetime`: microseconds since the year 1, in UTC where the value has a zone. A value
-- without a zone cannot be subtracted from one with a zone.
use Prim.Native.Nat.{ℕ}
use mathlib.Core.Bool.{Bool}

pub record DateTime : Type 0 where
  pub micros : ℕ
  pub aware : Bool
