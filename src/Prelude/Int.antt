-- ===== src/Prelude/Int.antt =====
-- Signed integers over the native numbers: the parts that tests and sums go through.
use Prim.Native.Nat.{ℕ, suc, ◌+◌, ◌*◌, compare, Ordering}
use mathlib.Core.Bool.{Bool, true, false}

-- `negsuc n` is -(n + 1).
pub data ℤ : Type 0 where
  pos : ℕ → ℤ
  negsuc : ℕ → ℤ

abbrev pub pos_part : ℤ → ℕ
pos_part (pos n) = n
pos_part (negsuc n) = 0

abbrev pub neg_part : ℤ → ℕ
neg_part (pos n) = 0
neg_part (negsuc n) = suc n

-- a * n < b * m, for integers a and b and positive scales n and m
abbrev pub scaled_ltb : ℤ → ℕ → ℤ → ℕ → Bool
scaled_ltb a n b m =
    elim (compare (pos_part a * n + neg_part b * m) (pos_part b * m + neg_part a * n)) [
      | Ordering.lt ↦ true
      | _ ↦ false
    ]

abbrev pub scaled_eqb : ℤ → ℕ → ℤ → ℕ → Bool
scaled_eqb a n b m =
    elim (compare (pos_part a * n + neg_part b * m) (pos_part b * m + neg_part a * n)) [
      | Ordering.eq ↦ true
      | _ ↦ false
    ]
