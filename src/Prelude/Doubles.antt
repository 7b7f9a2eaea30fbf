-- ===== src/Prelude/Doubles.antt =====
-- Finite doubles. Every finite IEEE double is an integer over a power of two, so a comparison of
-- two of them is a comparison of integers, and is exact.
use Prim.Native.Nat.{ℕ, ◌^◌}
use mathlib.Core.Bool.{Bool, false}
use mathlib.Core.Path.{◌≡◌}
use mathlib.Core.Logic.{◌↔◌}
use badgerbots_code_studio.Prelude.Int.{ℤ, pos, ◌*ℤ◌, ◌≤ℤ◌, ltb_ℤ, ltb_ℤ-false_iff}

-- numerator / 2 ^ scale.
pub record Number : Type 0 where
  pub numerator : ℤ
  pub scale : ℕ

-- One side of the comparison of `a` with a number of the given scale.
abbrev pub scaled : Number → ℕ → ℤ
scaled a scale = a.numerator *ℤ pos (2 ^ scale)

abbrev pub ltb_number : Number → Number → Bool
ltb_number a b = ltb_ℤ (scaled a b.scale) (scaled b a.scale)

abbrev pub IsAtMost : Number → Number → Type 0
IsAtMost a b = scaled a b.scale ≤ℤ scaled b a.scale

pub ltb_number-false_iff : (a b : Number) → (ltb_number a b ≡ false) ↔ IsAtMost b a
ltb_number-false_iff a b = ltb_ℤ-false_iff (scaled a b.scale) (scaled b a.scale)

-- The double that a literal stands for.
abbrev pub whole : ℕ → Number
whole n = record { numerator = pos n; scale = 0 }

abbrev pub half : Number
half = record { numerator = pos 1; scale = 1 }

-- 0.1
abbrev pub tenth : Number
tenth = record { numerator = pos 3602879701896397; scale = 55 }
