-- ===== src/Prelude/Amount.antt =====
-- Python's numbers as far as quotas use them: integers, the two infinities and nan.
use nodepool.Prelude.Tests.{ltb}
use Prim.Native.Nat.{ℕ, suc, ◌+◌, ◌-◌, ◌≤◌}
use mathlib.Core.Path.{◌≡◌}
use mathlib.Core.Bool.{Bool, true, false}
use native.Mathlib.Omega.{arith}
use nodepool.Prelude.Tests.{leb, if◌then◌else◌}

-- `negsuc n` is -(n + 1).
pub data ℤ : Type 0 where
  pos : ℕ → ℤ
  negsuc : ℕ → ℤ

abbrev pub up : ℤ → ℕ
up (pos n) = n
up (negsuc n) = 0

abbrev pub down : ℤ → ℕ
down (pos n) = 0
down (negsuc n) = suc n

abbrev pub difference : ℕ → ℕ → ℤ
difference a b = if leb b a then pos (a - b) else negsuc (b - a - 1)

infix 50 ◌≤ℤ◌
abbrev pub ◌≤ℤ◌ : ℤ → ℤ → Type 0
a ≤ℤ b = up a + down b ≤ up b + down a

pub data Amount : Type 0 where
  fin : ℤ → Amount
  infinite neg_infinite nan : Amount

unfoldable pub plus : Amount → Amount → Amount
plus (fin a) (fin b) = fin (difference (up a + up b) (down a + down b))
plus (fin a) other = other
plus infinite (fin b) = infinite
plus infinite infinite = infinite
plus infinite neg_infinite = nan
plus infinite nan = nan
plus neg_infinite (fin b) = neg_infinite
plus neg_infinite infinite = nan
plus neg_infinite neg_infinite = neg_infinite
plus neg_infinite nan = nan
plus nan other = nan

unfoldable pub negate : Amount → Amount
negate (fin a) = fin (difference (down a) (up a))
negate infinite = neg_infinite
negate neg_infinite = infinite
negate nan = nan

unfoldable pub minus : Amount → Amount → Amount
unfolding plus negate
minus a b = plus a (negate b)

-- `v < 0`; every comparison with nan is false.
unfoldable pub is_negative : Amount → Bool
is_negative (fin (pos n)) = false
is_negative (fin (negsuc n)) = true
is_negative infinite = false
is_negative neg_infinite = true
is_negative nan = false

-- `v > 0`
unfoldable pub is_positive : Amount → Bool
is_positive (fin (pos n)) = ltb 0 n
is_positive (fin (negsuc n)) = false
is_positive infinite = true
is_positive neg_infinite = false
is_positive nan = false

-- `b` fits into `a`: a comparison of numbers, where nan is no number.
abbrev pub Fits : Amount → Amount → Type 0
Fits (fin b) (fin a) = b ≤ℤ a
Fits (fin b) infinite = Unit
Fits (fin b) neg_infinite = ⊥
Fits (fin b) nan = Unit
Fits infinite (fin a) = ⊥
Fits infinite infinite = Unit
Fits infinite neg_infinite = ⊥
Fits infinite nan = Unit
Fits neg_infinite a = Unit
Fits nan a = Unit

-- A difference that is not negative means that the second number fits into the first.
pub minus-Fits : (a b : Amount) → is_negative (minus a b) ≡ false → Fits b a
unfolding minus is_negative
minus-Fits (fin a) (fin b) h = ground arith
minus-Fits (fin a) infinite h = cc
minus-Fits (fin a) neg_infinite h = tt
minus-Fits (fin a) nan h = tt
minus-Fits infinite (fin b) h = tt
minus-Fits infinite infinite h = tt
minus-Fits infinite neg_infinite h = tt
minus-Fits infinite nan h = tt
minus-Fits neg_infinite (fin b) h = cc
minus-Fits neg_infinite infinite h = cc
minus-Fits neg_infinite neg_infinite h = tt
minus-Fits neg_infinite nan h = tt
minus-Fits nan (fin b) h = tt
minus-Fits nan infinite h = tt
minus-Fits nan neg_infinite h = tt
minus-Fits nan nan h = tt
