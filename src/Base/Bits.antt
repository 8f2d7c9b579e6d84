-- ===== src/Base/Bits.antt =====
-- Single bits of a machine word: the laws of `&`, `|`, `^` and `1 << i`, for every width.
use Prim.Native.Nat.{
  ℕ, zero, suc, ◌+◌, ◌-◌, ◌*◌, ◌/◌, ◌%◌, ◌^◌, ◌≤◌, ◌<◌, min, max, bit_and, bit_or, digits,
  bit_and-bitwise, bit_or-bitwise,
}
use mathlib.Core.Path.{◌≡◌, refl, ◌∙◌}
use mathlib.Core.Bool.{Bool, false, not, ◌&&◌, ◌||◌}
use native.Mathlib.Omega.{arith}
use native.Mathlib.Decide.{dec_le}
use native.Mathlib.Nat.{pow-suc}
use pixur.Base.Tests.{◌==◌, ltb}

-- Bit `i` of `w`.
abbrev pub test_bit : ℕ → ℕ → Bool
test_bit zero w = w % 2 == 1
test_bit (suc i) w = test_bit i (w / 2)

-- The native digit recursion under any operation, for two amounts of fuel that both suffice.
module _ (rest : ℕ → ℕ) (op : ℕ → ℕ → ℕ) where
  digits_enough : (n m w v : ℕ) → w ≤ min n m → digits rest op n w v ≡ digits rest op m w v
  digits_enough n m zero v h = no_digits n m
    where
      no_digits : (n m : ℕ) → digits rest op n zero v ≡ digits rest op m zero v
      no_digits zero zero = refl
      no_digits zero (suc m) = refl
      no_digits (suc n) zero = refl
      no_digits (suc n) (suc m) = refl
  digits_enough zero m (suc w) v h = absurd (omega arith)
  digits_enough (suc n) zero (suc w) v h = absurd (omega arith)
  digits_enough (suc n) (suc m) (suc w) v h =
      let shorter = digits_enough n m (suc w / 2) (v / 2) (omega arith) in omega (arith, shorter)

bit_and_low : (v : ℕ) → bit_and 0 v ≡ 0
bit_and_low v = bit_and-bitwise 0 v

bit_or_low : (v : ℕ) → bit_or 0 v ≡ v
bit_or_low v = bit_or-bitwise 0 v

-- `&` and `|` split off the lowest bit.
pub bit_and_step : (w v : ℕ) → bit_and w v ≡ bit_and (w / 2) (v / 2) * 2 + min (w % 2) (v % 2)
bit_and_step zero v = omega (arith, bit_and_low v, bit_and_low (v / 2))
bit_and_step (suc w) v =
    let fuel = digits_enough (λ r. zero) min w (suc w / 2) (suc w / 2) (v / 2) (omega arith) in
    omega (arith, fuel, bit_and-bitwise (suc w) v, bit_and-bitwise (suc w / 2) (v / 2))

pub bit_or_step : (w v : ℕ) → bit_or w v ≡ bit_or (w / 2) (v / 2) * 2 + max (w % 2) (v % 2)
bit_or_step zero v = omega (arith, bit_or_low v, bit_or_low (v / 2))
bit_or_step (suc w) v =
    let fuel = digits_enough (λ r. r) max w (suc w / 2) (suc w / 2) (v / 2) (omega arith) in
    omega (arith, fuel, bit_or-bitwise (suc w) v, bit_or-bitwise (suc w / 2) (v / 2))

-- `w & 0` is 0, by strong induction on `w`.
bit_and_none : (most w : ℕ) → w ≤ most → bit_and w 0 ≡ 0
bit_and_none zero w h = let e : w ≡ 0 = omega arith in rw e
bit_and_none (suc most) w h = elim (dec_le w most) [
  | yes less ↦ bit_and_none most w less
  | no top ↦ omega (arith, bit_and_step w 0, bit_and_none most (w / 2) (omega arith))
]

pub bit_and_unit : (w : ℕ) → bit_and w 1 ≡ w % 2
bit_and_unit w = omega (arith, bit_and_step w 1, bit_and_none (w / 2) (w / 2) (omega arith))

bit_and-half : (a b : ℕ) → bit_and a b / 2 ≡ bit_and (a / 2) (b / 2)
bit_and-half a b = omega (arith, bit_and_step a b)

bit_or-half : (a b : ℕ) → bit_or a b / 2 ≡ bit_or (a / 2) (b / 2)
bit_or-half a b = omega (arith, bit_or_step a b)

pub test_bit-bit_and : (i a b : ℕ) → test_bit i (bit_and a b) ≡ (test_bit i a && test_bit i b)
test_bit-bit_and zero a b = ground (arith, bit_and_step a b)
test_bit-bit_and (suc i) a b = rw (bit_and-half a b) (test_bit-bit_and i (a / 2) (b / 2))

pub test_bit-bit_or : (i a b : ℕ) → test_bit i (bit_or a b) ≡ (test_bit i a || test_bit i b)
test_bit-bit_or zero a b = ground (arith, bit_or_step a b)
test_bit-bit_or (suc i) a b = rw (bit_or-half a b) (test_bit-bit_or i (a / 2) (b / 2))

test_bit-zero : (i : ℕ) → test_bit i 0 ≡ false
test_bit-zero zero = refl
test_bit-zero (suc i) = test_bit-zero i

pow_half : (i : ℕ) → 2 ^ suc i / 2 ≡ 2 ^ i
pow_half i = omega (arith, pow-suc 2 i)

pow_even : (i : ℕ) → 2 ^ suc i % 2 ≡ 0
pow_even i = omega (arith, pow-suc 2 i)

pub bit_and-le : (w v : ℕ) → bit_and w v ≤ w
bit_and-le w v = below w w v (omega arith)
  where
    below : (most w v : ℕ) → w ≤ most → bit_and w v ≤ w
    below zero w v h = let e : w ≡ 0 = omega arith in rw e (omega (arith, bit_and_low v))
    below (suc most) w v h = elim (dec_le w most) [
      | yes less ↦ below most w v less
      | no top ↦ omega (arith, bit_and_step w v, below most (w / 2) (v / 2) (omega arith))
    ]

-- `1 << j` has bit `j` and no other.
pub test_bit-pow : (i j : ℕ) → test_bit i (2 ^ j) ≡ (i == j)
test_bit-pow zero zero = refl
test_bit-pow zero (suc j) = ground (arith, pow_even j)
test_bit-pow (suc i) zero = rw (test_bit-zero i) (ground arith)
test_bit-pow (suc i) (suc j) = rw (pow_half j) (test_bit-pow i j ∙ ground arith)

-- The test `w & (1 << i) > 0`.
pub mask_test : (i w : ℕ) → ltb 0 (bit_and w (2 ^ i)) ≡ test_bit i w
mask_test zero w = ground (arith, bit_and_step w 1, bit_and_none (w / 2) (w / 2) (omega arith))
mask_test (suc i) w =
    ground (arith, mask_test i (w / 2), bit_and_step w (2 ^ suc i), pow_half i, pow_even i)

complement_half : (k x : ℕ) → x < 2 ^ suc k → (2 ^ suc k - 1 - x) / 2 ≡ 2 ^ k - 1 - x / 2
complement_half k x h = omega (arith, pow-suc 2 k)

-- `^x` of a word of `k` bits flips each bit below `k`.
pub test_bit-complement :
    (k i x : ℕ) → x < 2 ^ k → i < k → test_bit i (2 ^ k - 1 - x) ≡ not (test_bit i x)
test_bit-complement zero i x hx hi = absurd (omega arith)
test_bit-complement (suc k) zero x hx hi = ground (arith, pow-suc 2 k)
test_bit-complement (suc k) (suc i) x hx hi =
    rw (complement_half k x hx)
      (test_bit-complement k i (x / 2) (omega (arith, pow-suc 2 k)) (omega arith))
