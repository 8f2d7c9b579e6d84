-- ===== src/CapSet/Words.antt =====
-- be/schema/user.go: the bits of the 64-bit word: setting one, clearing one, counting them, and the
-- loop that lists them.
use Prim.Native.Nat.{bit_and, bit_or}
use native.Mathlib.Decide.{dec_lt}
use native.Mathlib.Nat.{pow-le-pow_right, pow-suc}
use pixur.Base.{
  ℕ, zero, suc, ◌+◌, ◌/◌, ◌%◌, ◌^◌, ◌≤◌, ◌<◌, ◌≡◌, refl, inl, inr, Bool, true, false, not, ◌&&◌, [],
  ◌∷◌, arith, ◌==◌, ==_iff, Bool-cases,
}
use pixur.Base.Bits.{test_bit, bit_or_step, test_bit-bit_and, test_bit-pow, test_bit-complement}
use pixur.Base.Int.{pos, eqb_ℤ_iff}
use pixur.CapSet.{Capability, contains, in_word, ones_count, trailing_zeros, complement, slice_word}

pub pow_lt_word : (t : ℕ) → t < 64 → 2 ^ t < 2 ^ 64
pow_lt_word t h = omega (arith, pow-le-pow_right {n = 2} (omega arith) h, pow-suc 2 t, pow_pos t)
  where
    pow_pos : (t : ℕ) → 0 < 2 ^ t
    pow_pos t = omega (arith, pow-le-pow_right {n = 2} (omega arith) {i = 0} {j = t} (omega arith))

pub bit_or-lt : (k a b : ℕ) → a < 2 ^ k → b < 2 ^ k → bit_or a b < 2 ^ k
bit_or-lt zero a b ha hb =
    let ea : a ≡ 0 = omega arith in let eb : b ≡ 0 = omega arith in rw (ea, eb) (omega arith)
bit_or-lt (suc k) a b ha hb = omega (
  arith,
  bit_or_step a b,
  pow-suc 2 k,
  bit_or-lt k (a / 2) (b / 2) (omega (arith, pow-suc 2 k)) (omega (arith, pow-suc 2 k)),
)

-- The count is zero exactly if no bit is set.
pub ones_count-zero : (k i w : ℕ) → ones_count k w ≡ 0 → i < k → test_bit i w ≡ false
unfolding ones_count
ones_count-zero zero i w e h = absurd (omega arith)
ones_count-zero (suc k) zero w e h = ground arith
ones_count-zero (suc k) (suc i) w e h = ones_count-zero k i (w / 2) (omega arith) (omega arith)

pub ones_count-eq_zero : (k w : ℕ) → ((i : ℕ) → i < k → test_bit i w ≡ false) → ones_count k w ≡ 0
unfolding ones_count
ones_count-eq_zero zero w h = refl
ones_count-eq_zero (suc k) w h =
    ground
      (arith, h 0 (omega arith), ones_count-eq_zero k (w / 2) (λ i lt. h (suc i) (omega arith)))

trailing_zeros-le : (k w : ℕ) → trailing_zeros k w ≤ k
unfolding trailing_zeros
trailing_zeros-le zero w = omega arith
trailing_zeros-le (suc k) w = ground (arith, trailing_zeros-le k (w / 2))

trailing_zeros_below : (k i w : ℕ) → i < trailing_zeros k w → test_bit i w ≡ false
unfolding trailing_zeros
trailing_zeros_below zero i w h = absurd (omega arith)
trailing_zeros_below (suc k) zero w h = ground arith
trailing_zeros_below (suc k) (suc i) w h = ground (arith, trailing_zeros_below k i (w / 2))

trailing_zeros_at : (k w : ℕ) → trailing_zeros k w < k → test_bit (trailing_zeros k w) w ≡ true
unfolding trailing_zeros
trailing_zeros_at zero w h = absurd (omega arith)
trailing_zeros_at (suc k) w h = elim (Bool-cases (w % 2 == 1)) [
  | inl odd ↦ rw odd odd
  | inr even ↦ rw even (trailing_zeros_at k (w / 2) (ground arith))
]

-- `c &= ^(uint64(1) << t)` clears bit `t` and keeps the others.
clear_bit :
    (t i w : ℕ)
    → t < 64
    → i < 64
    → test_bit i (bit_and w (complement (2 ^ t))) ≡ (test_bit i w && not (i == t))
clear_bit t i w ht hi = rw (
  test_bit-bit_and i w (complement (2 ^ t)),
  test_bit-complement 64 i (2 ^ t) (pow_lt_word t ht) hi,
  test_bit-pow i t,
)

slice_word_stop : (fuel w : ℕ) → trailing_zeros 64 w ≡ 64 → slice_word (suc fuel) w ≡ []
unfolding slice_word
slice_word_stop fuel w e = rw e

slice_word_step :
    (fuel w : ℕ)
    → trailing_zeros 64 w < 64
    → let t = trailing_zeros 64 w in
      slice_word (suc fuel) w ≡ pos t ∷ slice_word fuel (bit_and w (complement (2 ^ t)))
unfolding slice_word
slice_word_step fuel w h = let e : (trailing_zeros 64 w == 64) ≡ false = ground arith in rw e

-- Once the lowest bit that is set is cleared, all bits up to it are clear.
cleared :
    (t w : ℕ)
    → t < 64
    → ((i : ℕ) → i < t → test_bit i w ≡ false)
    → (i : ℕ) → i < suc t
    → test_bit i (bit_and w (complement (2 ^ t))) ≡ false
cleared t w ht low i hi = elim (dec_lt i t) [
  | yes below ↦ rw (clear_bit t i w ht (omega arith), low i below)
  | no at ↦
      rw (clear_bit t i w ht (omega arith), (==_iff i t).1 (omega arith)) (and_false (test_bit i w))
]
  where
    and_false : (b : Bool) → (b && false) ≡ false
    and_false b = ground arith

-- The loop of `Slice` lists the bits that are set. `k` is a bound below which all are clear.
contains-slice_word_from :
    (fuel k n w : ℕ)
    → 64 ≤ fuel + k
    → ((i : ℕ) → i < k → test_bit i w ≡ false)
    → n < 64
    → contains (slice_word fuel w) (pos n) ≡ test_bit n w
contains-slice_word_from zero k n w hk low hn = rw (low n (omega arith)) (unfold slice_word in refl)
contains-slice_word_from (suc fuel) k n w hk low hn = elim (dec_lt (trailing_zeros 64 w) 64) [
  | no all_clear ↦
      let stop : trailing_zeros 64 w ≡ 64 = omega (arith, trailing_zeros-le 64 w) in
      rw (slice_word_stop fuel w stop, trailing_zeros_below 64 n w (omega arith))
  | yes more ↦
      let t = trailing_zeros 64 w in
      let w' = bit_and w (complement (2 ^ t)) in
      let rest =
        contains-slice_word_from fuel (suc t) n w'
          (omega (arith, above k t low (trailing_zeros_at 64 w more)))
          (cleared t w more (λ i h. trailing_zeros_below 64 i w h)) hn in
      rw (slice_word_step fuel w more)
        (ground (arith, rest, clear_bit t n w more hn, trailing_zeros_at 64 w more))
]
  where
    above : (k t : ℕ) → ((i : ℕ) → i < k → test_bit i w ≡ false) → test_bit t w ≡ true → k ≤ t
    above k t low set = ground (arith, low t)

-- It lists nothing but the numbers of bits.
pub slice_word-in_word :
    (fuel w : ℕ) (c : Capability) → in_word c ≡ false → contains (slice_word fuel w) c ≡ false
slice_word-in_word zero w c h = unfold slice_word in refl
slice_word-in_word (suc fuel) w c h = elim (dec_lt (trailing_zeros 64 w) 64) [
  | no all_clear ↦
      let stop : trailing_zeros 64 w ≡ 64 = omega (arith, trailing_zeros-le 64 w) in
      rw (slice_word_stop fuel w stop)
  | yes more ↦
      let t = trailing_zeros 64 w in
      rw (slice_word_step fuel w more) (
        ground (
          arith,
          slice_word-in_word fuel (bit_and w (complement (2 ^ t))) c h,
          eqb_ℤ_iff (pos t) c,
        ))
]

-- The whole loop, from a word with nothing cleared yet.
pub contains-slice_word : (n w : ℕ) → n < 64 → contains (slice_word 64 w) (pos n) ≡ test_bit n w
contains-slice_word n w h =
    contains-slice_word_from 64 0 n w (omega arith) (λ i lt. absurd (omega arith)) h
