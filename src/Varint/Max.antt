-- ===== src/Varint/Max.antt =====
-- be/schema/varint.go: the comparison with the greatest encoding in `DecodeBytes`, on ASCII input.
-- `bytes.ToLower` belongs to the Go library; that it maps ASCII text byte by byte is its documented
-- behaviour.
use Prim.Native.Nat.{compare, Ordering}
use mathlib.Core.List.{append-nil}
use mathlib.Core.Path.{subst}
use native.Mathlib.Decide.{dec_lt}
use pixur.Base.{
  ℕ, zero, suc, ◌-◌, ◌^◌, ◌≤◌, ◌<◌, ◌≡◌, refl, ◌∙◌, ap, sym, List, [], ◌∷◌, ◌++◌, arith, length,
  take, All, map,
}
use pixur.Varint.{
  length_table, encode_table, find_prefix, fill, suffix_of, compare_bytes, max_value, max_length,
  prefix_encode_table, prefix_count,
}
use pixur.Varint.Tables.{base, width, base_apart, last_base-le, word_fits, lower_byte}
use pixur.Varint.Digits.{
  digits, length-digits, compare_bytes-append, compare_symbols, compare_bytes-digits, then_by,
}
use pixur.Varint.Encode.{InRange, encoding, encode_high, base28_big}

abbrev pub max_word : ℕ
max_word = 2 ^ 64 - 1

-- `bytes.ToLower` on ASCII text.
abbrev pub LowersAscii : (List ℕ → List ℕ) → Type 0
LowersAscii to_lower = (raw : List ℕ) → All (λ b. b < 128) raw → to_lower raw ≡ map lower_byte raw

pub max_length_lem : max_length ≡ 14
unfolding max_length find_prefix fill suffix_of encode_table prefix_encode_table length_table
    prefix_count
max_length_lem = refl

pub max_value-encoding : max_value ≡ encoding 28 max_word
unfolding max_value
max_value-encoding = encode_high max_word (omega (arith, base28_big, last_base-le)) last_base-le

pub All-append :
    (xs ys : List ℕ) → All (λ b. b < 128) xs → All (λ b. b < 128) ys → All (λ b. b < 128) (xs ++ ys)
All-append [] ys h k = k
All-append (x ∷ xs) ys (hx, h) k = (hx, All-append xs ys h k)

pub map-append_bytes :
    (xs ys : List ℕ) → map lower_byte (xs ++ ys) ≡ map lower_byte xs ++ map lower_byte ys
map-append_bytes [] ys = refl
map-append_bytes (x ∷ xs) ys = ap (λ t. lower_byte x ∷ t) (map-append_bytes xs ys)

pub take-length : (xs ys : List ℕ) (k : ℕ) → length xs ≡ k → take k (xs ++ ys) ≡ xs
take-length [] ys zero h = refl
take-length [] ys (suc k) h = absurd (omega arith)
take-length (x ∷ xs) ys zero h = absurd (omega arith)
take-length (x ∷ xs) ys (suc k) h = ap (λ t. x ∷ t) (take-length xs ys k (omega arith))

pub last_prefix :
    (n : ℕ) (r : List ℕ)
    → InRange 28 n
    → compare_bytes (encoding 28 n ++ r) max_value
      ≡ then_by (compare n max_word) (compare_bytes r [])
last_prefix n r range =
    let m = digits (width 28) (max_word - base 28) in
    rw
      (
        max_value-encoding,
        compare_symbols 28 28 (digits (width 28) (n - base 28) ++ r) m (omega arith) (omega arith),
        sym (append-nil m),
        compare_bytes-append (digits (width 28) (n - base 28)) m r [] (
            length-digits (width 28) (n - base 28)
            ∙ sym (length-digits (width 28) (max_word - base 28))),
        compare_bytes-digits (width 28) (n - base 28) (max_word - base 28)
            (omega (arith, range.below, range.above)) (omega (arith, word_fits, last_base-le)),
      )
      (shift n (base 28) (compare_bytes r []) range.above last_base-le)
  where
    shift :
        (n k : ℕ) (o : Ordering)
        → k ≤ n
        → k ≤ max_word
        → then_by (compare (n - k) (max_word - k)) o ≡ then_by (compare n max_word) o
    shift n k o hn hm = ground arith

-- Against the greatest encoding: a number in front of `r`.
pub encoding_max :
    (i n : ℕ) (r : List ℕ)
    → InRange i n
    → n < 2 ^ 64
    → compare_bytes (encoding i n ++ r) max_value
      ≡ then_by (compare n max_word) (compare_bytes r [])
encoding_max i n r range fits = elim (dec_lt i 28) [
  | yes small ↦ rw (
    max_value-encoding,
    symbols,
    compare-lt i 28 small,
    compare-lt n max_word
        (omega (arith, base_apart i 28 small (omega arith), range.below, last_base-le)),
  )
  | no big ↦ same_prefix i n r (omega (arith, range.known)) range fits
]
  where
    compare-lt : (m n : ℕ) → m < n → compare m n ≡ Ordering.lt
    compare-lt m n h = ground arith

    symbols :
        compare_bytes (encoding i n ++ r) (encoding 28 max_word)
        ≡ then_by (compare i 28) (
            compare_bytes
              (digits (width i) (n - base i) ++ r)
              (digits (width 28) (max_word - base 28)))
    symbols =
        compare_symbols i 28 (digits (width i) (n - base i) ++ r)
          (digits (width 28) (max_word - base 28)) (omega (arith, range.known)) (omega arith)

    same_prefix :
        (i n : ℕ) (r : List ℕ)
        → i ≡ 28
        → InRange i n
        → n < 2 ^ 64
        → compare_bytes (encoding i n ++ r) max_value
          ≡ then_by (compare n max_word) (compare_bytes r [])
    same_prefix i n r e range fits = rw e (last_prefix n r (subst (λ k. InRange k n) e range))
