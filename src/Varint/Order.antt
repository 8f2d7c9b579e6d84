-- ===== src/Varint/Order.antt =====
-- be/schema/varint.go: the encoding keeps the order of the numbers.
use Prim.Native.Nat.{compare, Ordering}
use pixur.Base.{ℕ, ◌-◌, ◌^◌, ◌≤◌, ◌<◌, ◌≡◌, ◌⊎◌, sym, inl, inr, arith}
use pixur.Varint.{encode, compare_bytes}
use pixur.Varint.Tables.{base, width, base_apart}
use pixur.Varint.Digits.{digits, compare_symbols, compare_bytes-digits, then_by}
use pixur.Varint.Encode.{InRange, encoding, encode-encoding}
use mathlib.Core.Path.{subst}

same_base :
    (i m n : ℕ)
    → InRange i m
    → InRange i n
    → compare_bytes (encoding i m) (encoding i n) ≡ compare m n
same_base i m n a b =
    rw
      (
        compare_symbols i i (digits (width i) (m - base i)) (digits (width i) (n - base i))
            (omega (arith, a.known)) (omega (arith, a.known)),
        compare_bytes-digits (width i) (m - base i) (n - base i) (omega (arith, a.below, a.above))
            (omega (arith, b.below, b.above)),
      )
      (shift i m n (base i) a.above b.above)
  where
    shift :
        (i m n k : ℕ)
        → k ≤ m
        → k ≤ n
        → then_by (compare i i) (compare (m - k) (n - k)) ≡ compare m n
    shift i m n k hm hn = ground arith

same_prefix :
    (i j m n : ℕ)
    → i ≡ j
    → InRange i m
    → InRange j n
    → compare_bytes (encoding i m) (encoding j n) ≡ compare m n
same_prefix i j m n e a b = rw (← e) (same_base i m n a (subst (λ k. InRange k n) (sym e) b))

-- Encodings are ordered as the numbers, prefix first.
encoding_order :
    (i j m n : ℕ)
    → InRange i m
    → InRange j n
    → compare_bytes (encoding i m) (encoding j n) ≡ compare m n
encoding_order i j m n a b = elim (lt_cases i j) [
  | inl lt ↦
      rw (symbols, compare-lt i j lt)
        (sym (compare-lt m n (omega (arith, base_apart i j lt b.known, a.below, b.above))))
  | inr (inl gt) ↦
      rw (symbols, compare-gt i j gt)
        (sym (compare-gt m n (omega (arith, base_apart j i gt a.known, b.below, a.above))))
  | inr (inr e) ↦ same_prefix i j m n e a b
]
  where
    lt_cases : (i j : ℕ) → (i < j) ⊎ ((j < i) ⊎ (i ≡ j))
    lt_cases i j = ground arith

    compare-lt : (m n : ℕ) → m < n → compare m n ≡ Ordering.lt
    compare-lt m n h = ground arith

    compare-gt : (m n : ℕ) → n < m → compare m n ≡ Ordering.gt
    compare-gt m n h = ground arith

    symbols :
        compare_bytes (encoding i m) (encoding j n)
        ≡ then_by
            (compare i j)
            (compare_bytes (digits (width i) (m - base i)) (digits (width j) (n - base j)))
    symbols =
        compare_symbols i j (digits (width i) (m - base i)) (digits (width j) (n - base j))
          (omega (arith, a.known)) (omega (arith, b.known))

-- The byte order of two encodings is the numeric order of the two numbers as uint64.
pub compare_bytes-encode :
    (m n : ℕ) → m < 2 ^ 64 → n < 2 ^ 64 → compare_bytes (encode m) (encode n) ≡ compare m n
compare_bytes-encode m n hm hn =
    let (i, a, em) = encode-encoding m hm in
    let (j, b, en) = encode-encoding n hn in rw (em, en) (encoding_order i j m n a b)
