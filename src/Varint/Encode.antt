-- ===== src/Varint/Encode.antt =====
-- be/schema/varint.go: what `Append` writes, and that it keeps the order of the numbers.
use native.Mathlib.Decide.{dec_lt}
use pixur.Base.{
  ℕ, zero, suc, ◌+◌, ◌-◌, ◌^◌, ◌≤◌, ◌<◌, ◌≡◌, sym, true, false, some, List, [], ◌∷◌, ◌++◌, arith,
  ltb, length, All,
}
use pixur.Varint.{
  prefix_count, prefix_encode_table, length_table, encode_table, find_prefix, suffix_of, append,
  encode,
}
use pixur.Varint.Tables.{
  base, width, symbol_facts, prefix_facts, base_apart, base_next, last_base, last_width,
  last_symbol, word_fits, first_base,
}
use pixur.Varint.Digits.{digits, digits-zero, fill-digits, length-digits, digits_ascii}
use mathlib.Core.List.{append-nil}

-- The number `n` lies in the range of the prefix symbol `i`.
pub record InRange (i n : ℕ) : Type 0 where
  pub known : i < 29
  pub above : base i ≤ n
  pub below : n < base i + 32 ^ width i

-- The search finds the prefix whose range holds `n`, before it runs out of indices.
find_prefix-InRange :
    (rounds i n : ℕ)
    → 16 ≤ i
    → i < 28
    → base i ≤ n
    → n < base 28
    → 28 ≤ i + rounds
    → (j : ℕ) × (find_prefix rounds i n ≡ some j) × (16 ≤ j) × InRange j n
unfolding find_prefix
find_prefix-InRange zero i n lo hi above fits enough = absurd (omega arith)
find_prefix-InRange (suc rounds) i n lo hi above fits enough = elim (dec_lt n (base (i + 1))) [
  | yes h ↦
      let test : ltb n (prefix_encode_table (i + 1)) ≡ true = ground (arith, next) in
      (
        i,
        rw test,
        lo,
        record { known = omega arith; above = above; below = omega (arith, base_next i lo hi) },
      )
  | no h ↦
      let test : ltb n (prefix_encode_table (i + 1)) ≡ false = ground (arith, next) in
      let (j, found, rest, range) =
        find_prefix-InRange rounds (i + 1) n (omega arith) (more (dec_lt (i + 1) 28) h)
          (omega arith) fits (omega arith) in
      (j, rw test found, rest, range)
]
  where
    next : base (i + 1) ≡ prefix_encode_table (i + 1)
    next = ((prefix_facts (i + 1) (omega arith)).3 (omega arith)).0

    more : Dec (i + 1 < 28) → ¬ (n < base (i + 1)) → i + 1 < 28
    more (yes h) k = h
    more (no h) k = let e : i + 1 ≡ 28 = omega arith in absurd (k (rw e fits))

-- The encoding of `n` is the prefix symbol and then the digits of what `n` exceeds its base by.
abbrev pub encoding : ℕ → ℕ → List ℕ
encoding i n = encode_table i ∷ digits (width i) (n - base i)

suffix_of-encoding : (i n : ℕ) → 16 ≤ i → i < 29 → suffix_of i n ≡ encoding i n
unfolding suffix_of
suffix_of-encoding i n lo hi =
    let b : prefix_encode_table i ≡ base i = sym (((prefix_facts i hi).3 lo).0) in
    let w : length_table (encode_table i) - 1 ≡ width i = omega (arith, (prefix_facts i hi).0) in
    rw (b, w, fill-digits (width i) (n - base i) [], append-nil (digits (width i) (n - base i)))

low_range : (n : ℕ) → n < 16 → InRange n n
low_range n h =
    let f = (prefix_facts n (omega arith)).2 h in
    record { known = omega arith; above = omega (arith, f.0); below = rw (f.0, f.1) (omega arith) }

append_low : (dest : List ℕ) (n : ℕ) → n < 16 → append dest n ≡ dest ++ encoding n n
append_low dest n h =
    let f = (prefix_facts n (omega arith)).2 h in
    let test : ltb n 16 ≡ true = ground arith in
    rw (f.1, digits-zero (n - base n)) (unfold append in rw test)

append_middle :
    (dest : List ℕ) (n : ℕ)
    → 16 ≤ n
    → n < base 28
    → (i : ℕ) × InRange i n × (append dest n ≡ dest ++ encoding i n)
append_middle dest n lo hi =
    let (i, found, least, range) =
      find_prefix-InRange 16 16 n (omega arith) (omega arith) (omega (arith, first_base)) hi
        (omega arith) in
    let low : ltb n 16 ≡ false = ground arith in
    let high : ltb n (prefix_count 12) ≡ true = ground (arith, last_base) in
    (i, range, append_found dest n i low high found (suffix_of-encoding i n least range.known))
  where
    append_found :
        (dest : List ℕ) (n i : ℕ)
        → ltb n 16 ≡ false
        → ltb n (prefix_count 12) ≡ true
        → find_prefix 16 16 n ≡ some i
        → suffix_of i n ≡ encoding i n
        → append dest n ≡ dest ++ encoding i n
    append_found dest n i low high found suffix = unfold append in rw (low, high, found, suffix)

append_high : (dest : List ℕ) (n : ℕ) → 16 ≤ n → base 28 ≤ n → append dest n ≡ dest ++ encoding 28 n
append_high dest n lo hi =
    let low : ltb n 16 ≡ false = ground arith in
    let high : ltb n (prefix_count 12) ≡ false = ground (arith, last_base) in
    unfold append in
    rw (
      low,
      high,
      last_symbol,
      last_width,
      last_base,
      fill-digits (width 28) (n - base 28) [],
      append-nil (digits (width 28) (n - base 28)),
    )

pub base28_big : 16 ≤ base 28
base28_big = omega (arith, first_base, base_apart 16 28 (omega arith) (omega arith))

-- `Append` keeps what is there and adds the encoding of the number.
pub append-encoding :
    (dest : List ℕ) (n : ℕ)
    → n < 2 ^ 64
    → (i : ℕ) × InRange i n × (append dest n ≡ dest ++ encoding i n)
append-encoding dest n fits = elim (dec_lt n 16) [
  | yes low ↦ (n, low_range n low, append_low dest n low)
  | no more ↦ elim (dec_lt n (base 28)) [
    | yes h ↦ append_middle dest n (omega arith) h
    | no h ↦ (
      28,
      record { known = omega arith; above = omega arith; below = omega (arith, word_fits) },
      append_high dest n (omega (arith, base28_big)) (omega arith),
    )
  ]
]

pub encode-encoding : (n : ℕ) → n < 2 ^ 64 → (i : ℕ) × InRange i n × (encode n ≡ encoding i n)
encode-encoding n fits = unfold encode in append-encoding [] n fits

-- An encoding of a 64-bit number has 1 to 14 bytes, all ASCII.
pub encode_shape :
    (n : ℕ)
    → n < 2 ^ 64
    → (1 ≤ length (encode n)) × (length (encode n) ≤ 14) × All (λ b. b < 128) (encode n)
encode_shape n fits =
    let (i, range, e) = encode-encoding n fits in
    let len = length-digits (width i) (n - base i) in
    rw e (
      omega arith,
      omega (arith, len, (prefix_facts i range.known).1),
      ((symbol_facts i (omega (arith, range.known))).3, digits_ascii (width i) (n - base i)),
    )

pub encode_high : (n : ℕ) → 16 ≤ n → base 28 ≤ n → encode n ≡ encoding 28 n
encode_high n lo hi = unfold encode in append_high [] n lo hi
