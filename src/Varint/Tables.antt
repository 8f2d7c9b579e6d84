-- ===== src/Varint/Tables.antt =====
-- be/schema/varint.go: how the five tables fit together, checked at every entry.
use pixur.Base.{
  ℕ, ◌+◌, ◌-◌, ◌^◌, ◌≤◌, ◌<◌, ◌≡◌, ◌≢◌, ◌⊎◌, refl, Bool, true, false, not, ◌&&◌, ◌||◌, arith, ltb,
  leb, leb→le, ◌==◌, ==_iff, if◌then◌else◌,
}
use pixur.Base.Range.{passes_below, passes_at}
use pixur.Varint.{
  prefix_count, prefix_decode_table, prefix_encode_table, length_table, value_table, encode_table,
}

-- The bytes that `DecodeBytes` does not take for a symbol.
abbrev pub is_bad : ℕ → Bool
is_bad b = value_table b == 0 && not (b == b'0')

-- An upper-case letter of ASCII in lower case, any other byte as it is.
abbrev pub lower_byte : ℕ → ℕ
lower_byte b = if leb b'A' b && leb b b'Z' then b + 32 else b

-- The least number with the prefix symbol `i`, and the number of symbols behind the prefix.
pub base : ℕ → ℕ
base i = prefix_decode_table (encode_table i)

pub base_lem : (i : ℕ) → prefix_decode_table (encode_table i) ≡ base i
unfolding base
base_lem i = refl

pub width : ℕ → ℕ
width i = length_table (encode_table i) - 1

symbol_table :
    passes_below 32 (λ i.
      value_table (encode_table i) == i
      && not (is_bad (encode_table i))
      && lower_byte (encode_table i) == encode_table i
      && ltb (encode_table i) 128)
    ≡ true
unfolding passes_below value_table encode_table
symbol_table = refl

-- A symbol's byte has the symbol's value, is accepted, and is ASCII in lower case.
pub symbol_facts :
    (i : ℕ)
    → i < 32
    → (value_table (encode_table i) ≡ i)
      × (is_bad (encode_table i) ≡ false)
      × (lower_byte (encode_table i) ≡ encode_table i)
      × (encode_table i < 128)
symbol_facts i h = ground (arith, passes_at 32 _ i h symbol_table)

order_table :
    passes_below 32
      (λ i. passes_below 32 (λ j. not (ltb i j) || ltb (encode_table i) (encode_table j)))
    ≡ true
unfolding passes_below encode_table
order_table = refl

-- The alphabet is in the order of its bytes.
pub encode_table_mono : (i j : ℕ) → i < j → j < 32 → encode_table i < encode_table j
encode_table_mono i j h hj =
    ground (arith, passes_at 32 _ j hj (passes_at 32 _ i (omega arith) order_table))

prefix_table :
    passes_below 29 (λ i.
      length_table (encode_table i) == width i + 1
      && leb (length_table (encode_table i)) 14
      && (if ltb i 16
          then base i == i && width i == 0
          else base i == prefix_encode_table i && width i == i - 15))
    ≡ true
unfolding passes_below length_table encode_table base width prefix_decode_table prefix_encode_table
prefix_table = refl

pub prefix_facts :
    (i : ℕ)
    → i < 29
    → (length_table (encode_table i) ≡ width i + 1)
      × (width i ≤ 13)
      × (i < 16 → (base i ≡ i) × (width i ≡ 0))
      × (16 ≤ i → (base i ≡ prefix_encode_table i) × (width i ≡ i - 15))
prefix_facts i h =
    let fact = passes_at 29 _ i h prefix_table in
    (
      ground (arith, fact),
      ground (arith, fact),
      λ lo. ground (arith, fact),
      λ hi. ground (arith, fact),
    )

gap_table :
    passes_below 29
      (λ j. passes_below 29 (λ i. not (ltb i j) || leb (base i + 32 ^ width i) (base j)))
    ≡ true
unfolding passes_below length_table encode_table base width prefix_decode_table prefix_encode_table
gap_table = refl

-- The ranges of two prefixes do not overlap.
pub base_apart : (i j : ℕ) → i < j → j < 29 → base i + 32 ^ width i ≤ base j
base_apart i j h hj =
    leb→le _ _ (ground (arith, passes_at 29 _ i (omega arith) (passes_at 29 _ j hj gap_table)))

next_table : passes_below 28 (λ i. ltb i 16 || base (i + 1) == base i + 32 ^ width i) ≡ true
unfolding passes_below length_table encode_table base width prefix_decode_table prefix_encode_table
next_table = refl

-- A prefix of two symbols or more begins where the one before it ends.
pub base_next : (i : ℕ) → 16 ≤ i → i < 28 → base (i + 1) ≡ base i + 32 ^ width i
base_next i lo hi = (==_iff _ _).0 (ground (arith, passes_at 28 _ i hi next_table))

pub last_base : prefix_count 12 ≡ base 28
unfolding prefix_count base prefix_decode_table encode_table
last_base = refl

pub last_width : length_table b'w' - 1 ≡ width 28
unfolding width length_table encode_table
last_width = refl

pub last_symbol : encode_table 28 ≡ b'w'
unfolding encode_table
last_symbol = refl

pub word_fits : 2 ^ 64 ≤ base 28 + 32 ^ width 28
unfolding width length_table encode_table base prefix_decode_table prefix_count
word_fits = omega arith

pub first_base : base 16 ≡ 16
unfolding base prefix_decode_table encode_table prefix_count
first_base = refl

pub last_base-le : base 28 ≤ 2 ^ 64 - 1
unfolding base prefix_decode_table encode_table prefix_count
last_base-le = omega arith

byte_table :
    passes_below 128 (λ b.
      (is_bad b || lower_byte b == encode_table (value_table b))
      && ltb (value_table b) 32
      && (length_table b == 0
          || lower_byte b == encode_table (value_table b)
            && length_table b == length_table (encode_table (value_table b))
            && prefix_decode_table b == prefix_decode_table (encode_table (value_table b))
            && (ltb (value_table b) 29 || leb 14 (length_table b))))
    ≡ true
unfolding passes_below length_table encode_table value_table prefix_decode_table prefix_count
byte_table = refl

-- A byte that `DecodeBytes` takes for a symbol is that symbol in either case.
pub byte_symbol :
    (b : ℕ)
    → b < 128
    → is_bad b ≡ false
    → (lower_byte b ≡ encode_table (value_table b)) × (value_table b < 32)
byte_symbol b h good = ground (arith, passes_at 128 _ b h byte_table)

-- So is a byte that it takes for a prefix, and the tables agree on it.
pub byte_prefix :
    (b : ℕ)
    → b < 128
    → length_table b ≢ 0
    → (lower_byte b ≡ encode_table (value_table b))
      × (value_table b < 32)
      × (length_table b ≡ length_table (encode_table (value_table b)))
      × (prefix_decode_table b ≡ prefix_decode_table (encode_table (value_table b)))
      × ((value_table b < 29) ⊎ (14 ≤ length_table b))
byte_prefix b h some_length = let fact = passes_at 128 _ b h byte_table in ground (arith, fact)
