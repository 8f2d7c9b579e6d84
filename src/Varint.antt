-- ===== src/Varint.antt =====
-- be/schema/varint.go: 64-bit ids as text of 1 to 14 symbols of base 32. A `Varint` is an int64; the
-- code converts it to a uint64 and back, and the model keeps that bit pattern, a number below
-- 2 ^ 64. A byte is a number below 256.
pub mod Tables
pub mod Digits
pub mod Encode
pub mod Order
pub mod Max
pub mod RoundTrip
pub mod Reads
pub mod Canonical
pub mod Tests
use Prim.Native.Nat.{compare, Ordering, bit_and}
use pixur.Base.{
  ℕ, zero, suc, ◌+◌, ◌-◌, ◌*◌, ◌/◌, ◌%◌, ◌^◌, Bool, true, false, not, ◌&&◌, Option, none, some,
  List, [], ◌∷◌, ◌++◌, ltb, leb, ◌==◌, if◌then◌else◌, length, take,
}
use pixur.Base.Result.{Result, ok, err, ◌>>=◌}

pub data Error : Type 0 where
  no_input invalid_length invalid_symbol eof overflow excess_input : Error

-- The constant at `iota` k: prefixg is 0 and prefixw is 12.
pub prefix_count : ℕ → ℕ
prefix_count k = (2 ^ (5 * k) - 1) * 32 / 31 + 16

-- An array literal with the given entries, and 0 elsewhere.
abbrev pub table : List (ℕ × ℕ) → ℕ → ℕ
table [] i = 0
table ((j, v) ∷ t) i = if i == j then v else table t i

-- A letter's entries: both cases have one value.
abbrev pub letter : ℕ → ℕ → List (ℕ × ℕ) → List (ℕ × ℕ)
letter upper v t = (upper, v) ∷ (upper + 32, v) ∷ t

-- The first sixteen symbols stand for themselves in three tables; `f` gives the entry.
abbrev pub low_entries : (ℕ → ℕ) → List (ℕ × ℕ) → List (ℕ × ℕ)
low_entries f t =
    (b'0', f 0)
    ∷ (b'1', f 1)
    ∷ (b'2', f 2)
    ∷ (b'3', f 3)
    ∷ (b'4', f 4)
    ∷ (b'5', f 5)
    ∷ (b'6', f 6)
    ∷ (b'7', f 7)
    ∷ (b'8', f 8)
    ∷ (b'9', f 9)
    ∷ letter b'A' (f 10) (
        letter b'B' (f 11)
          (letter b'C' (f 12) (letter b'D' (f 13) (letter b'E' (f 14) (letter b'F' (f 15) t)))))

pub prefix_decode_table : ℕ → ℕ
unfolding prefix_count
prefix_decode_table = table (
    low_entries (λ i. i)
      (letter b'G' (prefix_count 0) (
        letter b'H' (prefix_count 1) (
          letter b'J' (prefix_count 2) (
            letter b'K' (prefix_count 3) (
              letter b'M' (prefix_count 4) (
                letter b'N' (prefix_count 5) (
                  letter b'P' (prefix_count 6) (
                    letter b'Q' (prefix_count 7) (
                      letter b'R' (prefix_count 8) (
                        letter b'S' (prefix_count 9) (
                          letter b'T' (prefix_count 10) (
                            letter b'V' (prefix_count 11)
                              (letter b'W' (prefix_count 12) []))))))))))))))

pub prefix_encode_table : ℕ → ℕ
unfolding prefix_count
prefix_encode_table = table (
    (16, prefix_count 0)
    ∷ (17, prefix_count 1)
    ∷ (18, prefix_count 2)
    ∷ (19, prefix_count 3)
    ∷ (20, prefix_count 4)
    ∷ (21, prefix_count 5)
    ∷ (22, prefix_count 6)
    ∷ (23, prefix_count 7)
    ∷ (24, prefix_count 8)
    ∷ (25, prefix_count 9)
    ∷ (26, prefix_count 10)
    ∷ (27, prefix_count 11)
    ∷ (28, prefix_count 12)
    ∷ [])

-- Number of symbols to expect, given the prefix.
pub length_table : ℕ → ℕ
length_table = table (
    low_entries (λ i. 1)
      (letter b'G' 2 (
        letter b'H' 3 (
          letter b'J' 4 (
            letter b'K' 5 (
              letter b'M' 6 (
                letter b'N' 7 (
                  letter b'P' 8 (
                    letter b'Q' 9 (
                      letter b'R' 10 (
                        letter b'S' 11 (
                          letter b'T' 12 (
                            letter b'V' 13 (
                              letter b'W' 14
                                (letter b'X' 15 (letter b'Y' 16 (letter b'Z' 17 [])))))))))))))))))

pub value_table : ℕ → ℕ
value_table = table (
    low_entries (λ i. i)
      (letter b'G' 16 (
        letter b'H' 17 (
          letter b'J' 18 (
            letter b'K' 19 (
              letter b'M' 20 (
                letter b'N' 21 (
                  letter b'P' 22 (
                    letter b'Q' 23 (
                      letter b'R' 24 (
                        letter b'S' 25 (
                          letter b'T' 26 (
                            letter b'V' 27 (
                              letter b'W' 28
                                (letter b'X' 29 (letter b'Y' 30 (letter b'Z' 31 [])))))))))))))))))

pub encode_table : ℕ → ℕ
encode_table = table (
    (0, b'0')
    ∷ (1, b'1')
    ∷ (2, b'2')
    ∷ (3, b'3')
    ∷ (4, b'4')
    ∷ (5, b'5')
    ∷ (6, b'6')
    ∷ (7, b'7')
    ∷ (8, b'8')
    ∷ (9, b'9')
    ∷ (10, b'a')
    ∷ (11, b'b')
    ∷ (12, b'c')
    ∷ (13, b'd')
    ∷ (14, b'e')
    ∷ (15, b'f')
    ∷ (16, b'g')
    ∷ (17, b'h')
    ∷ (18, b'j')
    ∷ (19, b'k')
    ∷ (20, b'm')
    ∷ (21, b'n')
    ∷ (22, b'p')
    ∷ (23, b'q')
    ∷ (24, b'r')
    ∷ (25, b's')
    ∷ (26, b't')
    ∷ (27, b'v')
    ∷ (28, b'w')
    ∷ (29, b'x')
    ∷ (30, b'y')
    ∷ (31, b'z')
    ∷ [])

-- The loop of `Append` that looks for the prefix, from index `i` with `rounds` indices left.
pub find_prefix : ℕ → ℕ → ℕ → Option ℕ
find_prefix zero i n = none
find_prefix (suc rounds) i n =
    let rest = find_prefix rounds (i + 1) n in
    if ltb n (prefix_encode_table (i + 1)) then some i else rest

-- The loop of `Append` that fills `suffix` from its end: `k` symbols of `n` in front of `filled`.
pub fill : ℕ → ℕ → List ℕ → List ℕ
fill zero n filled = filled
fill (suc k) n filled = fill k (n / 32) (encode_table (bit_and n 31) ∷ filled)

-- The suffix that starts with the prefix symbol `i`; the other symbols hold `n`.
pub suffix_of : ℕ → ℕ → List ℕ
suffix_of i n =
    encode_table i ∷ fill (length_table (encode_table i) - 1) (n - prefix_encode_table i) []

-- `Varint.Append`. Where no prefix is found the suffix stays nil.
unfoldable pub append : List ℕ → ℕ → List ℕ
append dest n =
    if ltb n 0x10
    then dest ++ (encode_table n ∷ [])
    else if ltb n (prefix_count 12)
    then dest ++ elim (find_prefix 16 0x10 n) [ some i ↦ suffix_of i n | none ↦ [] ]
    else dest ++ (b'w' ∷ fill (length_table b'w' - 1) (n - prefix_count 12) [])

-- `Varint.EncodeBytes` and `Varint.Encode`.
unfoldable pub encode : ℕ → List ℕ
unfolding append
encode n = append [] n

-- `Varint(-1).EncodeBytes()`.
pub max_value : List ℕ
unfolding encode
max_value = encode (2 ^ 64 - 1)

pub max_length : ℕ
unfolding max_value
max_length = length max_value

-- `bytes.Compare`.
pub compare_bytes : List ℕ → List ℕ → Ordering
compare_bytes [] [] = Ordering.eq
compare_bytes [] (b ∷ bs) = Ordering.lt
compare_bytes (a ∷ as') [] = Ordering.gt
compare_bytes (a ∷ as') (b ∷ bs) = elim (compare a b) [
  | Ordering.lt ↦ Ordering.lt
  | Ordering.gt ↦ Ordering.gt
  | Ordering.eq ↦ compare_bytes as' bs
]

abbrev pub is_gt : Ordering → Bool
is_gt Ordering.lt = false
is_gt Ordering.eq = false
is_gt Ordering.gt = true

-- The loop of `DecodeBytes`; `none` is the invalid symbol.
pub decode_loop : List ℕ → ℕ → Option ℕ
decode_loop [] num = some num
decode_loop (b ∷ bs) num =
    let val = value_table b in
    let rest = decode_loop bs ((num * 32 % 2 ^ 64 + val) % 2 ^ 64) in
    if val == 0 && not (b == b'0') then none else rest

-- `to_lower` is `bytes.ToLower` of the Go library.
module _ (to_lower : List ℕ → List ℕ) where
  -- `Varint.DecodeBytes`: the value and the number of bytes consumed.
  unfoldable pub decode_bytes : List ℕ → Result Error (ℕ × ℕ)
  decode_bytes [] = err no_input
  decode_bytes (b ∷ bs) =
      let len = length_table b in
      if len == 0
      then err invalid_length
      else if ltb (length (b ∷ bs)) len
      then err eof
      else if leb max_length len && is_gt (compare_bytes (to_lower (b ∷ bs)) max_value)
      then err overflow
      else elim (decode_loop (take (len - 1) bs) 0) [
        | none ↦ err invalid_symbol
        | some num ↦ ok ((num + prefix_decode_table b) % 2 ^ 64, len)
      ]

  -- `Varint.DecodeAll`: the value that it stores, if it stores one.
  unfoldable pub decode_all : List ℕ → Result Error ℕ
  unfolding decode_bytes
  decode_all raw = do (v, n) ← decode_bytes raw; if n == length raw then ok v else err excess_input
