-- ===== src/Varint/Digits.antt =====
-- be/schema/varint.go: the symbols behind the prefix, most significant first: what `fill` writes,
-- what the loop of `DecodeBytes` reads, and how `bytes.Compare` orders them.
use Prim.Native.Nat.{compare, Ordering, bit_and}
use mathlib.Core.List.{append_assoc}
use native.Mathlib.Nat.{pow-suc}
use pixur.Base.{
  ℕ, zero, suc, ◌+◌, ◌*◌, ◌/◌, ◌%◌, ◌^◌, ◌<◌, ◌≡◌, ◌⊎◌, refl, ◌∙◌, ap, sym, inl, inr, List, [], ◌∷◌,
  ◌++◌, map, arith, length, All,
}
use pixur.Base.Bits.{bit_and_step, bit_and_unit}
use pixur.Varint.{encode_table, fill, decode_loop, compare_bytes}
use pixur.Varint.Tables.{lower_byte, symbol_facts, encode_table_mono}

-- `k` symbols that hold `n`.
pub digits : ℕ → ℕ → List ℕ
digits zero n = []
digits (suc k) n = digits k (n / 32) ++ (encode_table (n % 32) ∷ [])

pub digits-zero : (n : ℕ) → digits 0 n ≡ []
unfolding digits
digits-zero n = refl

low_symbol : (n : ℕ) → bit_and n 31 ≡ n % 32
low_symbol n = omega (
  arith,
  bit_and_step n 31,
  bit_and_step (n / 2) 15,
  bit_and_step (n / 2 / 2) 7,
  bit_and_step (n / 2 / 2 / 2) 3,
  bit_and_unit (n / 2 / 2 / 2 / 2),
)

-- The loop of `Append` writes the digits in front of what is there.
pub fill-digits : (k n : ℕ) (filled : List ℕ) → fill k n filled ≡ digits k n ++ filled
unfolding fill digits
fill-digits zero n filled = refl
fill-digits (suc k) n filled = rw (
  low_symbol n,
  fill-digits k (n / 32) (encode_table (n % 32) ∷ filled),
  append_assoc (digits k (n / 32)) (encode_table (n % 32) ∷ []) filled,
)

pub length-digits : (k n : ℕ) → length (digits k n) ≡ k
unfolding digits
length-digits zero n = refl
length-digits (suc k) n =
    length_snoc (digits k (n / 32)) (encode_table (n % 32)) ∙ ap suc (length-digits k (n / 32))
  where
    length_snoc : (xs : List ℕ) (x : ℕ) → length (xs ++ (x ∷ [])) ≡ suc (length xs)
    length_snoc [] x = refl
    length_snoc (y ∷ ys) x = ap suc (length_snoc ys x)

pub digits_ascii : (k n : ℕ) → All (λ b. b < 128) (digits k n)
unfolding digits
digits_ascii zero n = tt
digits_ascii (suc k) n =
    all_snoc (digits k (n / 32)) _ (digits_ascii k (n / 32)) (symbol_facts (n % 32) (omega arith)).3
  where
    all_snoc :
        (xs : List ℕ) (x : ℕ)
        → All (λ b. b < 128) xs
        → x < 128
        → All (λ b. b < 128) (xs ++ (x ∷ []))
    all_snoc [] x h hx = (hx, tt)
    all_snoc (y ∷ ys) x (hy, h) hx = (hy, all_snoc ys x h hx)

-- One round of the loop of `DecodeBytes` on a symbol.
decode_symbol :
    (n : ℕ) (rest : List ℕ)
    → n < 2 ^ 64
    → decode_loop (encode_table (n % 32) ∷ rest) (n / 32) ≡ decode_loop rest n
unfolding decode_loop
decode_symbol n rest h =
    let f = symbol_facts (n % 32) (omega arith) in
    let e : (n / 32 * 32 % 2 ^ 64 + n % 32) % 2 ^ 64 ≡ n = omega arith in rw (f.1, f.0, e)

-- The loop reads the digits back.
pub decode_loop-digits :
    (k n : ℕ) (rest : List ℕ)
    → n < 32 ^ k
    → n < 2 ^ 64
    → decode_loop (digits k n ++ rest) 0 ≡ decode_loop rest n
unfolding digits
decode_loop-digits zero n rest h fits = let e : n ≡ 0 = omega arith in rw e
decode_loop-digits (suc k) n rest h fits =
    rw
      (
        append_assoc (digits k (n / 32)) (encode_table (n % 32) ∷ []) rest,
        decode_loop-digits k (n / 32) (encode_table (n % 32) ∷ rest) (omega (arith, pow-suc 32 k))
            (omega arith),
      )
      (decode_symbol n rest fits)

-- First by the one, then by the other.
abbrev pub then_by : Ordering → Ordering → Ordering
then_by Ordering.lt o = Ordering.lt
then_by Ordering.eq o = o
then_by Ordering.gt o = Ordering.gt

pub compare_bytes-append :
    (xs ys u v : List ℕ)
    → length xs ≡ length ys
    → compare_bytes (xs ++ u) (ys ++ v) ≡ then_by (compare_bytes xs ys) (compare_bytes u v)
unfolding compare_bytes
compare_bytes-append [] [] u v h = refl
compare_bytes-append [] (y ∷ ys) u v h = absurd (omega arith)
compare_bytes-append (x ∷ xs) [] u v h = absurd (omega arith)
compare_bytes-append (x ∷ xs) (y ∷ ys) u v h =
    ground (arith, compare_bytes-append xs ys u v (omega arith))

-- One symbol against another.
pub compare_symbols :
    (i j : ℕ) (u v : List ℕ)
    → i < 32
    → j < 32
    → compare_bytes (encode_table i ∷ u) (encode_table j ∷ v)
      ≡ then_by (compare i j) (compare_bytes u v)
unfolding compare_bytes
compare_symbols i j u v hi hj = elim (lt_cases i j) [
  | inl lt ↦ ground (arith, encode_table_mono i j lt hj)
  | inr (inl gt) ↦ ground (arith, encode_table_mono j i gt hi)
  | inr (inr e) ↦ rw e (ground arith)
]
  where
    lt_cases : (i j : ℕ) → (i < j) ⊎ ((j < i) ⊎ (i ≡ j))
    lt_cases i j = ground arith

compare_split :
    (m n : ℕ) → then_by (compare (m / 32) (n / 32)) (compare (m % 32) (n % 32)) ≡ compare m n
compare_split m n = ground arith

-- Digits are ordered as the numbers that they hold.
pub compare_bytes-digits :
    (k m n : ℕ) → m < 32 ^ k → n < 32 ^ k → compare_bytes (digits k m) (digits k n) ≡ compare m n
unfolding digits
compare_bytes-digits zero m n hm hn =
    let em : m ≡ 0 = omega arith in
    let en : n ≡ 0 = omega arith in unfold compare_bytes in rw (em, en)
compare_bytes-digits (suc k) m n hm hn =
    rw
      (
        compare_bytes-append (digits k (m / 32)) (digits k (n / 32)) (encode_table (m % 32) ∷ [])
            (encode_table (n % 32) ∷ [])
            (length-digits k (m / 32) ∙ sym (length-digits k (n / 32))),
        compare_bytes-digits k (m / 32) (n / 32) (omega (arith, pow-suc 32 k))
            (omega (arith, pow-suc 32 k)),
        compare_symbols (m % 32) (n % 32) [] [] (omega arith) (omega arith),
      )
      (ap (then_by (compare (m / 32) (n / 32))) (last_symbol (compare (m % 32) (n % 32)))
        ∙ compare_split m n)
  where
    last_symbol : (o : Ordering) → then_by o (compare_bytes [] []) ≡ o
    last_symbol Ordering.lt = refl
    last_symbol Ordering.eq = unfold compare_bytes in refl
    last_symbol Ordering.gt = refl

-- Digits are in lower case.
pub map-digits : (k n : ℕ) → map lower_byte (digits k n) ≡ digits k n
unfolding digits
map-digits zero n = refl
map-digits (suc k) n =
    map_snoc (digits k (n / 32)) (encode_table (n % 32))
    ∙ rw (map-digits k (n / 32), (symbol_facts (n % 32) (omega arith)).2)
  where
    map_snoc :
        (xs : List ℕ) (x : ℕ)
        → map lower_byte (xs ++ (x ∷ [])) ≡ map lower_byte xs ++ (lower_byte x ∷ [])
    map_snoc [] x = refl
    map_snoc (y ∷ ys) x = ap (λ t. lower_byte y ∷ t) (map_snoc ys x)

-- One more digit.
pub digits_push :
    (j a v : ℕ) → v < 32 → digits (suc j) (a * 32 + v) ≡ digits j a ++ (encode_table v ∷ [])
unfolding digits
digits_push j a v h =
    let high : (a * 32 + v) / 32 ≡ a = omega arith in
    let low : (a * 32 + v) % 32 ≡ v = omega arith in rw (high, low)
